-- ===== src/Ingest/Notify.antt =====
-- queueContributors and the notifications of watchlists (pkg/ingest/runner.go). What the database
-- answers to ContributorExists, EnqueueForScoring and InsertNotificationEvent is an argument.
use Prim.Native.Char.{code}
use devtrace.Plan.Defs.{plan_or_free}
use devtrace.Ingest.Events.{Summary}
use devtrace.Base.{
  String_eq, ◌||◌, nat_eq, ◌++◌, ◌==◌, not, ltb, [], ◌∷◌, if◌then◌else◌, any, some, none, ℕ, Option,
  Bool, String, List,
}

-- postgres.WatchlistEntry (pkg/data/postgres/watchlist.go).
pub record WatchlistEntry : Type 0 where
  pub id : String
  pub tenant_id : String
  pub target : String
  pub source : String
  pub plan : String

-- The details map: its counts under their keys, and the repos.
pub record EventDetails : Type 0 where
  pub counts : List (String × ℕ)
  pub repos : List String

-- The arguments of InsertNotificationEvent; the event type is always `new_contributor`.
pub record NotificationEvent : Type 0 where
  pub watchlist_id : String
  pub contributor : String
  pub details : EventDetails

abbrev pub count_of : String → ℕ → List (String × ℕ)
count_of key n = if ltb 0 n then (key, n) ∷ [] else []

abbrev pub pr_counts : Summary → List (String × ℕ)
pr_counts s =
    if ltb 0 s.prs_opened || ltb 0 s.prs_merged || ltb 0 s.prs_closed
    then ("prs_opened", s.prs_opened)
      ∷ ("prs_merged", s.prs_merged)
      ∷ ("prs_closed", s.prs_closed)
      ∷ []
    else []

abbrev pub review_counts : String → Summary → List (String × ℕ)
review_counts scope s = if not (scope == "pr") then count_of "reviews_given" s.reviews_given else []

abbrev pub issue_counts : String → Summary → List (String × ℕ)
issue_counts scope s =
    if scope == "pr_review_issue"
    then count_of "issue_comments" s.issue_comments
      ++ count_of "issues_opened" s.issues_opened
      ++ count_of "issues_closed" s.issues_closed
    else []

abbrev pub counts_for : String → Summary → List (String × ℕ)
counts_for scope s = pr_counts s ++ review_counts scope s ++ issue_counts scope s

abbrev pub with_repos : List String → List (String × ℕ) → Option EventDetails
with_repos repos [] = none
with_repos repos (c ∷ cs) = some (record { counts = c ∷ cs; repos = repos })

-- hasActivity is set exactly where a count is stored.
unfoldable pub build_event_details : String → Summary → Option EventDetails
build_event_details plan_name s =
    with_repos s.repos (counts_for (plan_or_free plan_name).watchlist_scope s)

-- The part of a repo's name before its first slash.
abbrev pub before_slash : String → Option String
before_slash String.[] = none
before_slash (String.◌∷◌ c s) =
    if nat_eq (code c) 47
    then some ""
    else elim (before_slash s) [ none ↦ none | some o ↦ some (String.◌∷◌ c o) ]

abbrev pub unless_empty : String → Option String → String
unless_empty repo none = repo
unless_empty repo (some o) = if o == "" then repo else o

unfoldable pub owner : String → String
owner repo = unless_empty repo (before_slash repo)

-- The events written for a contributor and the watchlists notified.
pub record Notified : Type 0 where
  pub events : List NotificationEvent
  pub notified : List String

abbrev pub is_notified : String → List String → Bool
is_notified id ids = any (λ j. j == id) ids

abbrev pub event_for : WatchlistEntry → Summary → EventDetails → NotificationEvent
event_for wl s d = record { watchlist_id = wl.id; contributor = s.username; details = d }

-- writeNewContributorEvent: the event that is written, if one is.
unfoldable pub write_new_contributor_event :
    (NotificationEvent → Bool) → WatchlistEntry → Summary → Option NotificationEvent
write_new_contributor_event insert wl s = elim (build_event_details wl.plan s) [
  | none ↦ none
  | some d ↦ if insert (event_for wl s d) then some (event_for wl s d) else none
]

abbrev pub noted : Notified → Option NotificationEvent → Notified
noted n none = n
noted n (some ev) = record {
  events = n.events ++ ev ∷ [];
  notified = n.notified ++ ev.watchlist_id ∷ [];
}

unfoldable pub notify_one :
    (NotificationEvent → Bool) → Summary → WatchlistEntry → Notified → Notified
notify_one insert s wl n =
    if is_notified wl.id n.notified then n else noted n (write_new_contributor_event insert wl s)

unfoldable pub notify_targets :
    (NotificationEvent → Bool) → Summary → List WatchlistEntry → Notified → Notified
notify_targets insert s [] n = n
notify_targets insert s (wl ∷ wls) n = notify_targets insert s wls (notify_one insert s wl n)

-- The targets of an organisation, then those of the repo itself, for each repo.
unfoldable pub notify_repos :
    (NotificationEvent → Bool)
    → (String → List WatchlistEntry)
    → Summary
    → List String
    → Notified
    → Notified
notify_repos insert targets s [] n = n
notify_repos insert targets s (repo ∷ repos) n =
    notify_repos insert targets s repos
      (notify_targets insert s (targets repo) (notify_targets insert s (targets (owner repo)) n))

unfoldable pub notify_watchlists :
    (NotificationEvent → Bool) → (String → List WatchlistEntry) → Summary → List NotificationEvent
notify_watchlists insert targets s =
    (notify_repos insert targets s s.repos (record { events = []; notified = [] })).events
