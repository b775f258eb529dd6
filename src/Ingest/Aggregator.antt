-- ===== src/Ingest/Aggregator.antt =====
-- The Aggregator (pkg/ingest/aggregator.go): per-contributor summaries of an hour, and the
-- observations of pull requests for the merge graph.
use devtrace.Base.Maps.{get, put}
use devtrace.Base.Time.{Time, hour}
use devtrace.Base.{
  ltb, not, ◌+◌, ◌++◌, none, ◌&&◌, ◌||◌, map, ◌∷◌, any, some, ◌*◌, length, [], Option,
  if◌then◌else◌, Bool, ◌/◌, List, ℕ, String, ◌==◌, String_eq,
}
use devtrace.Bot.{is_bot}
use devtrace.Ingest.Events.{
  event_issues, event_issue_comment, event_pull_request_review, action_closed, action_merged,
  event_pull_request, action_opened, Event, Summary, PrEvent, PrEventKey, PrEventKey_eq,
}

pub record Aggregator : Type 0 where
  pub at : Time
  pub summaries : List (String × Summary)
  pub pr_events : List (PrEventKey × PrEvent)

-- `hour.Truncate(time.Hour)`
unfoldable pub new_aggregator : Time → Aggregator
new_aggregator at = record { at = at / hour * hour; summaries = []; pr_events = [] }

abbrev pub tracked : String → Bool
tracked action = action == action_opened || action == action_merged || action == action_closed

abbrev pub key_of : Event → PrEventKey
key_of ev = record { repo = ev.repo; number = ev.pr_number; action = ev.action }

-- The actor is the author of an opened PR, unless it is a bot.
abbrev pub observation : Event → PrEvent
observation ev = record {
  repo = ev.repo;
  number = ev.pr_number;
  action = ev.action;
  author = if ev.action == action_opened && not (is_bot ev.actor) then ev.actor else "";
  occur_at = ev.created_at;
}

abbrev pub is_observed : Event → Bool
is_observed ev =
    ev.event_type == event_pull_request
    && not (ev.repo == "")
    && ltb 0 ev.pr_number
    && tracked ev.action

abbrev pub keep_first :
    Option PrEvent → List (PrEventKey × PrEvent) → Event → List (PrEventKey × PrEvent)
keep_first none m ev = put m (key_of ev) (observation ev)
keep_first (some dup) m ev = m

unfoldable pub observe : List (PrEventKey × PrEvent) → Event → List (PrEventKey × PrEvent)
observe m ev = if is_observed ev then keep_first (get m (key_of ev)) m ev else m

abbrev pub new_summary : String → Summary
new_summary actor = record {
  username = actor;
  prs_opened = 0;
  prs_merged = 0;
  prs_closed = 0;
  reviews_given = 0;
  issue_comments = 0;
  issues_opened = 0;
  issues_closed = 0;
  repos = [];
}

abbrev pub add_repo : String → List String → List String
add_repo repo repos = if any (λ r. r == repo) repos then repos else repos ++ repo ∷ []

-- The switch on the type and the action of an event.
unfoldable pub count_event : Event → Summary → Summary
count_event ev s =
    if ev.event_type == event_pull_request
    then (if ev.action == action_opened
        then record s { prs_opened = s.prs_opened + 1 }
        else (if ev.action == action_merged
            then record s { prs_merged = s.prs_merged + 1 }
            else (if ev.action == action_closed
                then record s { prs_closed = s.prs_closed + 1 }
                else s)))
    else (if ev.event_type == event_pull_request_review
        then record s { reviews_given = s.reviews_given + 1 }
        else (if ev.event_type == event_issue_comment
            then record s { issue_comments = s.issue_comments + 1 }
            else (if ev.event_type == event_issues
                then (if ev.action == action_opened
                    then record s { issues_opened = s.issues_opened + 1 }
                    else (if ev.action == action_closed
                        then record s { issues_closed = s.issues_closed + 1 }
                        else s))
                else s)))

abbrev pub summary_or_new : String → Option Summary → Summary
summary_or_new actor none = new_summary actor
summary_or_new actor (some s) = s

abbrev pub with_repo : String → Summary → Summary
with_repo repo s = record s { repos = add_repo repo s.repos }

unfoldable pub credit : List (String × Summary) → Event → List (String × Summary)
credit m ev =
    put m ev.actor (count_event ev (with_repo ev.repo (summary_or_new ev.actor (get m ev.actor))))

unfoldable pub add : Aggregator → Event → Aggregator
add a ev =
    let observed = record a { pr_events = observe a.pr_events ev } in
    if is_bot ev.actor then observed else record observed { summaries = credit a.summaries ev }

-- The callback of reader.Stream, over the events of an archive.
unfoldable pub add_all : Aggregator → List Event → Aggregator
add_all a [] = a
add_all a (ev ∷ evs) = add_all (add a ev) evs

unfoldable pub results : Aggregator → List Summary
results a = map (λ p. p.1) a.summaries

unfoldable pub pr_observations : Aggregator → List PrEvent
pr_observations a = map (λ p. p.1) a.pr_events

unfoldable pub count : Aggregator → ℕ
count a = length a.summaries
