-- ===== src/Ingest/Events.antt =====
-- Events of GH Archive (pkg/ingest/archive.go) and what the aggregator keeps of them
-- (pkg/ingest/aggregator.go).
use devtrace.Base.Time.{Time}
use devtrace.Base.{
  ap, eq_iff, arith, ◌↔◌, nat_eq, true, ◌&&◌, Comparable, ◌≡◌, Bool, List, ℕ, String, ◌==◌,
  String_eq, ℕ_eq,
}

abbrev pub event_pull_request : String
event_pull_request = "PullRequestEvent"

abbrev pub event_pull_request_review : String
event_pull_request_review = "PullRequestReviewEvent"

abbrev pub event_issue_comment : String
event_issue_comment = "IssueCommentEvent"

abbrev pub event_issues : String
event_issues = "IssuesEvent"

abbrev pub action_opened : String
action_opened = "opened"

abbrev pub action_closed : String
action_closed = "closed"

abbrev pub action_merged : String
action_merged = "merged"

-- A PR number is positive, or 0 where the event has none.
pub record Event : Type 0 where
  pub event_type : String
  pub action : String
  pub actor : String
  pub repo : String
  pub created_at : Time
  pub pr_number : ℕ

-- The repos are a set: no name stands twice.
pub record Summary : Type 0 where
  pub username : String
  pub prs_opened : ℕ
  pub prs_merged : ℕ
  pub prs_closed : ℕ
  pub reviews_given : ℕ
  pub issue_comments : ℕ
  pub issues_opened : ℕ
  pub issues_closed : ℕ
  pub repos : List String

pub record PrEvent : Type 0 where
  pub repo : String
  pub number : ℕ
  pub action : String
  pub author : String
  pub occur_at : Time

pub record PrEventKey : Type 0 where
  pub repo : String
  pub number : ℕ
  pub action : String

abbrev pub same_key : PrEventKey → PrEventKey → Bool
same_key j k = j.repo == k.repo && nat_eq j.number k.number && j.action == k.action

pub same_key_iff : (j k : PrEventKey) → (same_key j k ≡ true) ↔ (j ≡ k)
same_key_iff j k = (
  λ h. ground (arith, eq_iff j.repo k.repo, eq_iff j.action k.action),
  λ e. ground (
    arith,
    eq_iff j.repo k.repo,
    eq_iff j.action k.action,
    ap (λ (x : PrEventKey). x.repo) e,
    ap (λ (x : PrEventKey). x.number) e,
    ap (λ (x : PrEventKey). x.action) e,
  ),
)

instance abbrev pub PrEventKey_eq : Comparable PrEventKey
PrEventKey_eq = record { same = same_key; same_iff = same_key_iff }
