-- ===== src/Ingest/Counters.antt =====
-- The counters of a summary (pkg/ingest/aggregator.go), and what each of them counts.
use devtrace.Base.{
  sym, subst, true, false, inr, inl, eq_iff, Bool-cases, arith, refl, ◌+◌, none, ◌≡◌, if◌then◌else◌,
  some, ◌&&◌, Option, Bool, ℕ, String, ◌==◌, String_eq,
}
use devtrace.Ingest.Aggregator.{count_event}
use devtrace.Ingest.Events.{
  event_issues, event_issue_comment, event_pull_request_review, event_pull_request, action_closed,
  action_merged, action_opened, Event, Summary,
}

pub data Counter : Type 0 where
  prs_opened prs_merged prs_closed reviews_given issue_comments issues_opened issues_closed :
      Counter

abbrev pub value : Counter → Summary → ℕ
value prs_opened s = s.prs_opened
value prs_merged s = s.prs_merged
value prs_closed s = s.prs_closed
value reviews_given s = s.reviews_given
value issue_comments s = s.issue_comments
value issues_opened s = s.issues_opened
value issues_closed s = s.issues_closed

-- What each counter counts.
abbrev pub counts : Counter → Event → Bool
counts prs_opened ev = ev.event_type == "PullRequestEvent" && ev.action == "opened"
counts prs_merged ev = ev.event_type == "PullRequestEvent" && ev.action == "merged"
counts prs_closed ev = ev.event_type == "PullRequestEvent" && ev.action == "closed"
counts reviews_given ev = ev.event_type == "PullRequestReviewEvent"
counts issue_comments ev = ev.event_type == "IssueCommentEvent"
counts issues_opened ev = ev.event_type == "IssuesEvent" && ev.action == "opened"
counts issues_closed ev = ev.event_type == "IssuesEvent" && ev.action == "closed"

abbrev pub value_of : Counter → Option Summary → ℕ
value_of c none = 0
value_of c (some s) = value c s

abbrev pub one_if : Bool → ℕ
one_if b = if b then 1 else 0

other_test : (x a b : String) → (a == b) ≡ false → (x == a) ≡ true → (x == b) ≡ false
other_test x a b ne e = rw ((eq_iff x a).0 e) ne

abbrev pub IsCounted : Counter → Summary → Event → Type 0
IsCounted c s ev = value c (count_event ev s) ≡ value c s + one_if (counts c ev)

pull_request-IsCounted :
    (c : Counter) (ev : Event) (s : Summary)
    → IsCounted c s (record ev { event_type = event_pull_request })
unfolding count_event
pull_request-IsCounted prs_opened ev s = ground arith
pull_request-IsCounted prs_merged ev s =
    ground (arith, other_test ev.action action_opened action_merged refl)
pull_request-IsCounted prs_closed ev s = ground (
  arith,
  other_test ev.action action_opened action_closed refl,
  other_test ev.action action_merged action_closed refl,
)
pull_request-IsCounted _ ev s = ground arith

review-IsCounted :
    (c : Counter) (ev : Event) (s : Summary)
    → IsCounted c s (record ev { event_type = event_pull_request_review })
unfolding count_event
review-IsCounted prs_opened ev s = omega arith
review-IsCounted _ ev s = omega arith

comment-IsCounted :
    (c : Counter) (ev : Event) (s : Summary)
    → IsCounted c s (record ev { event_type = event_issue_comment })
unfolding count_event
comment-IsCounted prs_opened ev s = omega arith
comment-IsCounted _ ev s = omega arith

issue-IsCounted :
    (c : Counter) (ev : Event) (s : Summary)
    → IsCounted c s (record ev { event_type = event_issues })
unfolding count_event
issue-IsCounted issues_opened ev s = ground arith
issue-IsCounted issues_closed ev s =
    ground (arith, other_test ev.action action_opened action_closed refl)
issue-IsCounted _ ev s = ground arith

other-IsCounted :
    (c : Counter) (ev : Event) (s : Summary)
    → (ev.event_type == event_pull_request) ≡ false
    → (ev.event_type == event_pull_request_review) ≡ false
    → (ev.event_type == event_issue_comment) ≡ false
    → (ev.event_type == event_issues) ≡ false
    → IsCounted c s ev
unfolding count_event
other-IsCounted reviews_given ev s p r k i = rw (p, r, k, i) (omega arith)
other-IsCounted issue_comments ev s p r k i = rw (p, r, k, i) (omega arith)
other-IsCounted issues_opened ev s p r k i = rw (p, r, k, i) (omega arith)
other-IsCounted issues_closed ev s p r k i = rw (p, r, k, i) (omega arith)
other-IsCounted _ ev s p r k i = rw (p, r, k, i) (omega arith)

of_type :
    (c : Counter) (ev : Event) (s : Summary) (t : String)
    → (ev.event_type == t) ≡ true
    → IsCounted c s (record ev { event_type = t })
    → IsCounted c s ev
of_type c ev s t same counted =
    subst (λ u. IsCounted c s (record ev { event_type = u }))
      (sym ((eq_iff ev.event_type t).0 same)) counted

pub value-count_event : (c : Counter) (ev : Event) (s : Summary) → IsCounted c s ev
value-count_event c ev s = elim (Bool-cases (ev.event_type == event_pull_request)) [
  | inl p ↦ of_type c ev s _ p (pull_request-IsCounted c ev s)
  | inr p ↦ elim (Bool-cases (ev.event_type == event_pull_request_review)) [
    | inl r ↦ of_type c ev s _ r (review-IsCounted c ev s)
    | inr r ↦ elim (Bool-cases (ev.event_type == event_issue_comment)) [
      | inl k ↦ of_type c ev s _ k (comment-IsCounted c ev s)
      | inr k ↦ elim (Bool-cases (ev.event_type == event_issues)) [
        | inl i ↦ of_type c ev s _ i (issue-IsCounted c ev s)
        | inr i ↦ other-IsCounted c ev s p r k i
      ]
    ]
  ]
]
