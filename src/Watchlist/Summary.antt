-- ===== src/Watchlist/Summary.antt =====
-- What the dashboard shows of an event (pkg/data/postgres/watchlist.go). `decimal` is the `%d` of a number.
use Prim.Native.Char.{code}
use Prim.Native.String.{String, ◌++◌}
use mathlib.Core.List.{◌++◌ as append}
use devtrace.Base.{
  ◌∷◌, [], List, ℕ, Option, none, some, if◌then◌else◌, nat_eq, ◌==◌, String_eq, ltb, not, ◌&&◌,
  take, length, ◌-◌,
}
use devtrace.Ingest.Notify.{before_slash}
use devtrace.Watchlist.Defs.{Detail, Details}
use devtrace.Watchlist.Events.{NotificationEvent, items_of}
use devtrace.Base.Maps.{get}

abbrev pub event_type_score_change : String
event_type_score_change = "score_change"

abbrev pub event_type_new_contributor : String
event_type_new_contributor = "new_contributor"

abbrev pub int_of : Option Detail → ℕ
int_of none = 0
int_of (some (Detail.number n)) = n
int_of (some (Detail.text s)) = 0
int_of (some (Detail.texts items)) = 0
int_of (some Detail.another) = 0

abbrev pub int_detail : Details → String → ℕ
int_detail d key = int_of (get d key)

abbrev pub text_of : Option Detail → String
text_of none = ""
text_of (some (Detail.number n)) = ""
text_of (some (Detail.text s)) = s
text_of (some (Detail.texts items)) = ""
text_of (some Detail.another) = ""

abbrev pub plural : ℕ → String → String → String
plural n singular plur = if nat_eq n 1 then singular else plur

abbrev pub detail_first_activity : String
detail_first_activity = "first activity"

abbrev pub phrase : ℕ → String → List String
phrase n s = if ltb 0 n then s ∷ [] else []

abbrev pub grade_change : String → String → String
grade_change old new =
    if not (old == "") && not (new == "") then "grade " ++ old ++ " → " ++ new else "grade changed"

-- The phrases of the counts, before the cap of two.
unfoldable pub phrases : (ℕ → String) → Details → List String
phrases decimal d =
    let opened = int_detail d "prs_opened" in
    let merged = int_detail d "prs_merged" in
    let reviews = int_detail d "reviews_given" in
    let issues = int_detail d "issues_opened" in
    let comments = int_detail d "issue_comments" in
    append (phrase opened ("opened " ++ decimal opened ++ " " ++ plural opened "PR" "PRs")) (
      append (phrase merged ("merged " ++ decimal merged ++ " " ++ plural merged "PR" "PRs")) (
        append (phrase reviews (decimal reviews ++ " " ++ plural reviews "review" "reviews")) (
          append
            (phrase issues ("opened " ++ decimal issues ++ " " ++ plural issues "issue" "issues"))
            (phrase comments (decimal comments ++ " " ++ plural comments "comment" "comments")))))

-- strings.Join(parts, ", ")
abbrev pub comma_joined : List String → String
comma_joined [] = ""
comma_joined (p ∷ []) = p
comma_joined (p ∷ q ∷ parts) = p ++ ", " ++ comma_joined (q ∷ parts)

abbrev pub or_first_activity : List String → String
or_first_activity [] = detail_first_activity
or_first_activity (p ∷ parts) = comma_joined (take 2 (p ∷ parts))

unfoldable pub detail_summary : (ℕ → String) → NotificationEvent → String
unfolding phrases
detail_summary decimal e =
    if e.event_type == event_type_score_change
    then grade_change (text_of (get e.details "old_grade")) (text_of (get e.details "new_grade"))
    else (if e.event_type == event_type_new_contributor
        then or_first_activity (phrases decimal e.details)
        else e.event_type)

-- The items of `repos` that are texts and not empty.
abbrev pub not_empty : List String → List String
not_empty [] = []
not_empty (r ∷ repos) = if r == "" then not_empty repos else r ∷ not_empty repos

abbrev pub repo_strings : Details → List String
repo_strings d = not_empty (items_of (get d "repos"))

-- The part of a text after its first slash.
abbrev pub after_slash : String → Option String
after_slash String.[] = none
after_slash (String.◌∷◌ c s) = if nat_eq (code c) 47 then some s else after_slash s

-- `idx > 0`: a slash that stands first does not count.
abbrev pub strip_org_prefix : String → String
strip_org_prefix repo = elim (before_slash repo) [
  | none ↦ repo
  | some o ↦ if o == "" then repo else elim (after_slash repo) [ none ↦ repo | some s ↦ s ]
]

abbrev pub summary_of : (ℕ → String) → List String → String
summary_of decimal [] = ""
summary_of decimal (r ∷ []) = strip_org_prefix r
summary_of decimal (r ∷ s ∷ repos) =
    strip_org_prefix r ++ " +" ++ decimal (length (r ∷ s ∷ repos) - 1)

unfoldable pub repo_summary : (ℕ → String) → NotificationEvent → String
repo_summary decimal e = summary_of decimal (repo_strings e.details)

unfoldable pub repo_tooltip : NotificationEvent → String
repo_tooltip e = comma_joined (repo_strings e.details)
