-- ===== src/Github/SignalsLaws.antt =====
-- When fetchSignals returns an error, and what its counts are (pkg/github/fetch.go).
use devtrace.Base.{
  ap, ◌∙◌, ltb, ◌++◌, ◌+◌, if◌then◌else◌, ℕ, inr, inl, refl, Bool-cases, [], ◌∷◌, nat_eq, arith,
  none, ◌&&◌, true, String, some, not, false, ◌≡◌, Option, Bool, List,
}
use devtrace.Pool.Client.{Reply, ok, error, CallError, is_rate_limited}
use devtrace.Service.Flow.{ArchiveHints}
use devtrace.Score.Signals.{InputSignals}
use devtrace.Github.Signals.{
  has_slash, search_failures, repo_failures, Answers, Failure, Field, failures, failed, is_search,
  is_limited, is_trusted, fatal_err, extended, fetch_signals, is_any, with_answers, with_floor,
  counts_of, concluded,
}
use devtrace.Github.Account.{GhUser, is_some, profile_signals, map_user}
use devtrace.Base.Rows.{count-append, count}
use devtrace.Base.Time.{Time}

-- The failures arrive in some order, each as often as it occurs.
abbrev pub IsArrival : (List Failure → List Failure) → Type 0
IsArrival arrival = (p : Failure → Bool) (xs : List Failure) → count p (arrival xs) ≡ count p xs

abbrev pub is_error : {A : Type 0} → Reply A → Bool
is_error (ok a) = false
is_error (error e) = true

-- Every search was made and failed.
abbrev pub lost_searches : Option ArchiveHints → Answers → Bool
lost_searches hints a =
    not (is_trusted hints) && is_error a.merged && is_error a.closed && is_error a.recent

abbrev pub one_if : Bool → ℕ
one_if b = if b then 1 else 0

search_failed :
    {A : Type 0} (field : Field) (r : Reply A)
    → is_search (record { field = field; err = CallError.other }) ≡ true
    → count is_search (failed field r) ≡ one_if (is_error r)
unfolding count
search_failed field (ok a) h = refl
search_failed field (error e) h = rw h (omega arith)

other_failed :
    {A : Type 0} (field : Field) (r : Reply A)
    → is_search (record { field = field; err = CallError.other }) ≡ false
    → count is_search (failed field r) ≡ 0
unfolding count
other_failed field (ok a) h = refl
other_failed field (error e) h = rw h (omega arith)

repo_failed : (a : Answers) → count is_search (repo_failures a) ≡ 0
repo_failed a =
    let rest =
      failed Field.author_assoc a.association ++ failed Field.repo_commits_fallback a.stats in
    omega (
      arith,
      count-append is_search (failed Field.org_member a.member) rest,
      count-append is_search (failed Field.author_assoc a.association)
          (failed Field.repo_commits_fallback a.stats),
      other_failed Field.org_member a.member refl,
      other_failed Field.author_assoc a.association refl,
      other_failed Field.repo_commits_fallback a.stats refl,
    )

count_if :
    (b : Bool) (xs : List Failure)
    → count is_search xs ≡ 0
    → count is_search (if b then xs else []) ≡ 0
unfolding count
count_if true xs h = h
count_if false xs h = refl

all_three : (x y z : Bool) → nat_eq (one_if x + one_if y + one_if z + 0) 3 ≡ (x && y && z)
all_three x y z = ground arith

pub searches_failed :
    (a : Answers)
    → count is_search (search_failures a)
      ≡ one_if (is_error a.merged) + one_if (is_error a.closed) + one_if (is_error a.recent)
searches_failed a =
    let rest = failed Field.closed_prs a.closed ++ failed Field.recent_prs a.recent in
    omega (
      arith,
      count-append is_search (failed Field.merged_prs a.merged) rest,
      count-append is_search (failed Field.closed_prs a.closed) (failed Field.recent_prs a.recent),
      search_failed Field.merged_prs a.merged refl,
      search_failed Field.closed_prs a.closed refl,
      search_failed Field.recent_prs a.recent refl,
    )

pub rest_failed :
    (repo : String) (a : Answers)
    → count is_search
        (failed Field.forked_repos a.forks ++ (if has_slash repo then repo_failures a else []))
      ≡ 0
rest_failed repo a = omega (
  arith,
  count-append is_search (failed Field.forked_repos a.forks)
      (if has_slash repo then repo_failures a else []),
  other_failed Field.forked_repos a.forks refl,
  count_if (has_slash repo) (repo_failures a) (repo_failed a),
)

search_count :
    (hints : Option ArchiveHints) (repo : String) (a : Answers)
    → nat_eq (count is_search (failures hints repo a)) 3 ≡ lost_searches hints a
unfolding failures
search_count hints repo a =
    let rest =
      failed Field.forked_repos a.forks ++ (if has_slash repo then repo_failures a else []) in
    elim (Bool-cases (is_trusted hints)) [
      | inl trusted ↦ rw trusted (rw (rest_failed repo a) refl)
      | inr asked ↦ rw asked (
          rw (count-append is_search (search_failures a) rest) (
            rw (rest_failed repo a) (
              rw (searches_failed a)
                (all_three (is_error a.merged) (is_error a.closed) (is_error a.recent)))))
    ]

abbrev has_err : Option CallError → Bool
has_err none = false
has_err (some e) = true

has_fatal : (xs : List Failure) → has_err (fatal_err xs) ≡ ltb 0 (count is_limited xs)
unfolding count fatal_err
has_fatal [] = refl
has_fatal (x ∷ xs) = ground (arith, has_fatal xs)

fatal_limit : (xs : List Failure) (e : CallError) → fatal_err xs ≡ some e → is_rate_limited e ≡ true
unfolding fatal_err
fatal_limit [] e h = absurd (ground (arith, h))
fatal_limit (x ∷ xs) e h = elim (Bool-cases (is_limited x)) [
  | inl limited ↦ ground (arith, h, limited)
  | inr otherwise ↦ fatal_limit xs e (ground (arith, h, otherwise))
]

concluded_error :
    (b : Bool) (o : Option CallError) (s : InputSignals)
    → is_error (concluded b o s) ≡ (b && has_err o)
concluded_error b none s = ground arith
concluded_error b (some e) s = ground arith

concluded_is :
    (b : Bool) (o : Option CallError) (s : InputSignals) (e : CallError)
    → concluded b o s ≡ error e
    → o ≡ some e
concluded_is b none s e h = absurd (ground (arith, h))
concluded_is b (some d) s e h = ground (arith, h)

both_sides : (b c d e : Bool) → b ≡ c → d ≡ e → (b && d) ≡ (c && e)
both_sides b c d e p q = rw p (rw q refl)

extended_limited :
    (arrival : List Failure → List Failure) (hints : Option ArchiveHints) (repo : String)
    (a : Answers) (s : InputSignals)
    → IsArrival arrival
    → (is_error (extended arrival hints repo a s)
        ≡ (lost_searches hints a && ltb 0 (count is_limited (failures hints repo a))))
      × ((e : CallError) → extended arrival hints repo a s ≡ error e → is_rate_limited e ≡ true)
unfolding extended
extended_limited arrival hints repo a s fair =
    let arrived = arrival (failures hints repo a) in
    let any_failed = is_any arrived in
    let t =
      with_answers any_failed (has_slash repo) (with_floor any_failed hints (counts_of hints a)) a
        s in
    let b = nat_eq (count is_search arrived) 3 in
    let lost : b ≡ lost_searches hints a =
      rw (fair is_search (failures hints repo a)) (search_count hints repo a) in
    let limited : has_err (fatal_err arrived) ≡ ltb 0 (count is_limited (failures hints repo a)) =
      has_fatal arrived ∙ ap (ltb 0) (fair is_limited (failures hints repo a)) in
    (
      concluded_error b (fatal_err arrived) t
          ∙ both_sides b (lost_searches hints a) (has_err (fatal_err arrived)) _ lost limited,
      λ e h. fatal_limit arrived e (concluded_is b (fatal_err arrived) t e h),
    )

only_if :
    (b : Bool) (s : InputSignals) (r : Reply InputSignals)
    → is_error (if b then ok s else r) ≡ (not b && is_error r)
only_if true s r = refl
only_if false s r = refl

from_rest :
    (b : Bool) (s : InputSignals) (r : Reply InputSignals) (e : CallError)
    → (if b then ok s else r) ≡ error e
    → r ≡ error e
from_rest true s r e h = absurd (ground (arith, h))
from_rest false s r e h = h

-- For an account that GitHub returns, fetchSignals fails exactly if the account is not suspended, all
-- three searches were made and failed, and some call failed by a rate limit; and it fails with a rate
-- limit, which the pool answers by the next token. All of this in every order of arrival.
pub fetch_signals-limited :
    (arrival : List Failure → List Failure) (u : GhUser) (now : Time) (hints : Option ArchiveHints)
    (repo : String) (a : Answers)
    → IsArrival arrival
    → let r = fetch_signals arrival (ok u) now hints repo a in
      (is_error r ≡ (
        not (is_some u.suspended_at)
        && (lost_searches hints a && ltb 0 (count is_limited (failures hints repo a)))))
      × ((e : CallError) → r ≡ error e → is_rate_limited e ≡ true)
unfolding fetch_signals map_user
fetch_signals-limited arrival u now hints repo a fair =
    let s = profile_signals (map_user u) now in
    let r = extended arrival hints repo a s in
    let rest = extended_limited arrival hints repo a s fair in
    (
      only_if (is_some u.suspended_at) s r ∙ ap (λ c. not (is_some u.suspended_at) && c) rest.0,
      λ e h. rest.1 e (from_rest (is_some u.suspended_at) s r e h),
    )
