-- ===== src/Github/CountsLaws.antt =====
-- The counts that fetchSignals takes from searches and from the archive (pkg/github/fetch.go).
use devtrace.Base.{
  [], nat_eq, ◌||◌, ◌++◌, ◌∷◌, inr, not, ◌∙◌, inl, refl, ltb, none, ◌+◌, arith, ◌&&◌, false, some,
  Bool-cases, Option, true, if◌then◌else◌, String, ◌<◌, ◌≡◌, Bool, List, ℕ,
}
use devtrace.Pool.Client.{Reply, ok, error, CallError}
use devtrace.Service.Flow.{ArchiveHints}
use devtrace.Score.Signals.{InputSignals}
use devtrace.Github.Stats.{RepoStats}
use devtrace.Github.Signals.{
  search_failures, fatal_err, repo_failures, has_slash, Answers, Failure, Field, failures, failed,
  is_search, extended, fetch_signals, count_distinct, is_any, value_or, with_answers, with_floor,
  counts_of, concluded, with_stats, no_stats, floor_at,
}
use devtrace.Github.Account.{GhUser, is_some, profile_signals, map_user}
use devtrace.Github.SignalsLaws.{IsArrival, is_error, one_if, rest_failed, searches_failed}
use devtrace.Base.Rows.{count-append, count}
use devtrace.Base.Time.{Time}

-- What fetchSignals takes for a search: the archive's count where the search failed or was not made,
-- and GitHub's count, if it is not 0, where it did not fail.
abbrev pub IsCount : ArchiveHints → Reply ℕ → ℕ → ℕ → Type 0
IsCount h (error e) hint n = n ≡ hint
IsCount h (ok total) hint n = 0 < total → n ≡ (if h.trusted then hint else total)

abbrev pub total_of : Reply (List String) → Reply ℕ
total_of (error e) = error e
total_of (ok urls) = ok (count_distinct urls)

abbrev counted : Bool → ArchiveHints → Reply ℕ → ℕ → ℕ
counted any_failed h r hint =
    let n = if h.trusted then hint else value_or 0 r in
    if any_failed && not h.trusted then floor_at n hint else n

counted-IsCount :
    (any_failed : Bool) (h : ArchiveHints) (r : Reply ℕ) (hint : ℕ)
    → (is_error r ≡ true → h.trusted ≡ false → any_failed ≡ true)
    → IsCount h r hint (counted any_failed h r hint)
counted-IsCount any_failed h (ok total) hint k = ground arith
counted-IsCount any_failed h (error e) hint k = elim (Bool-cases h.trusted) [
  | inl trusted ↦ rw trusted (ground arith)
  | inr asked ↦ let some_failed = k refl asked in rw asked (rw some_failed (ground arith))
]

any_of_count : (p : Failure → Bool) (xs : List Failure) → 0 < count p xs → is_any xs ≡ true
unfolding count
any_of_count p [] h = absurd (omega arith)
any_of_count p (x ∷ xs) h = refl

a_search_failed :
    (arrival : List Failure → List Failure) (h : ArchiveHints) (repo : String) (a : Answers)
    → IsArrival arrival
    → h.trusted ≡ false
    → 0 < one_if (is_error a.merged) + one_if (is_error a.closed) + one_if (is_error a.recent)
    → is_any (arrival (failures (some h) repo a)) ≡ true
unfolding failures
a_search_failed arrival h repo a fair asked some_error =
    let fs = failures (some h) repo a in
    let rest =
      failed Field.forked_repos a.forks ++ (if has_slash repo then repo_failures a else []) in
    let total : count is_search fs ≡ count is_search (search_failures a) + count is_search rest =
      rw asked (count-append is_search (search_failures a) rest) in
    any_of_count is_search (arrival fs)
      (omega (arith, fair is_search fs, total, rest_failed repo a, searches_failed a, some_error))

concluded_ok :
    (b : Bool) (o : Option CallError) (s t : InputSignals) → concluded b o s ≡ ok t → s ≡ t
concluded_ok b none s t h = cc
concluded_ok true (some e) s t h = cc
concluded_ok false (some e) s t h = cc

with_stats_counts :
    (r : RepoStats) (s : InputSignals)
    → ((with_stats r s).prs_merged ≡ s.prs_merged)
      × ((with_stats r s).prs_closed ≡ s.prs_closed)
      × ((with_stats r s).recent_pr_repo_count ≡ s.recent_pr_repo_count)
      × ((with_stats r s).partial ≡ s.partial)
with_stats_counts r s = elim (Bool-cases (ltb 0 r.commits || ltb 0 r.total)) [
  | inl e ↦ rw e (refl, refl, refl, refl)
  | inr e ↦ rw e (refl, refl, refl, refl)
]

recent_value :
    (r : Reply (List String))
    → (elim r [ ok urls ↦ count_distinct urls | error e ↦ 0 ]) ≡ value_or 0 (total_of r)
recent_value (ok urls) = refl
recent_value (error e) = refl

floored_counts :
    (any_failed : Bool) (h : ArchiveHints) (a : Answers)
    → let c = with_floor any_failed (some h) (counts_of (some h) a) in
      (c.merged ≡ counted any_failed h a.merged h.prs_merged)
      × (c.closed ≡ counted any_failed h a.closed h.prs_closed)
      × (c.recent ≡ counted any_failed h (total_of a.recent) h.recent_pr_repo_count)
floored_counts any_failed h a = elim (Bool-cases h.trusted) [
  | inl trusted ↦ rw trusted (ground arith)
  | inr asked ↦ rw asked (rw (recent_value a.recent) (ground arith))
]

module _ (any_failed has_repo : Bool) (h : ArchiveHints) (a : Answers) (s : InputSignals) where
  taken_counts :
      let t =
        with_answers any_failed has_repo
          (with_floor any_failed (some h) (counts_of (some h) a))
          a
          s in
      (t.prs_merged ≡ counted any_failed h a.merged h.prs_merged)
      × (t.prs_closed ≡ counted any_failed h a.closed h.prs_closed)
      × (t.recent_pr_repo_count ≡ counted any_failed h (total_of a.recent) h.recent_pr_repo_count)
      × (t.partial ≡ any_failed)
  taken_counts =
      let kept = with_stats_counts (if has_repo then value_or no_stats a.stats else no_stats) _ in
      let c = floored_counts any_failed h a in (kept.0 ∙ c.0, kept.1 ∙ c.1, kept.2 ∙ c.2, kept.3)

total_error : (r : Reply (List String)) → is_error (total_of r) ≡ true → is_error r ≡ true
total_error (ok urls) h = h
total_error (error e) h = refl

ok_gate :
    (b : Bool) (s t : InputSignals) (r : Reply InputSignals)
    → b ≡ false
    → (if b then ok s else r) ≡ ok t
    → r ≡ ok t
ok_gate true s t r off h = absurd (ground (arith, off))
ok_gate false s t r off h = h

-- For an account that is not suspended and with counts of the archive, each count of the signals
-- is the archive's where its search failed or the archive is trusted, and GitHub's where the search
-- returned more than 0; in every order in which the failures arrive.
pub fetch_signals-counts :
    (arrival : List Failure → List Failure) (u : GhUser) (now : Time) (h : ArchiveHints)
    (repo : String) (a : Answers) (s : InputSignals)
    → IsArrival arrival
    → is_some u.suspended_at ≡ false
    → fetch_signals arrival (ok u) now (some h) repo a ≡ ok s
    → IsCount h a.merged h.prs_merged s.prs_merged
      × IsCount h a.closed h.prs_closed s.prs_closed
      × IsCount h (total_of a.recent) h.recent_pr_repo_count s.recent_pr_repo_count
unfolding fetch_signals extended map_user
fetch_signals-counts arrival u now h repo a s fair active returned =
    let profile = profile_signals (map_user u) now in
    let arrived = arrival (failures (some h) repo a) in
    let b = is_any arrived in
    let t =
      with_answers b (has_slash repo) (with_floor b (some h) (counts_of (some h) a)) a profile in
    let gate =
      ok_gate (is_some u.suspended_at) profile s (extended arrival (some h) repo a profile) active
        returned in
    let same : t ≡ s =
      concluded_ok (nat_eq (count is_search arrived) 3) (fatal_err arrived) t s gate in
    let c = taken_counts b (has_slash repo) h a profile in
    let lost : h.trusted ≡ false
        → 0 < one_if (is_error a.merged) + one_if (is_error a.closed) + one_if (is_error a.recent)
        → b ≡ true =
      λ asked. a_search_failed arrival h repo a fair asked in
    rw (← same) (
      rw c.0
          (counted-IsCount b h a.merged h.prs_merged (λ e asked. lost asked (ground (arith, e)))),
      rw c.1
          (counted-IsCount b h a.closed h.prs_closed (λ e asked. lost asked (ground (arith, e)))),
      rw c.2 (
          counted-IsCount b h (total_of a.recent) h.recent_pr_repo_count (λ e asked.
            lost asked
              (let e' : is_error a.recent ≡ true = total_error a.recent e in ground (arith, e')))),
    )
