-- ===== src/Score/Parts.antt =====
-- No part of a score (pkg/score/score.go) is negative.
use devtrace.Score.CurveBounds.{
  log_curve-InUnit, exp_decay-InUnit, one-InUnit, clamped_ratio-InUnit, IsNonneg-if,
}
use devtrace.Score.Compute.{
  proportion_ceil, archive_part, behavioral_score, fork_part, burst_part, repo_count_part,
  follower_part, pr_accept_part, repo_engagement_score, recency_part, half_life_mult,
  proportion_part, provenance,
}
use devtrace.Score.Curves.{weight, one_w, zero_w, clamped_ratio}
use devtrace.Score.Float.{max_int, ◌⊗◌, ◌⊘◌, ◌⊕◌, of_nat, IsNonneg, InUnit, IsFloat, Float}
use devtrace.Score.Signals.{
  repo_diversity_weight, repo_diversity_ceil, min_confidence_commits, review_particip_weight,
  conf_commits_per_contrib, burst_ceil, review_count_ceil, pr_count_ceil,
  verification_maturity_ceil, fork_original_ceil, burst_weight, consistency_weight,
  follower_ratio_ceil, pr_accept_weight, provenance_weight, fork_only_weight, repo_count_ceil,
  follower_weight, base_half_life_days, proportion_weight, Behavior, repo_count_weight,
  recency_weight, InputSignals,
}
use Prim.Native.Nat.{max}
use devtrace.Base.Int.{sub_ℕ, pos}
use devtrace.Base.{
  ◌*◌, none, ◌&&◌, some, ◌+◌, ◌-◌, ltb, Option, ◌≡◌, inr, inl, Bool-cases, ◌<◌, arith, ℕ, ◌≤◌,
}

-- No more commits are unverified than there are, and the numbers that the code computes are ints.
pub record IsSane (s : InputSignals) : Type 0 where
  pub unverified_le : s.unverified_commits ≤ s.commits
  pub commits_fit : (s.commits ≤ max_int) × (s.total_commits ≤ max_int)
  pub contributors_fit : s.total_contributors * conf_commits_per_contrib ≤ max_int
  pub days_fit : (s.age_days ≤ max_int) × (s.last_commit_days ≤ max_int)
  pub prs_fit : s.prs_merged + s.prs_closed ≤ max_int
  pub followers_fit : (s.followers ≤ max_int) × (s.following ≤ max_int)
  pub repos_fit : s.recent_pr_repo_count ≤ max_int

-- The consistency that the archive reports is not negative.
abbrev pub IsConsistent : {W : Type 0} → ⦃f : Float W⦄ → Option (Behavior W) → Type 0
IsConsistent none = Unit {0}
IsConsistent (some beh) = IsNonneg beh.consistency_score

module _ {W : Type 0} ⦃f : Float W⦄ (laws : IsFloat W) where
  open laws use {
    refl_of_le, le-of_not_less, of_nat_mono, of_int_refl, ratio_bounds, sum_nonneg, scaled_nonneg,
    product_bounds, hundredfold, complement, quotient_counts, quotient_counts_le, quotient_month,
    max_nonneg, min_one, log_reciprocal, product_comm,
  }

  pub count-IsNonneg : (n : ℕ) → IsNonneg {W = W} (of_nat n)
  count-IsNonneg n = of_nat_mono 0 n (omega arith)

  pub weighted : (x : W) (w : ℕ) → 0 < w → w ≤ 100 → IsNonneg x → IsNonneg (x ⊗ weight w)
  weighted x w above small nonneg =
      scaled_nonneg x w 100 above (omega arith) small (omega arith) nonneg

  weight-IsNonneg : (w : ℕ) → w ≤ 100 → IsNonneg {W = W} (weight w)
  weight-IsNonneg w le = (ratio_bounds w 100 (omega arith) le).0

  pub zero-IsNonneg : IsNonneg {W = W} zero_w
  zero-IsNonneg = count-IsNonneg 0

  pub provenance-IsNonneg : (s : InputSignals) → IsSane s → IsNonneg {W = W} (provenance s)
  provenance-IsNonneg s v = elim (Bool-cases (ltb 0 s.commits)) [
    | inr none_yet ↦ rw none_yet zero-IsNonneg
    | inl some_yet ↦ rw some_yet (
        IsNonneg-if laws (ltb 0 s.total_commits) _ _
          (weighted _ provenance_weight (omega arith) (omega arith)
            (product_bounds _ _ (verified s v (ground arith)) (
              log_curve-InUnit laws (of_nat s.age_days) verification_maturity_ceil (omega arith)
                (omega arith) (count-IsNonneg _))).0)
          zero-IsNonneg)
  ]
    where
      verified :
          (s : InputSignals)
          → IsSane s
          → 0 < s.commits
          → InUnit {W = W} (f.of_int (sub_ℕ s.commits s.unverified_commits) ⊘ of_nat s.commits)
      verified s v some_yet =
          let e : sub_ℕ s.commits s.unverified_commits ≡ pos (s.commits - s.unverified_commits) =
            ground (arith, v) in
          rw e (
            quotient_counts_le (s.commits - s.unverified_commits) s.commits (omega arith) some_yet
              (v.commits_fit.0))

  proportion-IsNonneg : (s : InputSignals) → IsSane s → IsNonneg {W = W} (proportion_part s)
  proportion-IsNonneg s v = elim (Bool-cases (ltb 0 s.commits)) [
    | inr none_yet ↦ rw none_yet zero-IsNonneg
    | inl some_yet ↦ rw some_yet (elim (Bool-cases (ltb 0 s.total_commits)) [
      | inr empty ↦ rw empty zero-IsNonneg
      | inl total ↦ rw total (
          weighted _ proportion_weight (omega arith) (omega arith)
            (product_bounds _ _
              (clamped_ratio-InUnit laws _ (proportion_ceil s)
                (refl_of_le zero_w _ (
                  quotient_counts s.commits s.total_commits (ground arith) v.commits_fit.0
                    v.commits_fit.1)).1
                (max_nonneg _ _
                  (quotient_counts 1 (max s.total_contributors 1) (omega arith) (omega arith)
                    (omega (arith, v)))
                  (ratio_bounds 5 100 (omega arith) (omega arith)).0))
              (min_one _ (
                quotient_counts s.total_commits
                  (max (s.total_contributors * conf_commits_per_contrib) min_confidence_commits)
                  (omega arith) v.commits_fit.1 (omega (arith, v))))).0)
    ])
  ]

  half_life_mult-InUnit : (s : InputSignals) → IsSane s → InUnit {W = W} (half_life_mult s)
  half_life_mult-InUnit s v =
      let mult =
        f.max_of (one_w ⊘ f.log (one_w ⊕ of_nat (max s.total_contributors 1))) (f.ratio 25 100) in
      let nonneg : IsNonneg mult =
        max_nonneg _ _
          (log_reciprocal (max s.total_contributors 1) (omega arith) (omega (arith, v)))
          (ratio_bounds 25 100 (omega arith) (omega arith)).0 in
      elim (Bool-cases (f.less one_w mult)) [
        | inl over ↦ rw over (one-InUnit laws)
        | inr within ↦ rw within (
          nonneg,
          le-of_not_less mult one_w (refl_of_le zero_w mult nonneg).1 (of_int_refl (pos 1)) within,
        )
      ]

  recency-IsNonneg : (s : InputSignals) → IsSane s → IsNonneg {W = W} (recency_part s)
  recency-IsNonneg s v =
      weighted _ recency_weight (omega arith) (omega arith)
        (exp_decay-InUnit laws s.last_commit_days _ v.days_fit.1 (
          rw
            (product_comm (of_nat base_half_life_days) (half_life_mult s) (count-IsNonneg _)
              (half_life_mult-InUnit s v).0)
            (hundredfold (half_life_mult s) base_half_life_days (omega arith)
              (half_life_mult-InUnit s v)).0)).0

  pub repo_engagement-IsNonneg :
      (s : InputSignals) → IsSane s → IsNonneg {W = W} (repo_engagement_score s)
  unfolding repo_engagement_score
  repo_engagement-IsNonneg s v = sum_nonneg _ _ (proportion-IsNonneg s v) (recency-IsNonneg s v)

  pub pr_accept-IsNonneg : (s : InputSignals) → IsSane s → IsNonneg {W = W} (pr_accept_part s)
  pr_accept-IsNonneg s v = elim (Bool-cases (ltb 0 (s.prs_merged + s.prs_closed))) [
    | inr none_yet ↦ rw none_yet zero-IsNonneg
    | inl some_yet ↦ rw some_yet (
        weighted _ pr_accept_weight (omega arith) (omega arith)
          (product_bounds _ _
            (quotient_counts_le s.prs_merged (s.prs_merged + s.prs_closed) (omega arith)
              (ground arith) v.prs_fit)
            (log_curve-InUnit laws (of_nat (s.prs_merged + s.prs_closed)) pr_count_ceil
              (omega arith) (omega arith) (count-IsNonneg _))).0)
  ]

  pub follower-IsNonneg : (s : InputSignals) → IsSane s → IsNonneg {W = W} (follower_part s)
  follower-IsNonneg s v = elim (Bool-cases (ltb 0 s.following)) [
    | inr nobody ↦ rw nobody (
        IsNonneg-if laws (ltb 0 s.followers) _ _ (weight-IsNonneg follower_weight (omega arith))
          zero-IsNonneg)
    | inl follows ↦ rw follows (
        weighted _ follower_weight (omega arith) (omega arith)
          (log_curve-InUnit laws _ follower_ratio_ceil (omega arith) (omega arith) (
            quotient_counts s.followers s.following (ground arith) v.followers_fit.0
              v.followers_fit.1)).0)
  ]

  pub repo_count-IsNonneg : (s : InputSignals) → IsNonneg {W = W} (repo_count_part s)
  repo_count-IsNonneg s =
      weighted _ repo_count_weight (omega arith) (omega arith)
        (log_curve-InUnit laws (of_nat s.public_repos) repo_count_ceil (omega arith) (omega arith)
          (count-IsNonneg _)).0

  counted-IsNonneg :
      (n ceil w : ℕ)
      → 0 < w
      → w ≤ 100
      → IsNonneg {W = W} (clamped_ratio (of_nat n) (of_nat ceil) ⊗ weight w)
  counted-IsNonneg n ceil w above small =
      weighted _ w above small
        (clamped_ratio-InUnit laws _ _ (of_int_refl (pos n)) (count-IsNonneg ceil)).0

  archive-IsNonneg : (beh : Option (Behavior W)) → IsConsistent beh → IsNonneg (archive_part beh)
  archive-IsNonneg none c = zero-IsNonneg
  archive-IsNonneg (some beh) c =
      sum_nonneg _ _
        (sum_nonneg _ _ (weighted _ consistency_weight (omega arith) (omega arith) c) (
          counted-IsNonneg beh.reviews_given_30d review_count_ceil review_particip_weight
            (omega arith) (omega arith)))
        (counted-IsNonneg beh.distinct_repos_90d repo_diversity_ceil repo_diversity_weight
          (omega arith) (omega arith))

  burst-IsNonneg : (s : InputSignals) → IsSane s → IsNonneg {W = W} (burst_part s)
  burst-IsNonneg s v = elim (Bool-cases (ltb 0 s.recent_pr_repo_count && ltb 0 s.age_days)) [
    | inr quiet ↦ rw quiet (weight-IsNonneg burst_weight (omega arith))
    | inl busy ↦ rw busy (
        weighted _ burst_weight (omega arith) (omega arith)
          (complement _ (
            clamped_ratio-InUnit laws _ _
              (refl_of_le zero_w _ (
                quotient_month s.recent_pr_repo_count s.age_days (ground arith) v.repos_fit
                  v.days_fit.0)).1
              (count-IsNonneg burst_ceil))).0)
  ]

  fork-IsNonneg : (s : InputSignals) → IsNonneg {W = W} (fork_part s)
  fork-IsNonneg s =
      IsNonneg-if laws (ltb 0 s.public_repos) _ _
        (weighted _ fork_only_weight (omega arith) (omega arith)
          (clamped_ratio-InUnit laws _ _ (of_int_refl _) (count-IsNonneg fork_original_ceil)).0)
        zero-IsNonneg

  pub behavioral-IsNonneg :
      (s : InputSignals) (beh : Option (Behavior W))
      → IsSane s
      → IsConsistent beh
      → IsNonneg (behavioral_score s beh)
  unfolding behavioral_score
  behavioral-IsNonneg s beh v c =
      sum_nonneg _ _ (sum_nonneg _ _ (archive-IsNonneg beh c) (burst-IsNonneg s v))
        (fork-IsNonneg s)
