-- ===== src/Score/Bounds.antt =====
-- The score (pkg/score/score.go) is from 0 to 1.
use devtrace.Score.Parts.{
  IsSane, IsConsistent, count-IsNonneg, weighted, zero-IsNonneg, provenance-IsNonneg,
  repo_engagement-IsNonneg, pr_accept-IsNonneg, follower-IsNonneg, repo_count-IsNonneg,
  behavioral-IsNonneg,
}
use devtrace.Score.CurveBounds.{
  profile_score-InUnit, association_score-InUnit, to_fixed_lem, log_curve-InUnit, one-InUnit,
  IsNonneg-if,
}
use devtrace.Score.Compute.{compute, scale_of, raw_score, when}
use devtrace.Score.Curves.{one_w, zero_w}
use devtrace.Score.Float.{◌⊗◌, ◌⊘◌, of_nat, IsNonneg, InUnit, IsFloat, Float}
use devtrace.Score.Signals.{
  profile_weight, association_weight, age_ceil_days, age_weight, Behavior, InputSignals,
}
use devtrace.Base.Int.{pos}
use devtrace.Base.{
  ◌⊎◌, true, false, true, refl, Option, if◌then◌else◌, ◌≡◌, inr, inl, Bool-cases, Bool, arith, ℕ,
  ◌≤◌,
}

module _ {W : Type 0} ⦃f : Float W⦄ (laws : IsFloat W) where
  open laws use {refl_of_le, le-of_not_less, of_int_refl, sum_nonneg, scaled_nonneg}

  when-IsNonneg : (b : Bool) (x : W) → IsNonneg x → IsNonneg (when b x)
  when-IsNonneg b x h = IsNonneg-if laws b x zero_w h (zero-IsNonneg laws)

  raw-IsNonneg :
      (s : InputSignals) (b : Bool) (beh : Option (Behavior W))
      → IsSane s
      → IsConsistent beh
      → IsNonneg (raw_score s b beh)
  unfolding raw_score
  raw-IsNonneg s b beh v c =
      sum_nonneg _ _
        (sum_nonneg _ _
          (sum_nonneg _ _
            (sum_nonneg _ _
              (sum_nonneg _ _
                (sum_nonneg _ _
                  (sum_nonneg _ _
                    (sum_nonneg _ _ (when-IsNonneg b _ (provenance-IsNonneg laws s v)) (
                      weighted laws _ age_weight (omega arith) (omega arith)
                        (log_curve-InUnit laws (of_nat s.age_days) age_ceil_days (omega arith)
                          (omega arith) (count-IsNonneg laws _)).0))
                    (when-IsNonneg b _ (
                      weighted laws _ association_weight (omega arith) (omega arith)
                        (association_score-InUnit laws s.author_association s.org_member
                          s.trusted_org_member).0)))
                  (weighted laws _ profile_weight (omega arith) (omega arith)
                    (profile_score-InUnit laws s).0))
                (when-IsNonneg b _ (repo_engagement-IsNonneg laws s v)))
              (pr_accept-IsNonneg laws s v))
            (follower-IsNonneg laws s v))
          (repo_count-IsNonneg laws s))
        (behavioral-IsNonneg laws s beh v c)

  scaled :
      (s : InputSignals) (b : Bool) (beh : Option (Behavior W))
      → IsSane s
      → IsConsistent beh
      → IsNonneg (raw_score s b beh ⊗ scale_of b)
  scaled s true beh v c =
      scaled_nonneg _ 1 1 (omega arith) (omega arith) (omega arith) (omega arith)
        (raw-IsNonneg s true beh v c)
  scaled s false beh v c =
      scaled_nonneg _ 100 60 (omega arith) (omega arith) (omega arith) (omega arith)
        (raw-IsNonneg s false beh v c)

  capped : (x : W) → IsNonneg x → InUnit (if f.less one_w x then one_w else x)
  capped x h = elim (Bool-cases (f.less one_w x)) [
    | inl over ↦ rw over (one-InUnit laws)
    | inr within ↦
        rw within (h, le-of_not_less x one_w (refl_of_le zero_w x h).1 (of_int_refl (pos 1)) within)
  ]

  abbrev pub IsHundredths : W → Type 0
  IsHundredths x = (k : ℕ) × (k ≤ 100) × (x ≡ of_nat k ⊘ of_nat 100)

  unless_out :
      (out : Bool) (x : W)
      → IsHundredths x
      → ((out ≡ true) × ((if out then zero_w else x) ≡ zero_w))
        ⊎ IsHundredths (if out then zero_w else x)
  unless_out true x h = inl (refl, refl)
  unless_out false x h = inr h

  -- The score of a contributor is a whole number of hundredths, from 0 to 1, with a repo and
  -- without, whatever is known of the behavior, or 0 for a suspended account, if no more commits
  -- are unverified than there are, the numbers that it is computed from fit into an int, and the
  -- archive's consistency is not negative.
  pub compute_bounds :
      (s : InputSignals) (has_repo : Bool) (beh : Option (Behavior W))
      → IsSane s
      → IsConsistent beh
      → ((s.suspended ≡ true) × (compute s has_repo beh ≡ zero_w))
        ⊎ IsHundredths (compute s has_repo beh)
  unfolding compute
  compute_bounds s has_repo beh v c =
      unless_out s.suspended _
        (to_fixed_lem laws _ 2 (omega arith) (capped _ (scaled s has_repo beh v c)))
