-- ===== src/Score/Heuristics.antt =====
-- ComputeTier2Heuristics and syntheticRiskFlags (pkg/score/heuristics.go).
use devtrace.Score.Curves.{to_fixed, zero_w}
use devtrace.Score.Signals.{Behavior, InputSignals}
use devtrace.Score.Float.{◌⊗◌, ◌⊘◌, of_nat, Float}
use devtrace.Base.{
  refl, length-append, arith, ◌≤◌, length, not, ◌≡◌, none, [], ◌++◌, ◌&&◌, nat_eq, ◌∷◌, some, ltb,
  true, if◌then◌else◌, Option, String, Bool, ℕ, List,
}

pub record BehavioralHeuristics (W : Type 0) : Type 0 where
  pub velocity_anomaly_ratio : W
  pub active_hour_spread : ℕ
  pub burst_vanish_score : W
  pub synthetic_risk_flags : ℕ
  pub synthetic_risk_details : List String

abbrev pub flag : Bool → String → List String
flag b name = if b then name ∷ [] else []

length-flag : (b : Bool) (name : String) → length (flag b name) ≤ 1
length-flag b name = ground arith

module _ {W : Type 0} ⦃f : Float W⦄ where
  abbrev pub has_no_reviews : Option (Behavior W) → Bool
  has_no_reviews none = true
  has_no_reviews (some beh) = nat_eq beh.reviews_given_30d 0

  -- `beh.ConsistencyScore == 0`
  abbrev pub has_no_consistency : Option (Behavior W) → Bool
  has_no_consistency none = true
  has_no_consistency (some beh) =
      f.at_most beh.consistency_score zero_w && f.at_most zero_w beh.consistency_score

  unfoldable pub synthetic_risk_flags : Option (Behavior W) → InputSignals → ℕ × List String
  synthetic_risk_flags beh s =
      let fork_ratio = of_nat s.forked_repos ⊘ of_nat s.public_repos in
      -- No repos at all count as forks.
      let is_fork_heavy = if ltb 0 s.public_repos then f.less (f.ratio 8 10) fork_ratio else true in
      let flags =
        flag (ltb s.age_days 30) "young_account"
        ++ (flag is_fork_heavy "high_fork_ratio"
            ++ (flag (not s.has_bio && not s.has_company && not s.has_location && not s.has_website)
                  "empty_profile"
                ++ (flag (has_no_reviews beh) "no_reviews"
                    ++ (flag (has_no_consistency beh) "no_consistency"
                        ++ flag (ltb 0 s.commits && nat_eq s.unverified_commits s.commits)
                            "no_verified_commits")))) in
      (length flags, flags)

  abbrev pub no_heuristics : BehavioralHeuristics W
  no_heuristics = record {
    velocity_anomaly_ratio = zero_w;
    active_hour_spread = 0;
    burst_vanish_score = zero_w;
    synthetic_risk_flags = 0;
    synthetic_risk_details = [];
  }

  abbrev pub with_flags :
      Option (Behavior W) → Option InputSignals → BehavioralHeuristics W → BehavioralHeuristics W
  with_flags beh none h = h
  with_flags beh (some s) h = record h {
    synthetic_risk_flags = (synthetic_risk_flags beh s).0;
    synthetic_risk_details = (synthetic_risk_flags beh s).1;
  }

  abbrev pub velocity_anomaly : Behavior W → W
  velocity_anomaly beh =
      if f.less zero_w beh.pr_velocity_baseline
      then to_fixed (of_nat beh.pr_velocity_30d ⊘ beh.pr_velocity_baseline) 2
      else zero_w

  abbrev pub burst_vanish : Behavior W → W
  burst_vanish beh =
      let multiplier = if ltb 30 beh.burst_vanish_days_since then f.ratio 15 10 else f.ratio 1 1 in
      if beh.burst_vanish_data_sufficient
      then to_fixed (beh.burst_vanish_peak_ratio ⊗ multiplier) 2
      else zero_w

  abbrev pub measured : Option (Behavior W) → BehavioralHeuristics W
  measured none = no_heuristics
  measured (some beh) = record no_heuristics {
    velocity_anomaly_ratio = velocity_anomaly beh;
    active_hour_spread = beh.active_hour_spread;
    burst_vanish_score = burst_vanish beh;
  }

  unfoldable pub compute_tier2_heuristics :
      Option (Behavior W) → Option InputSignals → BehavioralHeuristics W
  compute_tier2_heuristics beh s = with_flags beh s (measured beh)

  -- The number of risk flags is that of the names, at most six, and no account without a known
  -- behavior has fewer than two.
  pub synthetic_risk_flags_lem :
      (beh : Option (Behavior W)) (s : InputSignals)
      → let h = compute_tier2_heuristics beh (some s) in
        (h.synthetic_risk_flags ≡ length h.synthetic_risk_details)
        × (h.synthetic_risk_flags ≤ 6)
        × (2 ≤ (compute_tier2_heuristics none (some s)).synthetic_risk_flags)
  unfolding compute_tier2_heuristics synthetic_risk_flags
  synthetic_risk_flags_lem beh s = (
    refl,
    omega (arith, length-append {0}, length-flag),
    omega (arith, length-append {0}, length-flag),
  )
