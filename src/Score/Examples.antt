-- ===== src/Score/Examples.antt =====
-- Tests of the score engine on numbers in hundredths, and the theorems at concrete inputs.
use devtrace.Score.Fixed.{ℕ_float}
use devtrace.Score.Fixed.{ℕ-IsFloat}
use devtrace.Score.Float.{◌⊘◌, of_nat}
use devtrace.Score.Heuristics.{compute_tier2_heuristics}
use devtrace.Score.Compute.{compute}
use devtrace.Score.Grade.{grade}
use devtrace.Score.Curves.{to_fixed, clamped_ratio}
use devtrace.Score.Bounds.{compute_bounds}
use devtrace.Score.Parts.{IsSane}
use devtrace.Score.Signals.{Behavior, InputSignals}
use devtrace.Base.{refl, ◌⊎◌, none, false, some, ◌≤◌, arith, ℕ, true, ◌≡◌}

abbrev ada : InputSignals
ada = record {
  age_days = 800;
  author_association = "CONTRIBUTOR";
  has_bio = true;
  has_company = true;
  has_location = false;
  has_website = false;
  has_public_email = false;
  commits = 12;
  total_commits = 100;
  total_contributors = 4;
  last_commit_days = 3;
  prs_merged = 3;
  prs_closed = 1;
  followers = 8;
  following = 4;
  public_repos = 10;
  recent_pr_repo_count = 2;
  forked_repos = 9;
  unverified_commits = 6;
  suspended = false;
  org_member = false;
  trusted_org_member = false;
  partial = false;
}

abbrev archived : Behavior ℕ
archived = record {
  pr_velocity_30d = 3;
  pr_velocity_baseline = 200;
  reviews_given_30d = 5;
  issue_comments_30d = 2;
  distinct_repos_90d = 4;
  consistency_score = 50;
  active_since = 7;
  total_prs_merged = 3;
  total_prs_closed = 1;
  active_days = 9;
  active_hour_spread = 6;
  burst_vanish_peak_ratio = 120;
  burst_vanish_days_since = 40;
  burst_vanish_data_sufficient = true;
}

ada-IsSane : IsSane ada
ada-IsSane = record {
  unverified_le = omega arith;
  commits_fit = (omega arith, omega arith);
  contributors_fit = omega arith;
  days_fit = (omega arith, omega arith);
  prs_fit = omega arith;
  followers_fit = (omega arith, omega arith);
  repos_fit = omega arith;
}

clamped_half : clamped_ratio {W = ℕ} 200 400 ≡ 50
unfolding clamped_ratio
clamped_half = refl

grade_of_85 : grade {W = ℕ} 85 ≡ "A-"
unfolding grade
grade_of_85 = refl

suspended_scores_zero : compute {W = ℕ} (record ada { suspended = true }) true none ≡ 0
unfolding compute
suspended_scores_zero = refl

ada_velocity : (compute_tier2_heuristics (some archived) (some ada)).velocity_anomaly_ratio ≡ 150
unfolding compute_tier2_heuristics to_fixed
ada_velocity = refl

compute_bounds_example :
    ((ada.suspended ≡ true) × (compute {W = ℕ} ada true (some archived) ≡ 0))
    ⊎ (k : ℕ) × (k ≤ 100) × (compute ada true (some archived) ≡ of_nat k ⊘ of_nat 100)
compute_bounds_example = compute_bounds ℕ-IsFloat ada true (some archived) ada-IsSane (ground arith)
