-- ===== src/Score/Signals.antt =====
-- The inputs of the score engine and its constants (pkg/score/score.go; Behavior is in
-- pkg/model/types.go). A count is not negative.
use devtrace.Base.Time.{Time}
use devtrace.Base.{Bool, String, ℕ}

pub record InputSignals : Type 0 where
  pub age_days : ℕ
  pub author_association : String
  pub has_bio : Bool
  pub has_company : Bool
  pub has_location : Bool
  pub has_website : Bool
  pub has_public_email : Bool
  pub commits : ℕ
  pub total_commits : ℕ
  pub total_contributors : ℕ
  pub last_commit_days : ℕ
  pub prs_merged : ℕ
  pub prs_closed : ℕ
  pub followers : ℕ
  pub following : ℕ
  pub public_repos : ℕ
  pub recent_pr_repo_count : ℕ
  pub forked_repos : ℕ
  pub unverified_commits : ℕ
  pub suspended : Bool
  pub org_member : Bool
  pub trusted_org_member : Bool
  pub partial : Bool

pub record Behavior (W : Type 0) : Type 0 where
  pub pr_velocity_30d : ℕ
  pub pr_velocity_baseline : W
  pub reviews_given_30d : ℕ
  pub issue_comments_30d : ℕ
  pub distinct_repos_90d : ℕ
  pub consistency_score : W
  pub active_since : Time
  pub total_prs_merged : ℕ
  pub total_prs_closed : ℕ
  pub active_days : ℕ
  pub active_hour_spread : ℕ
  pub burst_vanish_peak_ratio : W
  pub burst_vanish_days_since : ℕ
  pub burst_vanish_data_sufficient : Bool

-- The weights of the signals, in hundredths: they add up to 100.
abbrev pub provenance_weight : ℕ
provenance_weight = 15

abbrev pub age_weight : ℕ
age_weight = 15

abbrev pub association_weight : ℕ
association_weight = 5

abbrev pub profile_weight : ℕ
profile_weight = 5

abbrev pub proportion_weight : ℕ
proportion_weight = 15

abbrev pub recency_weight : ℕ
recency_weight = 5

abbrev pub pr_accept_weight : ℕ
pr_accept_weight = 5

abbrev pub follower_weight : ℕ
follower_weight = 5

abbrev pub repo_count_weight : ℕ
repo_count_weight = 10

abbrev pub consistency_weight : ℕ
consistency_weight = 6

abbrev pub review_particip_weight : ℕ
review_particip_weight = 4

abbrev pub repo_diversity_weight : ℕ
repo_diversity_weight = 4

abbrev pub burst_weight : ℕ
burst_weight = 3

abbrev pub fork_only_weight : ℕ
fork_only_weight = 3

-- Ceilings and parameters.
abbrev pub age_ceil_days : ℕ
age_ceil_days = 730

abbrev pub verification_maturity_ceil : ℕ
verification_maturity_ceil = 730

abbrev pub follower_ratio_ceil : ℕ
follower_ratio_ceil = 10

abbrev pub repo_count_ceil : ℕ
repo_count_ceil = 30

abbrev pub base_half_life_days : ℕ
base_half_life_days = 90

abbrev pub min_confidence_commits : ℕ
min_confidence_commits = 30

abbrev pub conf_commits_per_contrib : ℕ
conf_commits_per_contrib = 10

abbrev pub pr_count_ceil : ℕ
pr_count_ceil = 20

abbrev pub burst_ceil : ℕ
burst_ceil = 5

abbrev pub fork_original_ceil : ℕ
fork_original_ceil = 5

abbrev pub review_count_ceil : ℕ
review_count_ceil = 10

abbrev pub repo_diversity_ceil : ℕ
repo_diversity_ceil = 8
