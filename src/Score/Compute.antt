-- ===== src/Score/Compute.antt =====
-- Compute and Categories (pkg/score/score.go).
use devtrace.Score.Curves.{
  to_fixed, weight, clamped_ratio, zero_w, exp_decay, one_w, profile_score, association_score,
  log_curve,
}
use devtrace.Base.Int.{sub_ℕ}
use devtrace.Score.Signals.{
  repo_diversity_weight, repo_diversity_ceil, review_particip_weight, burst_weight,
  review_count_ceil, fork_only_weight, burst_ceil, consistency_weight, repo_count_weight,
  follower_weight, pr_accept_weight, recency_weight, proportion_weight, profile_weight,
  association_weight, age_weight, provenance_weight, fork_original_ceil, repo_count_ceil,
  follower_ratio_ceil, pr_count_ceil, base_half_life_days, age_ceil_days,
  verification_maturity_ceil, min_confidence_commits, conf_commits_per_contrib, Behavior,
  InputSignals,
}
use devtrace.Score.Float.{◌⊖◌, ◌⊗◌, ◌⊘◌, ◌⊕◌, of_nat, Float}
use devtrace.Base.{
  none, ◌++◌, [], ◌∷◌, some, ◌*◌, ◌&&◌, max, ltb, not, ◌+◌, if◌then◌else◌, Option, Bool, String,
  List,
}

-- Category names.
abbrev pub category_identity : String
category_identity = "identity"

abbrev pub category_engagement : String
category_engagement = "engagement"

abbrev pub category_community : String
category_community = "community"

abbrev pub category_behavioral : String
category_behavioral = "behavioral"

abbrev pub category_code_provenance : String
category_code_provenance = "code_provenance"

module _ {W : Type 0} ⦃f : Float W⦄ where
  -- Without repo context the weights left, 0.60 of 1, are scaled up.
  abbrev pub scale_of : Bool → W
  scale_of has_repo = if not has_repo then f.ratio 100 60 else f.ratio 1 1

  -- The verified ratio by the maturity; the subtraction is on integers, and may be negative.
  abbrev pub provenance : InputSignals → W
  provenance s =
      let verified_ratio = f.of_int (sub_ℕ s.commits s.unverified_commits) ⊘ of_nat s.commits in
      let maturity = log_curve (of_nat s.age_days) (of_nat verification_maturity_ceil) in
      if ltb 0 s.commits && ltb 0 s.total_commits
      then verified_ratio ⊗ maturity ⊗ weight provenance_weight
      else zero_w

  abbrev pub age_part : InputSignals → W
  age_part s = log_curve (of_nat s.age_days) (of_nat age_ceil_days) ⊗ weight age_weight

  abbrev pub association_part : InputSignals → W
  association_part s =
      association_score s.author_association s.org_member s.trusted_org_member
      ⊗ weight association_weight

  abbrev pub profile_part : InputSignals → W
  profile_part s = profile_score s ⊗ weight profile_weight

  -- 1 over the contributors, at least 0.05.
  abbrev pub proportion_ceil : InputSignals → W
  proportion_ceil s = f.max_of (one_w ⊘ of_nat (max s.total_contributors 1)) (f.ratio 5 100)

  abbrev pub proportion_part : InputSignals → W
  proportion_part s =
      let proportion = of_nat s.commits ⊘ of_nat s.total_commits in
      let conf_threshold =
        of_nat (max (s.total_contributors * conf_commits_per_contrib) min_confidence_commits) in
      let confidence = f.min_of (of_nat s.total_commits ⊘ conf_threshold) one_w in
      if ltb 0 s.commits && ltb 0 s.total_commits
      then clamped_ratio proportion (proportion_ceil s) ⊗ confidence ⊗ weight proportion_weight
      else zero_w

  abbrev pub half_life_mult : InputSignals → W
  half_life_mult s =
      let mult =
        f.max_of (one_w ⊘ f.log (one_w ⊕ of_nat (max s.total_contributors 1))) (f.ratio 25 100) in
      if f.less one_w mult then one_w else mult

  abbrev pub recency_part : InputSignals → W
  recency_part s =
      exp_decay (of_nat s.last_commit_days) (of_nat base_half_life_days ⊗ half_life_mult s)
      ⊗ weight recency_weight

  unfoldable pub repo_engagement_score : InputSignals → W
  repo_engagement_score s = proportion_part s ⊕ recency_part s

  abbrev pub pr_accept_part : InputSignals → W
  pr_accept_part s =
      let total_terminal_prs = s.prs_merged + s.prs_closed in
      let merge_rate = of_nat s.prs_merged ⊘ of_nat total_terminal_prs in
      let confidence = log_curve (of_nat total_terminal_prs) (of_nat pr_count_ceil) in
      if ltb 0 total_terminal_prs then merge_rate ⊗ confidence ⊗ weight pr_accept_weight else zero_w

  abbrev pub follower_part : InputSignals → W
  follower_part s =
      let ratio = of_nat s.followers ⊘ of_nat s.following in
      if ltb 0 s.following
      then log_curve ratio (of_nat follower_ratio_ceil) ⊗ weight follower_weight
      else (if ltb 0 s.followers then weight follower_weight else zero_w)

  abbrev pub repo_count_part : InputSignals → W
  repo_count_part s =
      log_curve (of_nat s.public_repos) (of_nat repo_count_ceil) ⊗ weight repo_count_weight

  -- The three signals of the archive, for a known behavior.
  abbrev pub archive_part : Option (Behavior W) → W
  archive_part none = zero_w
  archive_part (some beh) =
      beh.consistency_score ⊗ weight consistency_weight
      ⊕ clamped_ratio (of_nat beh.reviews_given_30d) (of_nat review_count_ceil)
        ⊗ weight review_particip_weight
      ⊕ clamped_ratio (of_nat beh.distinct_repos_90d) (of_nat repo_diversity_ceil)
        ⊗ weight repo_diversity_weight

  abbrev pub burst_part : InputSignals → W
  burst_part s =
      let age_months = f.max_of (of_nat s.age_days ⊘ f.ratio 30 1) (f.ratio 1 1) in
      let burst_rate = of_nat s.recent_pr_repo_count ⊘ age_months in
      if ltb 0 s.recent_pr_repo_count && ltb 0 s.age_days
      then (one_w ⊖ clamped_ratio burst_rate (of_nat burst_ceil)) ⊗ weight burst_weight
      else weight burst_weight

  abbrev pub fork_part : InputSignals → W
  fork_part s =
      if ltb 0 s.public_repos
      then clamped_ratio (f.of_int (sub_ℕ s.public_repos s.forked_repos))
          (of_nat fork_original_ceil)
        ⊗ weight fork_only_weight
      else zero_w

  -- Adding 0 changes no sum, so an absent part is added as 0.
  unfoldable pub behavioral_score : InputSignals → Option (Behavior W) → W
  behavioral_score s beh = archive_part beh ⊕ burst_part s ⊕ fork_part s

  abbrev pub when : Bool → W → W
  when b x = if b then x else zero_w

  -- The sum before it is scaled, in the order of the code.
  unfoldable pub raw_score : InputSignals → Bool → Option (Behavior W) → W
  raw_score s has_repo beh =
      when has_repo (provenance s)
      ⊕ age_part s
      ⊕ when has_repo (association_part s)
      ⊕ profile_part s
      ⊕ when has_repo (repo_engagement_score s)
      ⊕ pr_accept_part s
      ⊕ follower_part s
      ⊕ repo_count_part s
      ⊕ behavioral_score s beh

  unfoldable pub compute : InputSignals → Bool → Option (Behavior W) → W
  compute s has_repo beh =
      let rep = raw_score s has_repo beh ⊗ scale_of has_repo in
      if s.suspended then zero_w else to_fixed (if f.less one_w rep then one_w else rep) 2

  abbrev pub identity_score : InputSignals → Bool → W
  identity_score s has_repo = age_part s ⊕ when has_repo (association_part s) ⊕ profile_part s

  abbrev pub engagement_score : InputSignals → Bool → W
  engagement_score s has_repo = when has_repo (repo_engagement_score s) ⊕ pr_accept_part s

  abbrev pub community_score : InputSignals → W
  community_score s = follower_part s ⊕ repo_count_part s

  -- The entries of the map; code provenance only with a repo.
  unfoldable pub categories : InputSignals → Bool → Option (Behavior W) → List (String × W)
  categories s has_repo beh =
      let scale = scale_of has_repo in
      if s.suspended
      then (category_identity, zero_w)
        ∷ (category_engagement, zero_w)
        ∷ (category_community, zero_w)
        ∷ (category_behavioral, zero_w)
        ∷ (if has_repo then (category_code_provenance, zero_w) ∷ [] else [])
      else (if has_repo then (category_code_provenance, to_fixed (provenance s) 4) ∷ [] else [])
        ++ (category_identity, to_fixed (identity_score s has_repo ⊗ scale) 4)
          ∷ (category_engagement, to_fixed (engagement_score s has_repo ⊗ scale) 4)
          ∷ (category_community, to_fixed (community_score s ⊗ scale) 4)
          ∷ (category_behavioral, to_fixed (behavioral_score s beh ⊗ scale) 4)
          ∷ []
