-- ===== src/Scorer/PauseLaws.antt =====
-- The scorer waits when it has to, and long enough.
use devtrace.Base.Time.{Time, Duration, minute}
use devtrace.Base.{
  refl, inr, inl, ltb, Bool-cases, ◌⊎◌, arith, ◌≢◌, ◌<◌, ◌↔◌, ◌+◌, ◌≤◌, none, some, List, ◌≡◌,
  Option, ℕ,
}
use devtrace.Pool.Quota.{
  aggregate_graphql_quota, aggregate_search_quota, TokenQuota, aggregate_quota,
}
use devtrace.Scorer.Pause.{lowest_quota, token_pause, quota_pause}

-- Where a pause ends; without a pause, at once.
abbrev pub resumes : Time → Option Duration → Time
resumes now none = now
resumes now (some wait) = now + wait

-- The scorer waits exactly when the active tokens are down to the reserve; the wait is never zero,
-- and at its end the earliest reset is reached.
pub token_pause_lem :
    (active reserve : ℕ) (reset now : Time)
    → ((token_pause active reserve reset now ≡ none) ↔ (reserve < active))
      × ((active ≤ reserve) ↔ (
          (now < resumes now (token_pause active reserve reset now))
          × (reset ≤ resumes now (token_pause active reserve reset now))
          × (token_pause active reserve reset now ≢ none)))
unfolding token_pause
token_pause_lem active reserve reset now = (
  (λ h. ground arith, λ h. ground arith),
  (λ h. (ground arith, ground arith, λ e. ground arith), λ h. ground (arith, h.2)),
)

-- The gate reads the lowest of the three families.
pub lowest_quota-le :
    (qs : List TokenQuota)
    → ((lowest_quota qs).0 ≤ (aggregate_quota qs).0)
      × ((lowest_quota qs).0 ≤ (aggregate_search_quota qs).0)
      × ((lowest_quota qs).0 ≤ (aggregate_graphql_quota qs).0)
unfolding lowest_quota
lowest_quota-le qs = (ground arith, ground arith, ground arith)

-- Without a quota pause every family is at the threshold or above; a pause lasts at least a
-- minute, and at its end the reset of the most depleted family is reached.
pub quota_pause_lem :
    (pct : ℕ) (qs : List TokenQuota) (now : Time) (jitter : Duration)
    → ((quota_pause pct qs now jitter ≡ none)
        × (pct ≤ (aggregate_quota qs).0)
        × (pct ≤ (aggregate_search_quota qs).0)
        × (pct ≤ (aggregate_graphql_quota qs).0))
      ⊎ ((now + minute ≤ resumes now (quota_pause pct qs now jitter))
          × ((lowest_quota qs).1 ≤ resumes now (quota_pause pct qs now jitter))
          × ((lowest_quota qs).0 < pct))
quota_pause_lem pct qs now jitter = elim (Bool-cases (ltb (lowest_quota qs).0 pct)) [
  | inl below ↦ inr (unfold quota_pause in rw below (ground arith, ground arith, ground arith))
  | inr enough ↦ inl (
      unfold quota_pause in
      rw enough (
        refl,
        ground (arith, lowest_quota-le qs),
        ground (arith, lowest_quota-le qs),
        ground (arith, lowest_quota-le qs),
      ))
]
