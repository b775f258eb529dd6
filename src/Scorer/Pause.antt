-- ===== src/Scorer/Pause.antt =====
-- When the scorer waits (pkg/background/scorer.go): tokenPause and the quota gate of
-- runContinuousScorer. The jitter that is drawn is an argument. A Duration that Sub would saturate
-- (292 years) does not occur.
use devtrace.Base.Time.{Time, Duration, second, minute}
use devtrace.Base.{◌+◌, max, ◌-◌, some, none, ltb, List, if◌then◌else◌, Option, ◌*◌, ℕ}
use devtrace.Pool.Quota.{
  TokenQuota, aggregate_quota, aggregate_search_quota, aggregate_graphql_quota,
}

abbrev pub token_pause_fallback : Duration
token_pause_fallback = 30 * second

-- `none`: no pause.
unfoldable pub token_pause : ℕ → ℕ → Time → Time → Option Duration
token_pause active reserve earliest_reset now =
    if ltb reserve active
    then none
    else (if ltb 0 (earliest_reset - now)
        then some (earliest_reset - now)
        else some token_pause_fallback)

-- The most depleted family: core, then search, then GraphQL, each only where strictly lower.
abbrev pub lower_of : ℕ × Time → ℕ × Time → ℕ × Time
lower_of best other = if ltb other.0 best.0 then other else best

unfoldable pub lowest_quota : List TokenQuota → ℕ × Time
lowest_quota quotas =
    lower_of (lower_of (aggregate_quota quotas) (aggregate_search_quota quotas))
      (aggregate_graphql_quota quotas)

-- `max(time.Until(reset)+jitter(), time.Minute)` below the threshold. A reset that is past only
-- shortens the jitter, and the minute stands.
unfoldable pub quota_pause : ℕ → List TokenQuota → Time → Duration → Option Duration
unfolding lowest_quota
quota_pause min_quota_pct quotas now jitter =
    let (lowest, reset) = lowest_quota quotas in
    if ltb lowest min_quota_pct then some (max (reset + jitter - now) minute) else none
