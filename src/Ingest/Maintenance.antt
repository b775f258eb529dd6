-- ===== src/Ingest/Maintenance.antt =====
-- maybeCompact and maybePruneNotifications (pkg/ingest/runner.go): the calls of the store, in
-- order. A sync state that is missing or cannot be read is the zero time.
use devtrace.Plan.Defs.{plan_or_free}
use devtrace.Base.Time.{is_zero, hour, Time, Duration}
use devtrace.Base.{
  none, ◌-◌, ◌++◌, ltb, map, ◌&&◌, some, ◌∷◌, [], if◌then◌else◌, not, Option, ℕ, Bool, ◌*◌, String,
  List,
}

abbrev pub day : Duration
day = 24 * hour

abbrev pub compact_interval : Duration
compact_interval = day

abbrev pub compact_older_than : Duration
compact_older_than = 30 * day

abbrev pub prune_activity_retention : Duration
prune_activity_retention = 120 * day

abbrev pub prune_history_retention : Duration
prune_history_retention = 400 * day

abbrev pub notification_prune_interval : Duration
notification_prune_interval = day

-- `!last.IsZero() && time.Since(last) < interval`
abbrev pub is_recent : Time → Time → Duration → Bool
is_recent last now interval = not (is_zero last) && ltb (now - last) interval

pub data Upkeep : Type 0 where
  compact_activity prune_activity prune_score_history prune_pr_events : Duration → Upkeep
  -- Of a tenant: retention in days, and the cap.
  prune_notification_events : String → ℕ → ℕ → Upkeep
  save_sync_state : Time → Upkeep

-- `compacted` says whether the compaction returns without an error; the errors of the other calls
-- are only logged.
unfoldable pub maybe_compact : Time → Time → Bool → List Upkeep
maybe_compact last now compacted =
    if is_recent last now compact_interval
    then []
    else compact_activity compact_older_than
      ∷ (if compacted
          then prune_activity prune_activity_retention
            ∷ prune_score_history prune_history_retention
            ∷ prune_pr_events prune_activity_retention
            ∷ save_sync_state now
            ∷ []
          else [])

pub record ActiveTenant : Type 0 where
  pub id : String
  pub plan : String

abbrev pub prune_of : ActiveTenant → Upkeep
prune_of tn =
    let p = plan_or_free tn.plan in
    prune_notification_events tn.id p.event_retention_days p.max_events_per_tenant

-- The tenants; none is an error of their query.
unfoldable pub maybe_prune_notifications : Time → Time → Option (List ActiveTenant) → List Upkeep
maybe_prune_notifications last now none = []
maybe_prune_notifications last now (some tenants) =
    if is_recent last now notification_prune_interval
    then []
    else map prune_of tenants ++ save_sync_state now ∷ []
