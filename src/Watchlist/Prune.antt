-- ===== src/Watchlist/Prune.antt =====
-- The two passes of PruneNotificationEvents together (pkg/data/postgres/watchlist.go).
use devtrace.Ingest.Maintenance.{day}
use devtrace.Watchlist.RowIds.{IsKeyed-filter}
use devtrace.Base.{
  refl, inr, ◌∙◌, inl, ltb, Bool-cases, ◌≤◌, arith, false, ◌<◌, true, ◌≡◌, ◌*◌, not, ◌-◌, Bool,
  List, ℕ, String,
}
use devtrace.Watchlist.Defs.{Tables, Watchlist, EventRow, is_event_of}
use devtrace.Watchlist.Events.{prune_notification_events, is_fresh}
use devtrace.Watchlist.PruneLaws.{IsKeyed, count-kept, others_kept, others_fresh, stays}
use devtrace.Watchlist.PruneBounds.{
  KeepsNewest, by_age, by_cap, KeepsNewest-trans, KeepsNewest-refl,
}
use devtrace.Base.Rows.{
  All-of_filter, All-filter, filter-All, All-both, All-map, filter, count, All,
}
use devtrace.Base.Time.{Time, before}

abbrev pub own : Tables → String → EventRow → Bool
own t tenant_id = is_event_of t.watchlists tenant_id

abbrev IsLate : ℕ → Time → EventRow → Type 0
IsLate days now e = before e.created_at (now - days * day) ≡ false

fresh-IsLate :
    (ws : List Watchlist) (tenant_id : String) (days : ℕ) (now : Time) (events : List EventRow)
    → All
        (IsLate days now)
        (filter (is_event_of ws tenant_id) (filter (is_fresh ws tenant_id days now) events))
fresh-IsLate ws tenant_id days now events =
    let mine = is_event_of ws tenant_id in
    let fresh = is_fresh ws tenant_id days now in
    let kept = filter mine (filter fresh events) in
    All-map (λ e. (mine e ≡ true) × (fresh e ≡ true)) (IsLate days now) kept
      (λ e h. ground (arith, h.0, h.1))
      (All-both (λ e. mine e ≡ true) (λ e. fresh e ≡ true) kept
        (filter-All mine (filter fresh events))
        (All-filter (λ e. fresh e ≡ true) mine (filter fresh events) (filter-All fresh events)))

filter-IsLate :
    (ws : List Watchlist) (tenant_id : String) (days : ℕ) (now : Time) (q : EventRow → Bool)
    (mid : List EventRow)
    → All (IsLate days now) (filter (is_event_of ws tenant_id) mid)
    → All (IsLate days now) (filter (is_event_of ws tenant_id) (filter q mid))
filter-IsLate ws tenant_id days now q mid late =
    let mine = is_event_of ws tenant_id in
    let kept = filter mine (filter q mid) in
    All-map (λ e. (mine e ≡ true → IsLate days now e) × (mine e ≡ true)) (IsLate days now) kept
      (λ e h. h.0 h.1)
      (All-both (λ e. mine e ≡ true → IsLate days now e) (λ e. mine e ≡ true) kept
        (All-filter (λ e. mine e ≡ true → IsLate days now e) mine (filter q mid)
          (All-filter (λ e. mine e ≡ true → IsLate days now e) q mid
            (All-of_filter (IsLate days now) mine mid late)))
        (filter-All mine (filter q mid)))

-- No row of the tenant that a prune deletes is newer than one that it leaves, and the rows of other
-- tenants are left, in their order, if an id is the id of one row. If the cap is positive, no more rows
-- of the tenant are left than the cap; if the days are positive, none of them is older.
pub prune_notification_events-newest :
    (tenant_id : String) (days max_events : ℕ) (now : Time) (t : Tables)
    → IsKeyed t.events
    → let after = (prune_notification_events tenant_id days max_events now t).0 in
      KeepsNewest t.watchlists tenant_id t.events after.events
      × (filter (λ e. not (own t tenant_id e)) after.events
          ≡ filter (λ e. not (own t tenant_id e)) t.events)
      × (0 < max_events → count (own t tenant_id) after.events ≤ max_events)
      × (0 < days
          → All
              (λ e. before e.created_at (now - days * day) ≡ false)
              (filter (own t tenant_id) after.events))
unfolding prune_notification_events
prune_notification_events-newest tenant_id days max_events now t keyed =
    let ws = t.watchlists in
    let fresh = is_fresh ws tenant_id days now in
    let mid = filter fresh t.events in
    let keyed_mid = IsKeyed-filter fresh t.events keyed in
    let age = by_age ws tenant_id days now t.events in
    let aged_others = others_fresh ws tenant_id days now t.events in
    let late = fresh-IsLate ws tenant_id days now t.events in
    elim (Bool-cases (ltb 0 days)) [
      | inl aged ↦ elim (Bool-cases (ltb 0 max_events)) [
        | inl capped ↦ rw aged (
            rw capped (
              KeepsNewest-trans ws tenant_id fresh (stays ws tenant_id max_events mid) t.events
                  keyed age (by_cap ws tenant_id max_events mid keyed_mid),
              others_kept ws tenant_id max_events mid keyed_mid ∙ aged_others,
              λ h. count-kept ws tenant_id max_events mid,
              λ h. filter-IsLate ws tenant_id days now (stays ws tenant_id max_events mid) mid late,
            ))
        | inr uncapped ↦
            rw aged
              (rw uncapped (age, aged_others, λ h. absurd (ground (arith, h, uncapped)), λ h. late))
      ]
      | inr ageless ↦ elim (Bool-cases (ltb 0 max_events)) [
        | inl capped ↦ rw ageless (
            rw capped (
              by_cap ws tenant_id max_events t.events keyed,
              others_kept ws tenant_id max_events t.events keyed,
              λ h. count-kept ws tenant_id max_events t.events,
              λ h. absurd (ground (arith, h, ageless)),
            ))
        | inr uncapped ↦ rw ageless (
            rw uncapped (
              KeepsNewest-refl ws tenant_id t.events,
              refl,
              λ h. absurd (ground (arith, h, uncapped)),
              λ h. absurd (ground (arith, h, ageless)),
            ))
      ]
    ]
