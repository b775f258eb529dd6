-- ===== src/Watchlist/PruneBounds.antt =====
-- PruneNotificationEvents as a whole (pkg/data/postgres/watchlist.go).
use devtrace.Watchlist.RowIds.{unlisted, of_has_row, has_row-filter}
use devtrace.Ingest.Maintenance.{day}
use devtrace.Base.{
  refl, not, ◌*◌, ◌-◌, ◌≢◌, ℕ, inr, inl, Bool-cases, arith, false, true, nat_eq, ◌≡◌, String, Bool,
  List,
}
use devtrace.Watchlist.Defs.{Watchlist, EventRow, is_event_of}
use devtrace.Watchlist.Events.{has_row, is_fresh, is_newer_row}
use devtrace.Watchlist.PruneLaws.{
  has_row-each, listed_gone, Outlasts, IsKeyed, filter-Outlasts, stays, gone,
}
use devtrace.Base.Rows.{
  All-of_each, All-of_filter, filter-All, All-both, All-map, All-filter, filter, All,
}
use devtrace.Base.Time.{Time, before}

-- No row of the tenant that is gone is newer than one that is left.
abbrev pub KeepsNewest : List Watchlist → String → List EventRow → List EventRow → Type 0
KeepsNewest watchlists tenant_id old new =
    let own = is_event_of watchlists tenant_id in
    All (λ e. All (λ g. own g ≡ true → has_row new g ≡ false → is_newer_row g e ≡ false) old)
      (filter own new)

older_is_not_newer :
    (watchlists : List Watchlist) (tenant_id : String) (days : ℕ) (now : Time) (e g : EventRow)
    → is_event_of watchlists tenant_id e ≡ true
    → is_fresh watchlists tenant_id days now e ≡ true
    → is_event_of watchlists tenant_id g ≡ true
    → is_fresh watchlists tenant_id days now g ≢ true
    → is_newer_row g e ≡ false
older_is_not_newer watchlists tenant_id days now e g own_e fresh_e own_g old_g =
    elim (Bool-cases (is_fresh watchlists tenant_id days now g)) [
      | inl fresh ↦ absurd (old_g fresh)
      | inr old ↦
          let late : before e.created_at (now - days * day) ≡ false =
            ground (arith, own_e, fresh_e) in
          let early : before g.created_at (now - days * day) ≡ true = ground (arith, own_g, old) in
          ground (arith, late, early)
    ]

listed_if_gone :
    (out : List EventRow) (g : EventRow) → not (has_row out g) ≢ true → has_row out g ≡ true
listed_if_gone out g h = elim (Bool-cases (has_row out g)) [
  | inl e ↦ e
  | inr e ↦ absurd (h (rw e refl))
]

module _ (watchlists : List Watchlist) (tenant_id : String) where
  pub by_age :
      (days : ℕ) (now : Time) (events : List EventRow)
      → KeepsNewest watchlists tenant_id events
          (filter (is_fresh watchlists tenant_id days now) events)
  by_age days now events =
      let own = is_event_of watchlists tenant_id in
      let fresh = is_fresh watchlists tenant_id days now in
      let there = has_row-filter fresh events in
      All-map (λ e. (own e ≡ true) × (fresh e ≡ true))
        (λ e.
          All
            (λ g. own g ≡ true → has_row (filter fresh events) g ≡ false → is_newer_row g e ≡ false)
            events)
        (filter own (filter fresh events))
        (λ e k.
          All-map (λ g. fresh g ≡ true → has_row (filter fresh events) g ≡ true)
            (λ g. own g ≡ true → has_row (filter fresh events) g ≡ false → is_newer_row g e ≡ false)
            events
            (λ g th o missing.
              older_is_not_newer watchlists tenant_id days now e g k.0 k.1 o
                (λ f. ground (arith, th f, missing)))
            there)
        (All-both (λ e. own e ≡ true) (λ e. fresh e ≡ true) (filter own (filter fresh events))
          (filter-All own (filter fresh events))
          (All-filter (λ e. fresh e ≡ true) own (filter fresh events) (filter-All fresh events)))

  pub by_cap :
      (max_events : ℕ) (events : List EventRow)
      → IsKeyed events
      → KeepsNewest watchlists tenant_id events
          (filter (stays watchlists tenant_id max_events events) events)
  by_cap max_events events keyed =
      let own = is_event_of watchlists tenant_id in
      let stay = stays watchlists tenant_id max_events events in
      let out = gone watchlists tenant_id max_events events in
      let Behind : EventRow → Type 0 = λ e. All (λ g. is_newer_row g e ≡ false) out in
      let newest =
        All-of_filter (Outlasts watchlists tenant_id max_events events) own events
          (filter-Outlasts watchlists tenant_id max_events events) in
      All-map (λ e. (own e ≡ true → stay e ≡ true → Behind e) × ((own e ≡ true) × (stay e ≡ true)))
        (λ e.
          All
            (λ g. own g ≡ true → has_row (filter stay events) g ≡ false → is_newer_row g e ≡ false)
            events)
        (filter own (filter stay events))
        (λ e k.
          All-map
            (λ g.
              (stay g ≡ true → has_row (filter stay events) g ≡ true)
              × All (λ (r : EventRow). nat_eq r.id g.id ≡ true → r ≡ g) events)
            (λ g. own g ≡ true → has_row (filter stay events) g ≡ false → is_newer_row g e ≡ false)
            events
            (λ g h o missing.
              of_has_row (λ r. is_newer_row r e ≡ false) out g
                (listed_gone watchlists tenant_id max_events events g h.1) (k.0 k.1.0 k.1.1)
                (listed_if_gone out g (λ s. ground (arith, h.0 s, missing))))
            (All-both (λ g. stay g ≡ true → has_row (filter stay events) g ≡ true)
              (λ g. All (λ (r : EventRow). nat_eq r.id g.id ≡ true → r ≡ g) events) events
              (has_row-filter stay events) keyed))
        (All-both (λ e. own e ≡ true → stay e ≡ true → Behind e)
          (λ e. (own e ≡ true) × (stay e ≡ true)) (filter own (filter stay events))
          (All-filter (λ e. own e ≡ true → stay e ≡ true → Behind e) own (filter stay events)
            (All-filter (λ e. own e ≡ true → stay e ≡ true → Behind e) stay events newest))
          (All-both (λ e. own e ≡ true) (λ e. stay e ≡ true) (filter own (filter stay events))
            (filter-All own (filter stay events))
            (All-filter (λ e. stay e ≡ true) own (filter stay events) (filter-All stay events))))

  steps :
      (f q : EventRow → Bool) (old : List EventRow) (e : EventRow)
      → IsKeyed old
      → All
          (λ g.
            is_event_of watchlists tenant_id g ≡ true
            → has_row (filter f old) g ≡ false
            → is_newer_row g e ≡ false)
          old
      → All
          (λ g.
            is_event_of watchlists tenant_id g ≡ true
            → has_row (filter q (filter f old)) g ≡ false
            → is_newer_row g e ≡ false)
          (filter f old)
      → All
          (λ g.
            is_event_of watchlists tenant_id g ≡ true
            → has_row (filter q (filter f old)) g ≡ false
            → is_newer_row g e ≡ false)
          old
  steps f q old e keyed first second =
      let own = is_event_of watchlists tenant_id in
      let Later : EventRow → Type 0 = λ g.
        own g ≡ true → has_row (filter q (filter f old)) g ≡ false → is_newer_row g e ≡ false in
      let Early : EventRow → Type 0 =
        λ g. own g ≡ true → has_row (filter f old) g ≡ false → is_newer_row g e ≡ false in
      let Keys : EventRow → Type 0 =
        λ g. All (λ (r : EventRow). nat_eq r.id g.id ≡ true → r ≡ g) old in
      All-map (λ g. Early g × ((f g ≡ true → Later g) × Keys g)) Later old
        (λ g h o missing. elim (Bool-cases (f g)) [
          | inl kept ↦ h.1.0 kept o missing
          | inr cut ↦ h.0 o (unlisted f old g h.1.1 cut)
        ])
        (All-both Early (λ g. (f g ≡ true → Later g) × Keys g) old first
          (All-both (λ g. f g ≡ true → Later g) Keys old (All-of_filter Later f old second) keyed))

  pub KeepsNewest-trans :
      (f q : EventRow → Bool) (old : List EventRow)
      → IsKeyed old
      → KeepsNewest watchlists tenant_id old (filter f old)
      → KeepsNewest watchlists tenant_id (filter f old) (filter q (filter f old))
      → KeepsNewest watchlists tenant_id old (filter q (filter f old))
  KeepsNewest-trans f q old keyed first second =
      let own = is_event_of watchlists tenant_id in
      let mid = filter f old in
      let new = filter q mid in
      let First : EventRow → Type 0 =
        λ e. All (λ g. own g ≡ true → has_row mid g ≡ false → is_newer_row g e ≡ false) old in
      let Second : EventRow → Type 0 =
        λ e. All (λ g. own g ≡ true → has_row new g ≡ false → is_newer_row g e ≡ false) mid in
      All-map (λ e. (own e ≡ true → First e) × (Second e × (own e ≡ true)))
        (λ e. All (λ g. own g ≡ true → has_row new g ≡ false → is_newer_row g e ≡ false) old)
        (filter own new) (λ e k. steps f q old e keyed (k.0 k.1.1) k.1.0)
        (All-both (λ e. own e ≡ true → First e) (λ e. Second e × (own e ≡ true)) (filter own new)
          (All-filter (λ e. own e ≡ true → First e) own new
            (All-filter (λ e. own e ≡ true → First e) q mid (All-of_filter First own mid first)))
          (All-both Second (λ e. own e ≡ true) (filter own new) second (filter-All own new)))

pub KeepsNewest-refl :
    (watchlists : List Watchlist) (tenant_id : String) (events : List EventRow)
    → KeepsNewest watchlists tenant_id events events
KeepsNewest-refl watchlists tenant_id events =
    let own = is_event_of watchlists tenant_id in
    All-of_each
      (λ e. All (λ g. own g ≡ true → has_row events g ≡ false → is_newer_row g e ≡ false) events)
      (filter own events)
      (λ e.
        All-map (λ g. has_row events g ≡ true)
          (λ g. own g ≡ true → has_row events g ≡ false → is_newer_row g e ≡ false) events
          (λ g there o missing. absurd (ground (arith, there, missing))) (has_row-each events))
