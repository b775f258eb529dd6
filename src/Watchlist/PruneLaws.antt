-- ===== src/Watchlist/PruneLaws.antt =====
-- What PruneNotificationEvents leaves (pkg/data/postgres/watchlist.go).
use devtrace.Base.{
  inr, inl, Bool-cases, ap, ◌++◌, length-take-le, refl, take-append-drop, not, ◌≤◌, Bool, String,
  [], take, nat_eq_iff, false, true, ◌∷◌, ◌≡◌, nat_eq, ℕ, arith, List,
}
use devtrace.Watchlist.Defs.{Watchlist, EventRow, is_event_of}
use devtrace.Watchlist.Events.{beyond, has_row, is_fresh, is_newer_row}
use devtrace.Base.Rows.{
  All-of_each, All-filter, filter-All, filter-filter, count-le-length, count_none, count-append,
  count-filter, All-of_take-drop, All-drop, All-map, filter, count, All,
}
use devtrace.Base.Order.{
  split_ordered, All-sort_stable, count-sort_stable, sort_stable-IsOrdered, All-of_sort_stable,
  sort_stable, IsWeakOrder,
}
use devtrace.Base.Time.{Time}

-- An id is the id of one row.
abbrev pub IsKeyed : List EventRow → Type 0
IsKeyed events = All (λ e. All (λ (r : EventRow). nat_eq r.id e.id ≡ true → r ≡ e) events) events

newer_order : IsWeakOrder is_newer_row
newer_order = record { asymmetric = λ x y h. ground arith; transitive = λ x y z h k. ground arith }

has_row_self : (rows : List EventRow) (g : EventRow) → has_row (g ∷ rows) g ≡ true
has_row_self rows g = ground (arith, nat_eq_iff g.id g.id)

pub has_row_cons :
    (rows : List EventRow) (g e : EventRow) → has_row rows e ≡ true → has_row (g ∷ rows) e ≡ true
has_row_cons rows g e h = ground arith

pub has_row-each : (rows : List EventRow) → All (λ g. has_row rows g ≡ true) rows
has_row-each [] = tt
has_row-each (g ∷ rows) = (
  has_row_self rows g,
  All-map (λ e. has_row rows e ≡ true) (λ e. has_row (g ∷ rows) e ≡ true) rows
      (λ e h. has_row_cons rows g e h) (has_row-each rows),
)

-- The rows of a tenant before and after the pass by the cap.
module _ (watchlists : List Watchlist) (tenant_id : String) (max_events : ℕ)
    (events : List EventRow) where
  abbrev pub own : EventRow → Bool
  own = is_event_of watchlists tenant_id

  abbrev ranked : List EventRow
  ranked = sort_stable is_newer_row (filter own events)

  abbrev pub gone : List EventRow
  gone = beyond watchlists tenant_id max_events events

  abbrev pub stays : EventRow → Bool
  stays e = not (has_row gone e)

  gone_is_out : All (λ e. stays e ≡ false) gone
  gone_is_out =
      All-map (λ e. has_row gone e ≡ true) (λ e. stays e ≡ false) gone (λ e h. rw h refl)
        (has_row-each gone)

  pub count-stays : count stays ranked ≤ max_events
  count-stays =
      let parts = take-append-drop max_events ranked in
      let halves = count-append stays (take max_events ranked) gone in
      let none_left = count_none stays gone gone_is_out in
      let few = count-le-length stays (take max_events ranked) in
      let short = length-take-le max_events ranked in
      let whole : count stays (take max_events ranked ++ gone) ≡ count stays ranked =
        ap (count stays) parts in
      omega (arith, halves, none_left, few, short, whole)

  -- No more rows of the tenant are left than the cap.
  pub count-kept : count own (filter stays events) ≤ max_events
  count-kept = omega (
    arith,
    count-stays,
    count-filter own stays events,
    count-sort_stable is_newer_row stays (filter own events),
  )

  abbrev pub Outlasts : EventRow → Type 0
  Outlasts e = stays e ≡ true → All (λ g. is_newer_row g e ≡ false) gone

  ranked-Outlasts : All Outlasts ranked
  ranked-Outlasts =
      All-of_take-drop Outlasts max_events ranked
        (All-map (λ e. All (λ g. is_newer_row g e ≡ false) gone) Outlasts (take max_events ranked)
          (λ e h s. h)
          (split_ordered is_newer_row max_events ranked
            (sort_stable-IsOrdered is_newer_row newer_order (filter own events))))
        (All-map (λ e. stays e ≡ false) Outlasts gone (λ e h s. cc) gone_is_out)

  pub filter-Outlasts : All Outlasts (filter own events)
  filter-Outlasts = All-of_sort_stable is_newer_row Outlasts (filter own events) ranked-Outlasts

  not_listed :
      (e : EventRow) (rows : List EventRow)
      → All (λ (r : EventRow). nat_eq r.id e.id ≡ true → r ≡ e) rows
      → All (λ r. own r ≡ true) rows
      → own e ≡ false
      → has_row rows e ≡ false
  not_listed e [] keys owned other = refl
  not_listed e (r ∷ rows) keys owned other = elim (Bool-cases (nat_eq r.id e.id)) [
    | inl same ↦
        let own_e : own e ≡ true = rw (← keys.0 same) owned.0 in
        absurd (ground (arith, own_e, other))
    | inr apart ↦ rw apart (not_listed e rows keys.1 owned.1 other)
  ]

  own_gone : All (λ e. own e ≡ true) gone
  own_gone =
      All-drop (λ e. own e ≡ true) max_events ranked
        (All-sort_stable is_newer_row (λ e. own e ≡ true) (filter own events)
          (filter-All own events))

  pub listed_gone :
      (e : EventRow)
      → All (λ (r : EventRow). nat_eq r.id e.id ≡ true → r ≡ e) events
      → All (λ (r : EventRow). nat_eq r.id e.id ≡ true → r ≡ e) gone
  listed_gone e keys =
      let P : EventRow → Type 0 = λ r. nat_eq r.id e.id ≡ true → r ≡ e in
      All-drop P max_events ranked
        (All-sort_stable is_newer_row P (filter own events) (All-filter P own events keys))

  -- The rows of other tenants stay.
  pub others_kept :
      IsKeyed events
      → filter (λ e. not (own e)) (filter stays events) ≡ filter (λ e. not (own e)) events
  others_kept keyed =
      filter-filter (λ e. not (own e)) stays events
        (All-map (λ e. All (λ (r : EventRow). nat_eq r.id e.id ≡ true → r ≡ e) events)
          (λ e. not (own e) ≡ true → stays e ≡ true) events
          (λ e keys other.
            let missing = not_listed e gone (listed_gone e keys) own_gone (ground arith) in
            rw missing refl)
          keyed)

pub others_fresh :
    (watchlists : List Watchlist) (tenant_id : String) (days : ℕ) (now : Time)
    (events : List EventRow)
    → filter
        (λ e. not (is_event_of watchlists tenant_id e))
        (filter (is_fresh watchlists tenant_id days now) events)
      ≡ filter (λ e. not (is_event_of watchlists tenant_id e)) events
others_fresh watchlists tenant_id days now events =
    filter-filter (λ e. not (is_event_of watchlists tenant_id e))
      (is_fresh watchlists tenant_id days now) events
      (All-of_each
        (λ e.
          not (is_event_of watchlists tenant_id e) ≡ true
          → is_fresh watchlists tenant_id days now e ≡ true)
        events (λ e h. ground arith))
