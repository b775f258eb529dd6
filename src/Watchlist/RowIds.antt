-- ===== src/Watchlist/RowIds.antt =====
-- Rows that are found by their id, where an id is the id of one row.
use devtrace.Base.{
  subst, inr, [], inl, nat_eq_iff, Bool-cases, false, arith, ◌∷◌, true, nat_eq, ◌≡◌, List, Bool,
}
use devtrace.Watchlist.Defs.{EventRow}
use devtrace.Watchlist.Events.{has_row}
use devtrace.Watchlist.PruneLaws.{IsKeyed, has_row_cons}
use devtrace.Base.Rows.{filter-All, All-map, All-filter, filter, All}

pub IsKeyed-filter :
    (p : EventRow → Bool) (events : List EventRow) → IsKeyed events → IsKeyed (filter p events)
IsKeyed-filter p events keyed =
    All-filter (λ e. All (λ (r : EventRow). nat_eq r.id e.id ≡ true → r ≡ e) (filter p events)) p
      events
      (All-map (λ e. All (λ (r : EventRow). nat_eq r.id e.id ≡ true → r ≡ e) events)
        (λ e. All (λ (r : EventRow). nat_eq r.id e.id ≡ true → r ≡ e) (filter p events)) events
        (λ e keys. All-filter (λ (r : EventRow). nat_eq r.id e.id ≡ true → r ≡ e) p events keys)
        keyed)

still_has_row :
    (p : EventRow → Bool) (x : EventRow) (events : List EventRow) (g : EventRow)
    → has_row (filter p events) g ≡ true
    → has_row (filter p (x ∷ events)) g ≡ true
unfolding filter
still_has_row p x events g h = elim (Bool-cases (p x)) [
  | inl e ↦ rw e (has_row_cons (filter p events) x g h)
  | inr e ↦ rw e h
]

-- A row that a test keeps is there.
pub has_row-filter :
    (p : EventRow → Bool) (events : List EventRow)
    → All (λ g. p g ≡ true → has_row (filter p events) g ≡ true) events
unfolding filter
has_row-filter p [] = tt
has_row-filter p (x ∷ events) = (
  λ h. rw h (ground (arith, nat_eq_iff x.id x.id)),
  All-map (λ g. p g ≡ true → has_row (filter p events) g ≡ true)
      (λ g. p g ≡ true → has_row (filter p (x ∷ events)) g ≡ true) events
      (λ g k h. still_has_row p x events g (k h)) (has_row-filter p events),
)

-- What holds of the rows of a list holds of a row that is there.
pub of_has_row :
    (P : EventRow → Type 0) (rows : List EventRow) (g : EventRow)
    → All (λ (r : EventRow). nat_eq r.id g.id ≡ true → r ≡ g) rows
    → All P rows
    → has_row rows g ≡ true
    → P g
of_has_row P [] g keys all there = absurd (ground (arith, there))
of_has_row P (r ∷ rows) g keys all there = elim (Bool-cases (nat_eq r.id g.id)) [
  | inl same ↦ subst P (keys.0 same) all.0
  | inr apart ↦ of_has_row P rows g keys.1 all.1 (ground (arith, there, apart))
]

pub unlisted :
    (f : EventRow → Bool) (old : List EventRow) (g : EventRow)
    → All (λ (r : EventRow). nat_eq r.id g.id ≡ true → r ≡ g) old
    → f g ≡ false
    → has_row (filter f old) g ≡ false
unlisted f old g keys cut = elim (Bool-cases (has_row (filter f old) g)) [
  | inr e ↦ e
  | inl e ↦
      let kept =
        of_has_row (λ r. f r ≡ true) (filter f old) g
          (All-filter (λ (r : EventRow). nat_eq r.id g.id ≡ true → r ≡ g) f old keys)
          (filter-All f old) e in
      absurd (ground (arith, kept, cut))
]
