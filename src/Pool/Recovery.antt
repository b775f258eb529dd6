-- ===== src/Pool/Recovery.antt =====
-- EarliestReset and ActiveCount against Token: when the pool is dry, and when it recovers.
use devtrace.Pool.Selection.{blocked-dry, dry-blocked}
use devtrace.Base.Time.{Time, after}
use devtrace.Base.{
  inr, dec_lt, not, zero, refl, ◌&&◌, ◌↔◌, suc, ◌⊎◌, [], false, true, arith, ◌≤◌, get_or, ◌∷◌,
  length, ◌≢◌, Bool, ◌<◌, none, ◌≡◌, List, ℕ,
}
use devtrace.Pool.Defs.{PoolEntry, TokenPool}
use devtrace.Pool.Token.{pick}
use devtrace.Pool.Reports.{sooner, earliest_reset, active_count, active_from, earliest_from}
use devtrace.Pool.Invariant.{IsValid}

-- All entries are marked, with a reset that is not before `t`.
abbrev pub AllMarked : Time → List PoolEntry → List Bool → List Time → Type 0
AllMarked t [] xs us = Unit {0}
AllMarked t (e ∷ es) [] us = ⊥
AllMarked t (e ∷ es) (x ∷ xs) [] = ⊥
AllMarked t (e ∷ es) (x ∷ xs) (u ∷ us) = (x ≡ true) × (t ≤ u) × AllMarked t es xs us

-- The same, of the indices.
all_marked :
    (t : Time) (es : List PoolEntry) (xs : List Bool) (us : List Time)
    → length xs ≡ length es
    → length us ≡ length es
    → ((i : ℕ) → i < length es → (get_or xs i false && not (after t (get_or us i 0))) ≡ true)
    → AllMarked t es xs us
all_marked t [] xs us hx hu h = tt
all_marked t (e ∷ es) [] us hx hu h = absurd (omega arith)
all_marked t (e ∷ es) (x ∷ xs) [] hx hu h = absurd (omega arith)
all_marked t (e ∷ es) (x ∷ xs) (u ∷ us) hx hu h = (
  ground (arith, h 0),
  ground (arith, h 0),
  all_marked t es xs us (omega arith) (omega arith) (λ i lt. h (suc i) (omega arith)),
)

active-AllMarked :
    (t : Time) (es : List PoolEntry) (xs : List Bool) (us : List Time)
    → AllMarked t es xs us
    → active_from t es xs us ≡ 0
unfolding active_from
active-AllMarked t [] xs us h = refl
active-AllMarked t (e ∷ es) [] us h = absurd h
active-AllMarked t (e ∷ es) (x ∷ xs) [] h = absurd h
active-AllMarked t (e ∷ es) (x ∷ xs) (u ∷ us) h = ground (arith, active-AllMarked t es xs us)

earliest-ge :
    (now t acc : Time) (es : List PoolEntry) (xs : List Bool) (us : List Time)
    → now ≤ t
    → AllMarked t es xs us
    → (t ≤ acc) ⊎ ((acc ≡ 0) × (0 < length es))
    → t ≤ earliest_from now acc es xs us
unfolding earliest_from
earliest-ge now t acc [] xs us le h a = omega arith
earliest-ge now t acc (e ∷ es) [] us le h a = absurd h
earliest-ge now t acc (e ∷ es) (x ∷ xs) [] le h a = absurd h
earliest-ge now t acc (e ∷ es) (x ∷ xs) (u ∷ us) le h a =
    earliest-ge now t (sooner now acc x u) es xs us le h.2 (ground arith)

earliest-le_acc :
    (now acc : Time) (es : List PoolEntry) (xs : List Bool) (us : List Time)
    → 0 < now
    → 0 < acc
    → (earliest_from now acc es xs us ≤ acc)
unfolding earliest_from
earliest-le_acc now acc [] xs us h a = omega arith
earliest-le_acc now acc (e ∷ es) [] us h a = omega arith
earliest-le_acc now acc (e ∷ es) (x ∷ xs) [] h a = omega arith
earliest-le_acc now acc (e ∷ es) (x ∷ xs) (u ∷ us) h a =
    ground (arith, earliest-le_acc now acc es xs us h a, earliest-le_acc now u es xs us h)

earliest-le :
    (now acc : Time) (es : List PoolEntry) (xs : List Bool) (us : List Time)
    → 0 < now
    → AllMarked now es xs us
    → (i : ℕ) → i < length es
    → earliest_from now acc es xs us ≤ get_or us i 0
unfolding earliest_from
earliest-le now acc [] xs us h m i lt = absurd (omega arith)
earliest-le now acc (e ∷ es) [] us h m i lt = absurd m
earliest-le now acc (e ∷ es) (x ∷ xs) [] h m i lt = absurd m
earliest-le now acc (e ∷ es) (x ∷ xs) (u ∷ us) h m zero lt =
    ground (arith, earliest-le_acc now acc es xs us h, earliest-le_acc now u es xs us h)
earliest-le now acc (e ∷ es) (x ∷ xs) (u ∷ us) h m (suc i) lt =
    earliest-le now (sooner now acc x u) es xs us h m.2 i (omega arith)

-- No token is selected: every entry is blocked.
dry-AllMarked :
    (p : TokenPool) (now : Time)
    → IsValid p
    → (pick p now).1 ≡ none
    → AllMarked now p.entries p.exhausted p.exhausted_until
dry-AllMarked p now v e =
    all_marked now p.entries p.exhausted p.exhausted_until v.exhausted_length v.until_length
      (λ i lt. dry-blocked p now v e i lt)

-- Token fails only when no entry is active: a pool with an active token hands one out.
pub active_count-pick :
    (p : TokenPool) (now : Time) → IsValid p → 0 < active_count p now → (pick p now).1 ≢ none
unfolding active_count
active_count-pick p now v h e =
    omega (
      arith,
      active-AllMarked now p.entries p.exhausted p.exhausted_until (dry-AllMarked p now v e),
    )

-- When Token finds no token in a valid pool with entries, EarliestReset is exactly how long that
-- lasts: from then on, Token selects a token at a later time if and only if that time is after
-- the earliest reset.
pub earliest_reset-exact :
    (p : TokenPool) (now later : Time)
    → IsValid p
    → 0 < length p.entries
    → 0 < now
    → (pick p now).1 ≡ none
    → now ≤ later
    → ((pick p later).1 ≢ none) ↔ (earliest_reset p now < later)
unfolding earliest_reset
earliest_reset-exact p now later v n h dry le = (
  λ some'. elim (dec_lt (earliest_from now 0 p.entries p.exhausted p.exhausted_until) later) [
    | yes lt ↦ lt
    | no ge ↦ absurd (some' (still_dry (omega arith)))
  ],
  λ lt e. absurd (
      omega (
        arith,
        earliest-ge now later 0 p.entries p.exhausted p.exhausted_until le
            (dry-AllMarked p later v e) (inr (refl, n)),
      )),
)
  where
    still_dry :
        later ≤ earliest_from now 0 p.entries p.exhausted p.exhausted_until
        → (pick p later).1 ≡ none
    still_dry ge = blocked-dry p later v (λ i lt. ground (
      arith,
      dry-blocked p now v dry i lt,
      earliest-le now 0 p.entries p.exhausted p.exhausted_until h (dry-AllMarked p now v dry) i lt,
    ))
