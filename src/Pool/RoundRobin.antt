-- ===== src/Pool/RoundRobin.antt =====
-- TokenPool.Token against its contract: the first entry from the cursor that is not blocked, in
-- cyclic order.
use devtrace.Pool.Invariant.{round-IsValid, entries-round, IsValid}
use devtrace.Base.Time.{Time}
use devtrace.Base.{
  refl, fun_ext, ap, ◌∙◌, true, ℕ, zero, suc, ◌+◌, ◌%◌, ◌≤◌, ◌<◌, ◌≡◌, Bool, false, inl, inr,
  Option, none, some, length, get_or-set_self, get_or-set_ne, arith, Bool-cases, if◌then◌else◌,
  nat_eq,
}
use devtrace.Pool.Defs.{TokenPool, blocked, exhausted_at}
use devtrace.Pool.Token.{grant, scan, advance, auto_reset}

-- The contract: the first index that is free, in at most `k` steps from `c` round a circle of `n`.
unfoldable pub first_free : (ℕ → Bool) → ℕ → ℕ → ℕ → Option ℕ
first_free taken n zero c = none
first_free taken n (suc k) c =
    let rest = first_free taken n k ((c + 1) % n) in if taken c then rest else some c

-- Resetting a token whose time has come changes nothing that is seen from then on.
pub blocked-auto_reset :
    (p : TokenPool) (i j : ℕ) (now later : Time)
    → i < length p.exhausted
    → now ≤ later
    → blocked (auto_reset p i now) later j ≡ blocked p later j
unfolding auto_reset
blocked-auto_reset p i j now later h le = elim (Bool-cases (nat_eq i j)) [
  | inl e ↦
      (let same : i ≡ j = ground arith in
        rw (← same) (ground (arith, get_or-set_self p.exhausted i false false h)))
  | inr e ↦ ground (arith, get_or-set_ne p.exhausted i j false false)
]

exhausted-auto_reset :
    (p : TokenPool) (i : ℕ) (now : Time)
    → i < length p.exhausted
    → exhausted_at (auto_reset p i now) i ≡ blocked p now i
unfolding auto_reset
exhausted-auto_reset p i now h = ground (arith, get_or-set_self p.exhausted i false false h)

-- The pool that the next round of the loop sees.
abbrev pub round : TokenPool → Time → TokenPool
round p now = auto_reset (advance p) p.current now

cursor_in_range :
    (p : TokenPool) → IsValid p → 0 < length p.entries → p.current < length p.exhausted
cursor_in_range p v h = omega (arith, v)

blocked-round :
    (p : TokenPool) (now later : Time) (j : ℕ)
    → IsValid p
    → 0 < length p.entries
    → now ≤ later
    → blocked (round p now) later j ≡ blocked p later j
unfolding advance
blocked-round p now later j v h le =
    blocked-auto_reset (advance p) p.current j now later (cursor_in_range p v h) le

exhausted-round :
    (p : TokenPool) (now : Time)
    → IsValid p
    → 0 < length p.entries
    → exhausted_at (round p now) p.current ≡ blocked p now p.current
unfolding advance
exhausted-round p now v h = exhausted-auto_reset (advance p) p.current now (cursor_in_range p v h)

current-round :
    (p : TokenPool) (now : Time) → (round p now).current ≡ (p.current + 1) % length p.entries
unfolding auto_reset advance
current-round p now = ground arith

pub counts-round : (p : TokenPool) (now : Time) → (round p now).counts ≡ p.counts
unfolding auto_reset advance
counts-round p now = ground arith

pub scan_choice :
    (k : ℕ) (p : TokenPool) (now : Time)
    → k ≤ length p.entries
    → IsValid p
    → (scan k now p).1 ≡ first_free (blocked p now) (length p.entries) k p.current
unfolding scan first_free
scan_choice zero p now h v = refl
scan_choice (suc k) p now h v = elim (Bool-cases (blocked p now p.current)) [
  | inl e ↦
      (let hit : exhausted_at (round p now) p.current ≡ true =
          exhausted-round p now v (omega arith) ∙ e in
        let same : blocked (round p now) now ≡ blocked p now =
          fun_ext (λ j. blocked-round p now now j v (omega arith) (omega arith)) in
        rw (hit, scan, e, first_free)
          (scan_choice k (round p now) now (omega (arith, ap length (entries-round p now)))
              (round-IsValid p now (omega arith) v)
            ∙ rw (same, entries-round p now, current-round p now) refl))
  | inr e ↦
      (let miss : exhausted_at (round p now) p.current ≡ false =
          exhausted-round p now v (omega arith) ∙ e in
        rw (miss, scan, e, first_free) refl)
]

-- What a selection leaves behind: the entries stay, and no later moment sees a token more or less
-- blocked than before.
blocked-scan :
    (k : ℕ) (p : TokenPool) (now later : Time) (j : ℕ)
    → k ≤ length p.entries
    → IsValid p
    → now ≤ later
    → blocked (scan k now p).0 later j ≡ blocked p later j
unfolding scan
blocked-scan zero p now later j h v le = refl
blocked-scan (suc k) p now later j h v le =
    elim (Bool-cases (exhausted_at (round p now) p.current)) [
      | inl e ↦
          rw (e, scan)
            (blocked-scan k (round p now) now later j
                (omega (arith, ap length (entries-round p now)))
                (round-IsValid p now (omega arith) v) le
              ∙ blocked-round p now later j v (omega arith) le)
      | inr e ↦
          rw (e, scan)
            (blocked-grant (round p now) p.current now later j
              ∙ blocked-round p now later j v (omega arith) le)
    ]
  where
    blocked-grant :
        (q : TokenPool) (i : ℕ) (now later : Time) (j : ℕ)
        → blocked (grant q i now) later j ≡ blocked q later j
    blocked-grant q i now later j = ground arith
