-- ===== src/Pool/Selection.antt =====
-- What one call of TokenPool.Token selects and what it leaves behind, and what a series of calls
-- hands out.
use devtrace.Pool.Invariant.{entries-round, IsValid}
use devtrace.Pool.RoundRobin.{scan_choice, counts-round, round, first_free}
use native.Mathlib.Nat.{add-mod_right, add-zero, mod-add-mod, mod-lt, mod-eq_of_lt}
use devtrace.Base.Time.{Time}
use devtrace.Base.{
  ◌≤◌, ◌-◌, dec_le, get_or, refl, set, length, Option, zero, sym, inr, ◌∙◌, inl, Bool-cases, none,
  some, arith, true, ap, false, suc, ◌≡◌, ◌<◌, ◌%◌, Bool, ◌+◌, ℕ,
}
use devtrace.Pool.Defs.{blocked, exhausted_at, TokenPool}
use devtrace.Pool.Token.{advance, auto_reset, scan, grant, pick}

mod_step : (c m n : ℕ) → ((c + 1) % n + m) % n ≡ (c + suc m) % n
mod_step c m n = rw (mod-add-mod (c + 1) n m) (ap (λ (t : ℕ). t % n) (omega arith))

-- The index that the contract finds, `j` steps from `c`, with every index before it taken.
abbrev pub Found : (ℕ → Bool) → ℕ → ℕ → ℕ → ℕ → Type 0
Found taken n k c i =
    (j : ℕ) × (j < k)
    × (i ≡ (c + j) % n)
    × (taken i ≡ false)
    × ((m : ℕ) → m < j → taken ((c + m) % n) ≡ true)

pub first_free-some :
    (taken : ℕ → Bool) (n k c i : ℕ) → c < n → first_free taken n k c ≡ some i → Found taken n k c i
unfolding first_free
first_free-some taken n zero c i h e = cc
first_free-some taken n (suc k) c i h e = elim (Bool-cases (taken c)) [
  | inl t ↦
      (let (j, lt, at, free, before) =
          first_free-some taken n k ((c + 1) % n) i (mod-lt (c + 1) (omega arith))
            (rw (t, first_free) at e) in
        (suc j, omega arith, at ∙ mod_step c j n, free, skipped taken n c j h t before))
  | inr f ↦
      (let here : c ≡ i = ground arith in
        (
          0,
          omega arith,
          sym here ∙ sym (rw add-zero (mod-eq_of_lt h)),
          rw (← here) f,
          λ m lt. absurd (omega arith),
        ))
]
  where
    skipped :
        (taken : ℕ → Bool) (n c j : ℕ)
        → c < n
        → taken c ≡ true
        → ((m : ℕ) → m < j → taken (((c + 1) % n + m) % n) ≡ true)
        → (m : ℕ) → m < suc j
        → taken ((c + m) % n) ≡ true
    skipped taken n c j h t before zero lt = rw (add-zero c, mod-eq_of_lt h) t
    skipped taken n c j h t before (suc m) lt = rw (← mod_step c m n) (before m (omega arith))

pub first_free-none :
    (taken : ℕ → Bool) (n k c : ℕ)
    → c < n
    → first_free taken n k c ≡ none
    → (m : ℕ) → m < k
    → taken ((c + m) % n) ≡ true
unfolding first_free
first_free-none taken n zero c h e m lt = absurd (omega arith)
first_free-none taken n (suc k) c h e zero lt =
    rw (add-zero c, mod-eq_of_lt h)
      (elim (Bool-cases (taken c)) [ inl t ↦ t | inr f ↦ absurd (cc (rw (f, first_free) at e)) ])
first_free-none taken n (suc k) c h e (suc m) lt = elim (Bool-cases (taken c)) [
  | inl t ↦ rw (← mod_step c m n) (
      first_free-none taken n k ((c + 1) % n) (mod-lt (c + 1) (omega arith))
        (rw (t, first_free) at e) m (omega arith))
  | inr f ↦ absurd (cc (rw (f, first_free) at e))
]

-- What one call leaves behind.
abbrev pub Chosen : TokenPool → Time → TokenPool × Option ℕ → Type 0
Chosen p now (q, none) =
    ((i : ℕ) → i < length p.entries → blocked p now i ≡ true) × (q.counts ≡ p.counts)
Chosen p now (q, some i) =
    Found (blocked p now) (length p.entries) (length p.entries) p.current i
    × (q.current ≡ (i + 1) % length p.entries)
    × (q.counts ≡ set p.counts i (get_or p.counts i 0 + 1))

-- The cursor and the counts that a loop of `k` rounds leaves.
Left : TokenPool → TokenPool × Option ℕ → Type 0
Left p (q, none) = q.counts ≡ p.counts
Left p (q, some i) =
    (q.current ≡ (i + 1) % length p.entries) × (q.counts ≡ set p.counts i (get_or p.counts i 0 + 1))

grant-Left :
    (p : TokenPool) (now : Time) → Left p (grant (round p now) p.current now, some p.current)
unfolding Left grant auto_reset advance
grant-Left p now = ground arith

Left-round :
    (p : TokenPool) (now : Time) (r : TokenPool × Option ℕ) → Left (round p now) r → Left p r
unfolding Left
Left-round p now (q, none) h = h ∙ counts-round p now
Left-round p now (q, some i) h = rw (counts-round p now, entries-round p now) at h

scan-Left : (k : ℕ) (p : TokenPool) (now : Time) → Left p (scan k now p)
unfolding scan Left
scan-Left zero p now = refl
scan-Left (suc k) p now = elim (Bool-cases (exhausted_at (round p now) p.current)) [
  | inl e ↦
      rw (e, scan) (Left-round p now (scan k now (round p now)) (scan-Left k (round p now) now))
  | inr e ↦ rw (e, scan) (grant-Left p now)
]

-- Every index below `n` is met in `n` steps from any cursor.
reached : (c i n : ℕ) → c < n → i < n → (m : ℕ) × (m < n) × ((c + m) % n ≡ i)
reached c i n hc hi = elim (dec_le c i) [
  | yes le ↦ (i - c, omega arith, ap (λ (t : ℕ). t % n) (omega arith) ∙ mod-eq_of_lt hi)
  | no gt ↦ (i + n - c, omega arith, ap (λ (t : ℕ). t % n) (omega arith) ∙ mod-wrap i n hi)
]
  where
    mod-wrap : (i n : ℕ) → i < n → (i + n) % n ≡ i
    mod-wrap i n h = rw (add-mod_right i n, mod-eq_of_lt h)

pick_cases :
    (p : TokenPool) (now : Time) (r : TokenPool × Option ℕ)
    → p.current < length p.entries
    → Left p r
    → r.1 ≡ first_free (blocked p now) (length p.entries) (length p.entries) p.current
    → Chosen p now r
unfolding Left
pick_cases p now (q, none) h left e = (
  λ i lt.
      let (m, below, at) = reached p.current i (length p.entries) h lt in
      rw (← at) (first_free-none (blocked p now) _ _ _ h (sym e) m below),
  left,
)
pick_cases p now (q, some i) h left e =
    (first_free-some (blocked p now) _ _ _ _ h (sym e), left.0, left.1)

-- On a valid pool with entries, Token selects the first entry from the cursor, in cyclic order,
-- that is not exhausted or whose reset time has passed; all before it are blocked. The cursor then
-- stands just behind it and its use is counted, and no other. Token selects none only if every
-- entry is blocked.
pub pick-Chosen :
    (p : TokenPool) (now : Time) → IsValid p → 0 < length p.entries → Chosen p now (pick p now)
unfolding pick
pick-Chosen p now v h =
    pick_cases p now _ (omega (arith, v)) (scan-Left (length p.entries) p now)
      (scan_choice (length p.entries) p now (omega arith) v)

-- The index that Token selects is the one of the round-robin contract, which goes through the
-- entries once from the cursor and looks at the marks only, not at the expiry of a token.
pub pick-first_free :
    (p : TokenPool) (now : Time)
    → IsValid p
    → (pick p now).1 ≡ first_free (blocked p now) (length p.entries) (length p.entries) p.current
unfolding pick
pick-first_free p now v = scan_choice (length p.entries) p now (omega arith) v

-- Token selects none exactly when every entry is blocked.
pub dry-blocked :
    (p : TokenPool) (now : Time)
    → IsValid p
    → (pick p now).1 ≡ none
    → (i : ℕ) → i < length p.entries
    → blocked p now i ≡ true
dry-blocked p now v e i lt =
    let (m, below, at) = reached p.current i (length p.entries) (omega (arith, v)) lt in
    rw (← at) (
      first_free-none (blocked p now) _ _ _ (omega (arith, v)) (sym (pick-first_free p now v) ∙ e) m
        below)

first_free-all_taken :
    (taken : ℕ → Bool) (n k c : ℕ)
    → c < n
    → ((i : ℕ) → i < n → taken i ≡ true)
    → first_free taken n k c ≡ none
unfolding first_free
first_free-all_taken taken n zero c h all = refl
first_free-all_taken taken n (suc k) c h all =
    rw (all c h) (first_free-all_taken taken n k ((c + 1) % n) (mod-lt (c + 1) (omega arith)) all)

first_free-circle :
    (taken : ℕ → Bool) (n c : ℕ)
    → c ≤ n - 1
    → ((i : ℕ) → i < n → taken i ≡ true)
    → first_free taken n n c ≡ none
unfolding first_free
first_free-circle taken zero c h all = refl
first_free-circle taken (suc n) c h all =
    first_free-all_taken taken (suc n) (suc n) c (omega arith) all

pub blocked-dry :
    (p : TokenPool) (now : Time)
    → IsValid p
    → ((i : ℕ) → i < length p.entries → blocked p now i ≡ true)
    → (pick p now).1 ≡ none
blocked-dry p now v all =
    pick-first_free p now v
    ∙ first_free-circle (blocked p now) (length p.entries) p.current v.cursor all
