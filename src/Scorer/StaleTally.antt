-- ===== src/Scorer/StaleTally.antt =====
-- Counting the contributors of a pass of rescoreStale (pkg/background/scorer.go) by outcome.
use devtrace.Scorer.Stale.{StaleBatch}
use devtrace.Scorer.Drain.{remove, is_running, Outcome, scored, no_tokens, terminal, failed}
use devtrace.Base.{
  inr, inl, Bool-cases, ◌&&◌, zero, if◌then◌else◌, suc, nat_eq, Bool, refl, ◌+◌, length, ◌<◌, true,
  false, [], arith, ◌≡◌, ◌≤◌, ◌∷◌, ℕ, List,
}

abbrev pub is_scored : Outcome → Bool
is_scored scored = true
is_scored no_tokens = false
is_scored terminal = false
is_scored failed = false

abbrev pub is_err : Outcome → Bool
is_err scored = false
is_err no_tokens = true
is_err terminal = false
is_err failed = true

abbrev pub is_terminal : Outcome → Bool
is_terminal scored = false
is_terminal no_tokens = false
is_terminal terminal = true
is_terminal failed = false

abbrev pub one_if : Bool → ℕ
one_if b = if b then 1 else 0

-- How many of a list pass a test, and how many of the first `n` contributors do.
abbrev pub tally : (ℕ → Bool) → List ℕ → ℕ
tally q [] = 0
tally q (j ∷ js) = one_if (q j) + tally q js

abbrev pub among : (ℕ → Bool) → ℕ → ℕ
among q zero = 0
among q (suc n) = one_if (q n) + among q n

pub among-next : (q : ℕ → Bool) (n : ℕ) → among q (n + 1) ≡ one_if (q n) + among q n
among-next q n = let e : n + 1 ≡ suc n = omega arith in rw e refl

abbrev pub is_tomb_of : StaleBatch → ℕ → ℕ → Bool
is_tomb_of b k j = nat_eq j k && is_terminal (b.outcome j)

pub tally-remove :
    (q : ℕ → Bool) (i : ℕ) (js : List ℕ)
    → is_running i js ≡ true
    → tally q (remove i js) + one_if (q i) ≡ tally q js
tally-remove q i [] r = cc
tally-remove q i (j ∷ js) r = elim (Bool-cases (nat_eq j i)) [
  | inl same ↦ (let e : j ≡ i = ground arith in rw (same, e) (omega arith))
  | inr other ↦ rw other (omega (arith, tally-remove q i js (let r' = rw other at r in r')))
]

none_later : (b : StaleBatch) (k n : ℕ) → n ≤ k → among (is_tomb_of b k) n ≡ 0
none_later b k zero h = refl
none_later b k (suc n) h = ground (arith, none_later b k n (omega arith))

pub among-at :
    (b : StaleBatch) (k n : ℕ)
    → k < n
    → among (is_tomb_of b k) n ≡ one_if (is_terminal (b.outcome k))
among-at b k zero h = absurd (omega arith)
among-at b k (suc n) h = elim (Bool-cases (nat_eq n k)) [
  | inl last ↦
      (let e : n ≡ k = ground arith in rw (last, e) (omega (arith, none_later b k k (omega arith))))
  | inr earlier ↦ rw earlier (omega (arith, among-at b k n (ground arith)))
]

pub tally-empty : (q : ℕ → Bool) (js : List ℕ) → length js ≡ 0 → tally q js ≡ 0
tally-empty q [] h = refl
tally-empty q (j ∷ js) h = absurd (omega arith)
