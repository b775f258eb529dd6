-- ===== src/Score/Float.antt =====
-- What the score engine uses of float64 and of package math, as an interface, and the laws of IEEE
-- arithmetic that its theorems need.
use devtrace.Base.Int.{pos, ℤ}
use Prim.Native.Nat.{◌^◌}
use devtrace.Base.{◌<◌, ◌≤◌, false, Bool, true, ◌≡◌, ℕ}

pub record Float (W : Type 0) : Type 0 where
  -- A constant p / q, rounded to the nearest float.
  pub ratio : ℕ → ℕ → W
  -- float64(i) and int(x)
  pub of_int : ℤ → W
  pub to_int : W → ℤ
  pub sum : W → W → W
  pub difference : W → W → W
  pub product : W → W → W
  pub quotient : W → W → W
  -- x <= y and x < y
  pub at_most : W → W → Bool
  pub less : W → W → Bool
  pub log : W → W
  pub exp : W → W
  pub pow : W → W → W
  pub round : W → W
  pub negated : W → W
  pub ln2 : W
  pub max_of : W → W → W
  pub min_of : W → W → W

module _ {W : Type 0} ⦃f : Float W⦄ where
  infixl 65 ◌⊕◌ ◌⊖◌
  infixl 70 ◌⊗◌ ◌⊘◌
  infix 4 ◌≼◌
  abbrev pub of_nat : ℕ → W
  of_nat n = f.of_int (pos n)

  abbrev pub ◌⊕◌ : W → W → W
  x ⊕ y = f.sum x y

  abbrev pub ◌⊖◌ : W → W → W
  x ⊖ y = f.difference x y

  abbrev pub ◌⊗◌ : W → W → W
  x ⊗ y = f.product x y

  abbrev pub ◌⊘◌ : W → W → W
  x ⊘ y = f.quotient x y

  -- False where one of them is NaN.
  abbrev pub ◌≼◌ : W → W → Type 0
  x ≼ y = f.at_most x y ≡ true

  -- A number that is not negative.
  abbrev pub IsNonneg : W → Type 0
  IsNonneg x = of_nat 0 ≼ x

  -- A number from 0 to 1.
  abbrev pub InUnit : W → Type 0
  InUnit x = (of_nat 0 ≼ x) × (x ≼ of_nat 1)

-- The greatest int of the code.
abbrev pub max_int : ℕ
max_int = 9223372036854775807

-- Laws of IEEE 754 arithmetic with rounding to nearest, and of the functions of package math. A
-- constant of the code is positive and finite; a count is an int, and so a finite float.
pub record IsFloat (W : Type 0) ⦃f : Float W⦄ : Type 0 where
  pub le_trans : (x y z : W) → x ≼ y → y ≼ z → x ≼ z
  pub refl_of_le : (x y : W) → x ≼ y → (x ≼ x) × (y ≼ y)
  pub less-of_not_le : (x y : W) → x ≼ x → y ≼ y → f.at_most y x ≡ false → f.less x y ≡ true
  pub le-of_less : (x y : W) → f.less x y ≡ true → x ≼ y
  pub le-of_not_less : (x y : W) → x ≼ x → y ≼ y → f.less y x ≡ false → x ≼ y
  pub of_nat_mono : (m n : ℕ) → m ≤ n → f.at_most (of_nat m) (of_nat n) ≡ true
  pub of_int_refl : (i : ℤ) → f.of_int i ≼ f.of_int i
  pub ratio_bounds : (p q : ℕ) → 0 < q → p ≤ q → InUnit (f.ratio p q)
  pub ratio_mono : (p q r : ℕ) → 0 < r → p ≤ q → f.ratio p r ≼ f.ratio q r
  pub sum_nonneg : (x y : W) → IsNonneg x → IsNonneg y → IsNonneg (x ⊕ y)
  pub scaled_nonneg :
      (x : W) (p q : ℕ)
      → 0 < p
      → 0 < q
      → p ≤ 100
      → q ≤ 100
      → IsNonneg x
      → IsNonneg (x ⊗ f.ratio p q)
  pub product_bounds : (x y : W) → InUnit x → InUnit y → InUnit (x ⊗ y)
  pub hundredfold :
      (x : W) (n : ℕ) → n ≤ max_int → InUnit x → IsNonneg (x ⊗ of_nat n) × (x ⊗ of_nat n ≼ of_nat n)
  pub complement : (x : W) → InUnit x → InUnit (of_nat 1 ⊖ x)
  pub quotient_counts :
      (m n : ℕ) → 0 < n → m ≤ max_int → n ≤ max_int → IsNonneg (f.quotient (of_nat m) (of_nat n))
  pub quotient_counts_le :
      (m n : ℕ) → m ≤ n → 0 < n → n ≤ max_int → InUnit (f.quotient (of_nat m) (of_nat n))
  -- Neither is negative and the first is less, which leaves out ∞ / ∞.
  pub quotient_less : (x y : W) → IsNonneg x → f.less x y ≡ true → InUnit (x ⊘ y)
  pub quotient_month :
      (m n : ℕ)
      → 0 < n
      → m ≤ max_int
      → n ≤ max_int
      → IsNonneg (of_nat m ⊘ f.max_of (of_nat n ⊘ f.ratio 30 1) (f.ratio 1 1))
  pub max_nonneg : (x y : W) → IsNonneg x → IsNonneg y → IsNonneg (f.max_of x y)
  pub min_one : (x : W) → IsNonneg x → InUnit (f.min_of x (of_nat 1))
  -- Both logarithms are of numbers from 1 on, and the one below is finite and not 0.
  pub log_quotient :
      (x : W) (n : ℕ)
      → 0 < n
      → n ≤ max_int
      → IsNonneg x
      → IsNonneg (f.log (of_nat 1 ⊕ x) ⊘ f.log (of_nat 1 ⊕ of_nat n))
  pub log_reciprocal :
      (n : ℕ) → 0 < n → n ≤ max_int → IsNonneg (of_nat 1 ⊘ f.log (of_nat 1 ⊕ of_nat n))
  -- The exponent is finite and not positive.
  pub exp_decay_bounds :
      (n : ℕ) (h : W)
      → n ≤ max_int
      → f.less (of_nat 0) h ≡ true
      → InUnit (f.exp ((f.negated (of_nat n) ⊗ f.ln2) ⊘ h))
  pub product_comm : (x y : W) → IsNonneg x → IsNonneg y → x ⊗ y ≡ y ⊗ x
  pub pow_ten : (p : ℕ) → p ≤ 15 → f.pow (of_nat 10) (of_nat p) ≡ of_nat (10 ^ p)
  pub round_bounds :
      (x : W) (n : ℕ)
      → n ≤ 10 ^ 15
      → IsNonneg x
      → x ≼ of_nat n
      → (k : ℕ) × (f.to_int (f.round x) ≡ pos k) × (k ≤ n)
