-- ===== src/Score/Fixed.antt =====
-- Numbers in hundredths, rounded down, as an instance of the interface: its laws can be met. The
-- logarithm is the identity and the exponential of a decay is 0.
use devtrace.Score.Float.{IsFloat, Float}
use devtrace.Base.Int.{negsuc, pos, ℤ}
use Prim.Native.Nat.{min, max, ℕ, ◌^◌}
use devtrace.Base.{refl, true, ◌≡◌, ltb, leb, ◌-◌, ◌+◌, ◌/◌, arith, ◌≤◌, ◌<◌, ◌*◌}

abbrev pub hundredths : ℤ → ℕ
hundredths (pos n) = 100 * n
hundredths (negsuc n) = 0

instance abbrev pub ℕ_float : Float ℕ
ℕ_float = record {
  ratio = λ p q. 100 * p / q;
  of_int = hundredths;
  to_int = λ x. pos (x / 100);
  sum = λ x y. x + y;
  difference = λ x y. x - y;
  product = λ x y. x * y / 100;
  quotient = λ x y. x * 100 / y;
  at_most = leb;
  less = ltb;
  log = λ x. x;
  exp = λ x. 0;
  pow = λ x y. 100 * (x / 100) ^ (y / 100);
  round = λ x. (x + 50) / 100 * 100;
  negated = λ x. x;
  ln2 = 69;
  max_of = max;
  min_of = min;
}

div-le : (a b : ℕ) → 0 < b → a ≤ 100 * b → a / b ≤ 100
div-le a b h le = grind arith

div_mono : (a b c : ℕ) → 0 < c → a ≤ b → a / c ≤ b / c
div_mono a b c h le = grind arith

product_in : (x y : ℕ) → x ≤ 100 → y ≤ 100 → x * y / 100 ≤ 100
product_in x y h k = grind arith

hf : (x n : ℕ) → leb x 100 ≡ true → leb (x * (100 * n) / 100) (100 * n) ≡ true
hf x n h =
    let e : x * (100 * n) / 100 ≡ x * n = grind arith in
    let small : x ≤ 100 = ground arith in
    let le : x * n ≤ 100 * n = grind arith in rw e (ground arith)

comm : (x y : ℕ) → x * y / 100 ≡ y * x / 100
comm x y = let e : x * y ≡ y * x = grind arith in rw e refl

pow : (p : ℕ) → 100 * 10 ^ (100 * p / 100) ≡ 100 * 10 ^ p
pow p = let e : 100 * p / 100 ≡ p = omega arith in rw e refl

pub ℕ-IsFloat : IsFloat ℕ
ℕ-IsFloat = record {
  le_trans = λ x y z h k. ground arith;
  refl_of_le = λ x y h. (ground arith, ground arith);
  less-of_not_le = λ x y h k e. ground arith;
  le-of_less = λ x y h. ground arith;
  le-of_not_less = λ x y h k e. ground arith;
  of_nat_mono = λ m n h. ground arith;
  of_int_refl = λ i. ground arith;
  ratio_bounds = λ p q h k. (ground arith, ground (arith, div-le (100 * p) q));
  ratio_mono = λ p q r h k. ground (arith, div_mono (100 * p) (100 * q) r);
  sum_nonneg = λ x y h k. ground arith;
  scaled_nonneg = λ x p q h k l m e. ground arith;
  product_bounds = λ x y h k. (ground arith, ground (arith, product_in x y));
  hundredfold = λ x n l h. (ground arith, hf x n h.1);
  complement = λ x h. (ground arith, ground arith);
  quotient_counts = λ m n h k l. ground arith;
  quotient_counts_le =
      λ m n h k l. (ground arith, ground (arith, div-le (100 * m * 100) (100 * n)));
  quotient_less = λ x y h k. (ground arith, ground (arith, div-le (x * 100) y));
  quotient_month = λ m n h k l. ground arith;
  max_nonneg = λ x y h k. ground arith;
  min_one = λ x h. (ground arith, ground arith);
  log_quotient = λ x n h l k. ground arith;
  log_reciprocal = λ n h l. ground arith;
  exp_decay_bounds = λ n h l k. (ground arith, ground arith);
  product_comm = λ x y h k. comm x y;
  pow_ten = λ p h. pow p;
  round_bounds = λ x n l h k. ((x + 50) / 100, ground arith, ground arith);
}
