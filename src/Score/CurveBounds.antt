-- ===== src/Score/CurveBounds.antt =====
-- The curves stay between 0 and 1.
use devtrace.Score.Curves.{
  association_base, profile_count, one_w, zero_w, association_score, profile_score, to_fixed,
  exp_decay, log_curve, clamped_ratio,
}
use devtrace.Score.Float.{max_int, ◌⊗◌, ◌⊘◌, ◌⊕◌, of_nat, IsNonneg, ◌≼◌, InUnit, IsFloat, Float}
use devtrace.Score.Signals.{InputSignals}
use Prim.Native.Nat.{◌^◌}
use native.Mathlib.Nat.{pow-le-pow_right}
use devtrace.Base.Int.{pos}
use devtrace.Base.{
  true, false, true, refl, if◌then◌else◌, ◌≡◌, ◌||◌, inr, inl, Bool-cases, Bool, ◌<◌, arith, String,
  ℕ, ◌≤◌,
}

module _ {W : Type 0} ⦃f : Float W⦄ (laws : IsFloat W) where
  open laws use {
    le_trans, refl_of_le, less-of_not_le, le-of_less, le-of_not_less, of_nat_mono, of_int_refl,
    ratio_bounds, sum_nonneg, scaled_nonneg, product_bounds, hundredfold, complement,
    quotient_counts, quotient_counts_le, quotient_less, quotient_month, max_nonneg, min_one,
    log_quotient, log_reciprocal, exp_decay_bounds, product_comm, pow_ten, round_bounds,
  }

  pub zero-InUnit : InUnit {W = W} zero_w
  zero-InUnit = (of_nat_mono 0 0 (omega arith), of_nat_mono 0 1 (omega arith))

  pub one-InUnit : InUnit {W = W} one_w
  one-InUnit = (of_nat_mono 0 1 (omega arith), of_nat_mono 1 1 (omega arith))

  -- A value that is not a NaN; a negative one is clamped to 0.
  pub clamped_ratio-InUnit :
      (val : W) (ceil : W) → val ≼ val → IsNonneg ceil → InUnit (clamped_ratio val ceil)
  unfolding clamped_ratio
  clamped_ratio-InUnit val ceil v c = elim (Bool-cases (f.at_most ceil zero_w)) [
    | inl low ↦ rw low zero-InUnit
    | inr high ↦ rw high (elim (Bool-cases (f.at_most val zero_w)) [
      | inl neg ↦ rw neg zero-InUnit
      | inr positive ↦ rw positive (elim (Bool-cases (f.at_most ceil val)) [
        | inl full ↦ rw full one-InUnit
        | inr part ↦ rw part (
            quotient_less val ceil
              (le-of_less zero_w val
                (less-of_not_le zero_w val (refl_of_le zero_w ceil c).0 v positive))
              (less-of_not_le val ceil v (refl_of_le zero_w ceil c).1 part))
      ])
    ])
  ]

  pub log_curve-InUnit :
      (val : W) (n : ℕ) → 0 < n → n ≤ max_int → IsNonneg val → InUnit (log_curve val (of_nat n))
  unfolding log_curve
  log_curve-InUnit val n above small v =
      let r = f.log (one_w ⊕ val) ⊘ f.log (one_w ⊕ of_nat n) in
      let r_nonneg = log_quotient val n above small v in
      elim (Bool-cases (f.at_most (of_nat n) zero_w || f.at_most val zero_w)) [
        | inl low ↦ rw low zero-InUnit
        | inr high ↦ rw high (elim (Bool-cases (f.at_most one_w r)) [
          | inl full ↦ rw full one-InUnit
          | inr part ↦ rw part (
            r_nonneg,
            le-of_less r one_w (
                less-of_not_le r one_w (refl_of_le zero_w r r_nonneg).1 (of_int_refl (pos 1)) part),
          )
        ])
      ]

  pub exp_decay-InUnit :
      (n : ℕ) (h : W) → n ≤ max_int → IsNonneg h → InUnit (exp_decay (of_nat n) h)
  unfolding exp_decay
  exp_decay-InUnit n h small p = elim (Bool-cases (f.at_most h zero_w)) [
    | inl low ↦ rw low zero-InUnit
    | inr high ↦ rw high (elim (Bool-cases (f.at_most (of_nat n) zero_w)) [
      | inl fresh ↦ rw fresh one-InUnit
      | inr old ↦ rw old (
          exp_decay_bounds n h small
            (less-of_not_le zero_w h (refl_of_le zero_w h p).0 (refl_of_le zero_w h p).1 high))
    ])
  ]

  ten_powers : (p : ℕ) → p ≤ 15 → (10 ^ p ≤ max_int) × (10 ^ p ≤ 10 ^ 15)
  ten_powers p small =
      let le : 10 ^ p ≤ 10 ^ 15 = pow-le-pow_right (omega arith) small in (omega (arith, le), le)

  -- A number from 0 to 1 is rounded to a whole number of steps.
  pub to_fixed_lem :
      (x : W) (p : ℕ)
      → p ≤ 15
      → InUnit x
      → (k : ℕ) × (k ≤ 10 ^ p) × (to_fixed x p ≡ of_nat k ⊘ of_nat (10 ^ p))
  unfolding to_fixed
  to_fixed_lem x p small u =
      let (one_digit, few) = ten_powers p small in
      let (low, high) = hundredfold x (10 ^ p) one_digit u in
      let (k, e, le) = round_bounds (x ⊗ of_nat (10 ^ p)) (10 ^ p) few low high in
      (k, le, rw (pow_ten p small, e) refl)

  pub profile_score-InUnit : (s : InputSignals) → InUnit {W = W} (profile_score s)
  unfolding profile_score
  profile_score-InUnit s =
      quotient_counts_le (profile_count s) 5 (ground arith) (omega arith) (omega arith)

  pub InUnit-if : (b : Bool) (x y : W) → InUnit x → InUnit y → InUnit (if b then x else y)
  InUnit-if true x y u v = u
  InUnit-if false x y u v = v

  pub IsNonneg-if : (b : Bool) (x y : W) → IsNonneg x → IsNonneg y → IsNonneg (if b then x else y)
  IsNonneg-if true x y u v = u
  IsNonneg-if false x y u v = v

  pub association_base-InUnit : (a : String) (m : Bool) → InUnit {W = W} (association_base a m)
  association_base-InUnit a m =
      let full = ratio_bounds 1 1 (omega arith) (omega arith) in
      let nothing = ratio_bounds 0 1 (omega arith) (omega arith) in
      InUnit-if _ _ _ full (
        InUnit-if _ _ _ (ratio_bounds 8 10 (omega arith) (omega arith)) (
          InUnit-if _ _ _ (ratio_bounds 5 10 (omega arith) (omega arith)) (
            InUnit-if _ _ _ (ratio_bounds 2 10 (omega arith) (omega arith))
              (InUnit-if _ _ _ nothing (InUnit-if _ _ _ full nothing)))))

  pub association_score-InUnit :
      (a : String) (m t : Bool) → InUnit {W = W} (association_score a m t)
  unfolding association_score
  association_score-InUnit a m t =
      InUnit-if _ _ _ (ratio_bounds 8 10 (omega arith) (omega arith)) (association_base-InUnit a m)
