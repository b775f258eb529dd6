-- ===== src/Base/Rows.antt =====
-- The rows of a table: those that a test keeps, how many these are, and what holds of all of them.
use devtrace.Base.{zero}
use Prim.Native.Nat.{suc, ℕ, ◌+◌, ◌≤◌}
use mathlib.Core.Path.{◌≡◌, refl}
use mathlib.Core.Bool.{Bool, true, false}
use mathlib.Core.Logic.{inl, inr}
use mathlib.Core.List.{List, [], ◌∷◌, ◌++◌}
use native.Mathlib.Omega.{arith}
use devtrace.Base.Tests.{if◌then◌else◌, Bool-cases}
use devtrace.Base.Lists.{length, take, drop}

module _ {ℓ} {A : Type ℓ} where
  unfoldable pub filter : (A → Bool) → List A → List A
  filter p [] = []
  filter p (x ∷ xs) = let rest = filter p xs in if p x then x ∷ rest else rest

  unfoldable pub count : (A → Bool) → List A → ℕ
  count p [] = 0
  count p (x ∷ xs) = (if p x then 1 else 0) + count p xs

  abbrev pub All {κ} : (A → Type κ) → List A → Type κ
  All P [] = Unit
  All P (x ∷ xs) = P x × All P xs

  pub length-filter : (p : A → Bool) (xs : List A) → length (filter p xs) ≡ count p xs
  unfolding filter count
  length-filter p [] = refl
  length-filter p (x ∷ xs) = ground (arith, length-filter p xs)

  pub count-le-length : (p : A → Bool) (xs : List A) → count p xs ≤ length xs
  unfolding count
  count-le-length p [] = omega arith
  count-le-length p (x ∷ xs) = ground (arith, count-le-length p xs)

  pub count-append : (p : A → Bool) (xs ys : List A) → count p (xs ++ ys) ≡ count p xs + count p ys
  unfolding count
  count-append p [] ys = omega arith
  count-append p (x ∷ xs) ys = omega (arith, count-append p xs ys)

  pub filter-All : (p : A → Bool) (xs : List A) → All (λ x. p x ≡ true) (filter p xs)
  unfolding filter
  filter-All p [] = tt
  filter-All p (x ∷ xs) = elim (Bool-cases (p x)) [
    | inl h ↦ rw h (h, filter-All p xs)
    | inr h ↦ rw h (filter-All p xs)
  ]

  -- If the one test keeps what the other keeps, the rows of the other stay as they are.
  pub filter-filter :
      (p q : A → Bool) (xs : List A)
      → All (λ x. p x ≡ true → q x ≡ true) xs
      → filter p (filter q xs) ≡ filter p xs
  unfolding filter
  filter-filter p q [] h = refl
  filter-filter p q (x ∷ xs) h = ground (arith, h.0, filter-filter p q xs h.1)

  pub filter_none : (p : A → Bool) (xs : List A) → All (λ x. p x ≡ false) xs → filter p xs ≡ []
  unfolding filter
  filter_none p [] h = refl
  filter_none p (x ∷ xs) h = rw (h.0, filter_none p xs h.1)

module _ {ℓ κ} {A : Type ℓ} where
  pub All-append : (P : A → Type κ) (xs ys : List A) → All P xs → All P ys → All P (xs ++ ys)
  All-append P [] ys h k = k
  All-append P (x ∷ xs) ys h k = (h.0, All-append P xs ys h.1 k)

  pub All-map {μ} :
      (P : A → Type κ) (Q : A → Type μ) (xs : List A) → ((x : A) → P x → Q x) → All P xs → All Q xs
  All-map P Q [] f h = tt
  All-map P Q (x ∷ xs) f h = (f x h.0, All-map P Q xs f h.1)

  pub All-both {μ} :
      (P : A → Type κ) (Q : A → Type μ) (xs : List A)
      → All P xs
      → All Q xs
      → All (λ x. P x × Q x) xs
  All-both P Q [] h k = tt
  All-both P Q (x ∷ xs) h k = ((h.0, k.0), All-both P Q xs h.1 k.1)

  pub All-of_each : (P : A → Type κ) (xs : List A) → ((x : A) → P x) → All P xs
  All-of_each P [] f = tt
  All-of_each P (x ∷ xs) f = (f x, All-of_each P xs f)

  pub All-filter : (P : A → Type κ) (p : A → Bool) (xs : List A) → All P xs → All P (filter p xs)
  unfolding filter
  All-filter P p [] h = tt
  All-filter P p (x ∷ xs) h = elim (Bool-cases (p x)) [
    | inl e ↦ rw e (h.0, All-filter P p xs h.1)
    | inr e ↦ rw e (All-filter P p xs h.1)
  ]

  pub All-of_filter :
      (P : A → Type κ) (p : A → Bool) (xs : List A)
      → All P (filter p xs)
      → All (λ x. p x ≡ true → P x) xs
  unfolding filter
  All-of_filter P p [] h = tt
  All-of_filter P p (x ∷ xs) h = elim (Bool-cases (p x)) [
    | inl e ↦ let h' : All P (x ∷ filter p xs) = rw e at h in (λ f. h'.0, All-of_filter P p xs h'.1)
    | inr e ↦
        let h' : All P (filter p xs) = rw e at h in
        (λ f. absurd (ground (arith, e, f)), All-of_filter P p xs h')
  ]

  pub All-drop : (P : A → Type κ) (n : ℕ) (xs : List A) → All P xs → All P (drop n xs)
  All-drop P zero xs h = h
  All-drop P (suc n) [] h = tt
  All-drop P (suc n) (x ∷ xs) h = All-drop P n xs h.1

  pub All-of_take-drop :
      (P : A → Type κ) (n : ℕ) (xs : List A) → All P (take n xs) → All P (drop n xs) → All P xs
  All-of_take-drop P zero xs h k = k
  All-of_take-drop P (suc n) [] h k = tt
  All-of_take-drop P (suc n) (x ∷ xs) h k = (h.0, All-of_take-drop P n xs h.1 k)

module _ {ℓ} {A : Type ℓ} where
  pub count_none : (p : A → Bool) (xs : List A) → All (λ x. p x ≡ false) xs → count p xs ≡ 0
  unfolding count
  count_none p [] h = refl
  count_none p (x ∷ xs) h = rw h.0 (omega (arith, count_none p xs h.1))

  pub count-filter : (p q : A → Bool) (xs : List A) → count p (filter q xs) ≡ count q (filter p xs)
  unfolding count filter
  count-filter p q [] = refl
  count-filter p q (x ∷ xs) = ground (arith, count-filter p q xs)
