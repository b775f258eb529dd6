-- ===== src/Base/Order.antt =====
-- The stable order of `ORDER BY` and of Go's sort.SliceStable.
use Prim.Native.Nat.{ℕ, zero, suc, ◌+◌}
use mathlib.Core.Path.{◌≡◌, refl}
use mathlib.Core.Bool.{Bool, true, false}
use mathlib.Core.Logic.{inl, inr}
use mathlib.Core.List.{List, [], ◌∷◌}
use native.Mathlib.Omega.{arith}
use devtrace.Base.Tests.{if◌then◌else◌, Bool-cases}
use devtrace.Base.Lists.{length, take, drop}
use devtrace.Base.Rows.{All, count, All-drop}

module _ {ℓ} {A : Type ℓ} (less : A → A → Bool) where
  abbrev pub insert_ordered : A → List A → List A
  insert_ordered x [] = x ∷ []
  insert_ordered x (y ∷ ys) =
      let rest = insert_ordered x ys in if less y x then y ∷ rest else x ∷ y ∷ ys

  unfoldable pub sort_stable : List A → List A
  sort_stable [] = []
  sort_stable (x ∷ xs) = insert_ordered x (sort_stable xs)

  -- Nothing stands before what is less.
  abbrev pub IsOrdered : List A → Type ℓ
  IsOrdered [] = Unit
  IsOrdered (x ∷ xs) = All (λ y. less y x ≡ false) xs × IsOrdered xs

-- A strict weak order.
pub record IsWeakOrder {ℓ} {A : Type ℓ} (less : A → A → Bool) : Type ℓ where
  pub asymmetric : (x y : A) → less x y ≡ true → less y x ≡ false
  pub transitive : (x y z : A) → less y x ≡ false → less z y ≡ false → less z x ≡ false

module _ {ℓ} {A : Type ℓ} (less : A → A → Bool) where
  pub count-insert_ordered :
      (p : A → Bool) (x : A) (xs : List A)
      → count p (insert_ordered less x xs) ≡ (if p x then 1 else 0) + count p xs
  unfolding count
  count-insert_ordered p x [] = refl
  count-insert_ordered p x (y ∷ ys) = elim (Bool-cases (less y x)) [
    | inl e ↦ rw e (omega (arith, count-insert_ordered p x ys))
    | inr e ↦ rw e refl
  ]

  pub count-sort_stable : (p : A → Bool) (xs : List A) → count p (sort_stable less xs) ≡ count p xs
  unfolding count sort_stable
  count-sort_stable p [] = refl
  count-sort_stable p (x ∷ xs) =
      omega (arith, count-insert_ordered p x (sort_stable less xs), count-sort_stable p xs)

  pub length-insert_ordered :
      (x : A) (xs : List A) → length (insert_ordered less x xs) ≡ length xs + 1
  length-insert_ordered x [] = omega arith
  length-insert_ordered x (y ∷ ys) = elim (Bool-cases (less y x)) [
    | inl e ↦ rw e (omega (arith, length-insert_ordered x ys))
    | inr e ↦ rw e (omega arith)
  ]

  pub length-sort_stable : (xs : List A) → length (sort_stable less xs) ≡ length xs
  unfolding sort_stable
  length-sort_stable [] = refl
  length-sort_stable (x ∷ xs) =
      omega (arith, length-insert_ordered x (sort_stable less xs), length-sort_stable xs)

  pub All-insert_ordered {κ} :
      (P : A → Type κ) (x : A) (xs : List A) → P x → All P xs → All P (insert_ordered less x xs)
  All-insert_ordered P x [] h k = (h, tt)
  All-insert_ordered P x (y ∷ ys) h k = elim (Bool-cases (less y x)) [
    | inl e ↦ rw e (k.0, All-insert_ordered P x ys h k.1)
    | inr e ↦ rw e (h, k)
  ]

  pub All-sort_stable {κ} : (P : A → Type κ) (xs : List A) → All P xs → All P (sort_stable less xs)
  unfolding sort_stable
  All-sort_stable P [] h = tt
  All-sort_stable P (x ∷ xs) h =
      All-insert_ordered P x (sort_stable less xs) h.0 (All-sort_stable P xs h.1)

  module _ (order : IsWeakOrder less) where
    insert-IsOrdered :
        (x : A) (xs : List A) → IsOrdered less xs → IsOrdered less (insert_ordered less x xs)
    insert-IsOrdered x [] h = (tt, tt)
    insert-IsOrdered x (y ∷ ys) h = elim (Bool-cases (less y x)) [
      | inl e ↦ rw e (
        All-insert_ordered (λ z. less z y ≡ false) x ys (order.asymmetric y x e) h.0,
        insert-IsOrdered x ys h.1,
      )
      | inr e ↦ rw e ((e, below x y ys e h.0), h)
    ]
      where
        below :
            (x y : A) (zs : List A)
            → less y x ≡ false
            → All (λ z. less z y ≡ false) zs
            → All (λ z. less z x ≡ false) zs
        below x y [] e h = tt
        below x y (z ∷ zs) e h = (order.transitive x y z e h.0, below x y zs e h.1)

    pub sort_stable-IsOrdered : (xs : List A) → IsOrdered less (sort_stable less xs)
    unfolding sort_stable
    sort_stable-IsOrdered [] = tt
    sort_stable-IsOrdered (x ∷ xs) =
        insert-IsOrdered x (sort_stable less xs) (sort_stable-IsOrdered xs)

module _ {ℓ κ} {A : Type ℓ} (less : A → A → Bool) (P : A → Type κ) where
  All-of_insert : (x : A) (xs : List A) → All P (insert_ordered less x xs) → P x × All P xs
  All-of_insert x [] h = h
  All-of_insert x (y ∷ ys) h = elim (Bool-cases (less y x)) [
    | inl e ↦
        let h' : All P (y ∷ insert_ordered less x ys) = rw e at h in
        let rest = All-of_insert x ys h'.1 in (rest.0, (h'.0, rest.1))
    | inr e ↦ let h' : All P (x ∷ y ∷ ys) = rw e at h in h'
  ]

  pub All-of_sort_stable : (xs : List A) → All P (sort_stable less xs) → All P xs
  unfolding sort_stable
  All-of_sort_stable [] h = tt
  All-of_sort_stable (x ∷ xs) h =
      let both = All-of_insert x (sort_stable less xs) h in (both.0, All-of_sort_stable xs both.1)

-- In an ordered list nothing of the rest comes before what was taken.
pub split_ordered {ℓ} :
    {A : Type ℓ} (less : A → A → Bool) (n : ℕ) (xs : List A)
    → IsOrdered less xs
    → All (λ e. All (λ g. less g e ≡ false) (drop n xs)) (take n xs)
split_ordered less zero xs h = tt
split_ordered less (suc n) [] h = tt
split_ordered less (suc n) (x ∷ xs) h =
    (All-drop (λ g. less g x ≡ false) n xs h.0, split_ordered less n xs h.1)
