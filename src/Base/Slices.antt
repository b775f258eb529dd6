-- ===== src/Base/Slices.antt =====
-- Laws of the first elements of a list and of the rest.
use Prim.Native.Nat.{ℕ, zero, suc, ◌+◌, ◌-◌, ◌<◌, ◌≤◌, min}
use mathlib.Core.Path.{◌≡◌, refl, ap}
use mathlib.Core.List.{List, [], ◌∷◌, ◌++◌, map}
use native.Mathlib.Omega.{arith}
use devtrace.Base.Lists.{length, take, drop}

pub take-nil {ℓ} : {A : Type ℓ} (n : ℕ) → take {A = A} n [] ≡ []
take-nil zero = refl
take-nil (suc n) = refl

pub drop-nil {ℓ} : {A : Type ℓ} (n : ℕ) → drop {A = A} n [] ≡ []
drop-nil zero = refl
drop-nil (suc n) = refl

pub take-add {ℓ} :
    {A : Type ℓ} (a b : ℕ) (xs : List A) → take a xs ++ take b (drop a xs) ≡ take (a + b) xs
take-add zero b xs = let e : 0 + b ≡ b = omega arith in rw e refl
take-add (suc a) b [] = let e : suc a + b ≡ suc (a + b) = omega arith in rw e (take-nil b)
take-add (suc a) b (x ∷ xs) =
    let e : suc a + b ≡ suc (a + b) = omega arith in rw e (ap (◌∷◌ x) (take-add a b xs))

pub drop-drop {ℓ} : {A : Type ℓ} (a b : ℕ) (xs : List A) → drop b (drop a xs) ≡ drop (a + b) xs
drop-drop zero b xs = let e : 0 + b ≡ b = omega arith in rw e refl
drop-drop (suc a) b [] = let e : suc a + b ≡ suc (a + b) = omega arith in rw e (drop-nil b)
drop-drop (suc a) b (x ∷ xs) =
    let e : suc a + b ≡ suc (a + b) = omega arith in rw e (drop-drop a b xs)

pub take_all {ℓ} : {A : Type ℓ} (n : ℕ) (xs : List A) → length xs ≤ n → take n xs ≡ xs
take_all zero [] h = refl
take_all zero (x ∷ xs) h = absurd (omega arith)
take_all (suc n) [] h = refl
take_all (suc n) (x ∷ xs) h = ap (◌∷◌ x) (take_all n xs (omega arith))

pub drop_all {ℓ} : {A : Type ℓ} (n : ℕ) (xs : List A) → length xs ≤ n → drop n xs ≡ []
drop_all zero [] h = refl
drop_all zero (x ∷ xs) h = absurd (omega arith)
drop_all (suc n) [] h = refl
drop_all (suc n) (x ∷ xs) h = drop_all n xs (omega arith)

pub take_some {ℓ} :
    {A : Type ℓ} (n : ℕ) (xs : List A) → 0 < n → 0 < length xs → 0 < length (take n xs)
take_some zero xs h k = h
take_some (suc n) [] h k = k
take_some (suc n) (x ∷ xs) h k = omega arith

pub take-append-le {ℓ} :
    {A : Type ℓ} (n : ℕ) (xs ys : List A)
    → length xs ≤ n
    → take n (xs ++ ys) ≡ xs ++ take (n - length xs) ys
take-append-le n [] ys h = let e : n - 0 ≡ n = omega arith in rw e refl
take-append-le zero (x ∷ xs) ys h = absurd (omega arith)
take-append-le (suc n) (x ∷ xs) ys h =
    let e : suc n - suc (length xs) ≡ n - length xs = omega arith in
    rw e (ap (◌∷◌ x) (take-append-le n xs ys (omega arith)))

pub take-full {ℓ} :
    {A : Type ℓ} (n : ℕ) (xs ys : List A) → n ≤ length xs → take n (xs ++ ys) ≡ take n xs
take-full zero xs ys h = refl
take-full (suc n) [] ys h = absurd (omega arith)
take-full (suc n) (x ∷ xs) ys h = ap (◌∷◌ x) (take-full n xs ys (omega arith))

pub length-take {ℓ} : {A : Type ℓ} (n : ℕ) (xs : List A) → length (take n xs) ≡ min n (length xs)
length-take zero xs = ground arith
length-take (suc n) [] = ground arith
length-take (suc n) (x ∷ xs) = let ih = length-take n xs in ground (arith, ih)

pub length-map {ℓ κ} :
    {A : Type ℓ} {B : Type κ} (f : A → B) (xs : List A) → length (map f xs) ≡ length xs
length-map f [] = refl
length-map f (x ∷ xs) = ap suc (length-map f xs)

pub take-take-append {ℓ} :
    {A : Type ℓ} (k : ℕ) (xs ys : List A) → take k (take k xs ++ ys) ≡ take k (xs ++ ys)
take-take-append zero xs ys = refl
take-take-append (suc k) [] ys = refl
take-take-append (suc k) (x ∷ xs) ys = ap (◌∷◌ x) (take-take-append k xs ys)
