-- ===== src/Service/RepoLaws.antt =====
-- An owner and a name joined by a slash are taken apart again.
use devtrace.Service.Repo.{
  is_blank, trim_space, is_space, split_cuts, trim_left, slash, split_owner_repo,
}
use mathlib.Core.List.{reverse, reverse-reverse, reverse-append, reverse-cons}
use devtrace.Base.{
  zero, refl, some, suc, [], not, arith, ◌∷◌, nat_eq, true, false, ◌++◌, any, ◌≡◌, Bool, ℕ, List,
}

-- The text begins with something that is not a space.
abbrev pub is_bare : List ℕ → Bool
is_bare [] = false
is_bare (c ∷ s) = not (is_space c)

-- An owner or a name: not empty, no space at either end, no slash.
pub record IsPart (s : List ℕ) : Type 0 where
  pub first : is_bare s ≡ true
  pub last : is_bare (reverse s) ≡ true
  pub no_slash : any (λ c. nat_eq c slash) s ≡ false

trim_left-bare : (s : List ℕ) → is_bare s ≡ true → trim_left s ≡ s
trim_left-bare [] h = refl
trim_left-bare (c ∷ s) h = ground arith

trim_space-bare : (s : List ℕ) → is_bare s ≡ true → is_bare (reverse s) ≡ true → trim_space s ≡ s
trim_space-bare s h k = rw (trim_left-bare s h, trim_left-bare (reverse s) k) (reverse-reverse s)

is_bare-append : (s t : List ℕ) → is_bare s ≡ true → is_bare (s ++ t) ≡ true
is_bare-append [] t h = absurd (ground arith)
is_bare-append (c ∷ s) t h = h

split_cuts-no_slash :
    (s : List ℕ) (cuts : ℕ) → any (λ c. nat_eq c slash) s ≡ false → split_cuts s cuts ≡ s ∷ []
split_cuts-no_slash [] cuts h = refl
split_cuts-no_slash (c ∷ s) zero h = refl
split_cuts-no_slash (c ∷ s) (suc cuts) h =
    let here : nat_eq c slash ≡ false = ground arith in
    rw (here, split_cuts-no_slash s (suc cuts) (ground arith)) refl

split_cuts-joined :
    (owner name : List ℕ) (cuts : ℕ)
    → any (λ c. nat_eq c slash) owner ≡ false
    → split_cuts (owner ++ slash ∷ name) (suc cuts) ≡ owner ∷ split_cuts name cuts
split_cuts-joined [] name cuts h = refl
split_cuts-joined (c ∷ owner) name cuts h =
    let here : nat_eq c slash ≡ false = ground arith in
    rw (here, split_cuts-joined owner name cuts (ground arith)) refl

is_blank-bare : (s : List ℕ) → is_bare s ≡ true → is_blank s ≡ false
is_blank-bare [] h = absurd (ground arith)
is_blank-bare (c ∷ s) h = refl

joined-last :
    (owner name : List ℕ)
    → is_bare (reverse name) ≡ true
    → is_bare (reverse (owner ++ slash ∷ name)) ≡ true
joined-last owner name h =
    rw (reverse-append owner (slash ∷ name), reverse-cons slash name)
      (is_bare-append (reverse name ++ slash ∷ []) (reverse owner)
        (is_bare-append (reverse name) (slash ∷ []) h))

-- An owner and a name without a slash, not empty and with no space at their ends, joined by a
-- slash, are what the text is split into.
pub split_owner_repo-join :
    (owner name : List ℕ)
    → IsPart owner
    → IsPart name
    → split_owner_repo (owner ++ slash ∷ name) ≡ some (owner, name)
unfolding split_owner_repo
split_owner_repo-join owner name o n =
    rw
      (
        trim_space-bare (owner ++ slash ∷ name) (is_bare-append owner (slash ∷ name) o.first)
            (joined-last owner name n.last),
        split_cuts-joined owner name 1 o.no_slash,
        split_cuts-no_slash name 1 n.no_slash,
        trim_space-bare owner o.first o.last,
        trim_space-bare name n.first n.last,
        is_blank-bare owner o.first,
        is_blank-bare name n.first,
      )
      refl
