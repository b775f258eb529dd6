-- ===== src/Service/Repo.antt =====
-- splitOwnerRepo (pkg/service/score.go), over the code points of a text.
use mathlib.Core.List.{reverse}
use devtrace.Base.{
  ◌&&◌, some, zero, leb, false, suc, ◌||◌, none, true, [], if◌then◌else◌, nat_eq, Option, ◌∷◌, Bool,
  ℕ, List,
}

abbrev pub slash : ℕ
slash = b'/'

-- unicode.IsSpace: the spaces of Latin-1, and the other code points with the property White_Space.
abbrev pub is_space : ℕ → Bool
is_space c =
    nat_eq c 32
    || leb 9 c && leb c 13
    || nat_eq c 133
    || nat_eq c 160
    || nat_eq c 5760
    || leb 8192 c && leb c 8202
    || nat_eq c 8232
    || nat_eq c 8233
    || nat_eq c 8239
    || nat_eq c 8287
    || nat_eq c 12288

abbrev pub trim_left : List ℕ → List ℕ
trim_left [] = []
trim_left (c ∷ s) = let rest = trim_left s in if is_space c then rest else c ∷ s

-- strings.TrimSpace
abbrev pub trim_space : List ℕ → List ℕ
trim_space s = reverse (trim_left (reverse (trim_left s)))

abbrev pub onto : ℕ → List (List ℕ) → List (List ℕ)
onto c [] = (c ∷ []) ∷ []
onto c (part ∷ parts) = (c ∷ part) ∷ parts

-- strings.SplitN at slashes, with at most so many cuts.
abbrev pub split_cuts : List ℕ → ℕ → List (List ℕ)
split_cuts [] cuts = [] ∷ []
split_cuts (c ∷ s) zero = (c ∷ s) ∷ []
split_cuts (c ∷ s) (suc cuts) =
    let after_cut = split_cuts s cuts in
    let uncut = split_cuts s (suc cuts) in if nat_eq c slash then [] ∷ after_cut else onto c uncut

abbrev pub is_blank : List ℕ → Bool
is_blank [] = true
is_blank (c ∷ s) = false

abbrev pub two_parts : List (List ℕ) → Option (List ℕ × List ℕ)
two_parts [] = none
two_parts (a ∷ []) = none
two_parts (a ∷ b ∷ []) =
    let owner = trim_space a in
    let name = trim_space b in if is_blank owner || is_blank name then none else some (owner, name)
two_parts (a ∷ b ∷ c ∷ parts) = none

unfoldable pub split_owner_repo : List ℕ → Option (List ℕ × List ℕ)
split_owner_repo repo = two_parts (split_cuts (trim_space repo) 2)
