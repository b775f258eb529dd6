-- ===== src/Base/Maps.antt =====
-- Go's maps as association lists, for maps that the code ranges over. The order of the pairs is
-- the order of insertion; Go leaves it open.
use mathlib.Core.Path.{◌≡◌, refl}
use mathlib.Core.List.{List, [], ◌∷◌}
use mathlib.Core.Option.{Option, none, some}
use native.Mathlib.Omega.{arith}
use devtrace.Base.Tests.{Comparable, ◌==◌, if◌then◌else◌}

module _ {ℓ κ} {K : Type ℓ} {V : Type κ} ⦃c : Comparable K⦄ where
  -- `v, ok := m[k]`
  unfoldable pub get : List (K × V) → K → Option V
  get [] k = none
  get (p ∷ m) k = if p.0 == k then some p.1 else get m k

  -- `m[k] = v`
  unfoldable pub put : List (K × V) → K → V → List (K × V)
  put [] k v = (k, v) ∷ []
  put (p ∷ m) k v = if p.0 == k then (p.0, v) ∷ m else p ∷ put m k v

  pub get-put :
      (m : List (K × V)) (k j : K) (v : V)
      → get (put m k v) j ≡ (if k == j then some v else get m j)
  unfolding get put
  get-put [] k j v = refl
  get-put (p ∷ m) k j v =
      ground (arith, c.same_iff p.0 k, c.same_iff p.0 j, c.same_iff k j, get-put m k j v)
