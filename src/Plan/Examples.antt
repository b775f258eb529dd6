-- ===== src/Plan/Examples.antt =====
-- Tests of the tiers, and their theorems at concrete names.
use devtrace.Plan.Defs.{starter, pro, display_plans, free, plan_or_free, get_plan}
use devtrace.Base.{refl, [], ◌∷◌, some, none, ◌≡◌}

known_and_unknown :
    (get_plan "pro" ≡ some pro)
    × (get_plan "enterprise" ≡ none)
    × (plan_or_free "enterprise" ≡ free)
    × (display_plans ≡ free ∷ starter ∷ pro ∷ [])
unfolding get_plan plan_or_free display_plans
known_and_unknown = (refl, refl, refl, refl)
