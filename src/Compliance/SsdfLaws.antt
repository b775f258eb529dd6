-- ===== src/Compliance/SsdfLaws.antt =====
-- Which practices are without data (pkg/compliance/ssdf.go).
use devtrace.Base.Maps.{get}
use devtrace.Base.{
  nat_eq, [], inr, ◌∷◌, inl, ◌&&◌, refl, map, Bool-cases, not, String_eq, none, String, false, some,
  List, ◌≡◌, ◌==◌, true, Bool, Option,
}
use devtrace.Model.Response.{Signals, RepoContext, AiSensing}
use devtrace.Score.Signals.{Behavior}
use devtrace.Score.Heuristics.{BehavioralHeuristics}
use devtrace.Score.Float.{of_nat, Float}
use devtrace.Score.Curves.{zero_w}
use devtrace.Compliance.Ssdf.{
  is_mature, fork_pct, is_above, is_anomalous, evaluate_practices, eval_ps1, eval_ps2, eval_ps3,
  eval_pw4, eval_pw6, eval_pw7, eval_rv1, eval_po4, PracticeResult, behavioral_of, status_no_data,
  present_if, rv1_of,
}

abbrev pub is_none : {A : Type 0} → Option A → Bool
is_none none = true
is_none (some a) = false

abbrev pub lacks_data : PracticeResult → Bool
lacks_data r = r.status == status_no_data

present_if_known : (b : Bool) → (present_if b == status_no_data) ≡ false
present_if_known true = refl
present_if_known false = refl

ps1_lacks : (c : Option RepoContext) → lacks_data (eval_ps1 c) ≡ is_none c
unfolding eval_ps1
ps1_lacks none = refl
ps1_lacks (some c) = present_if_known _

ps2_lacks : (c : Option RepoContext) → lacks_data (eval_ps2 c) ≡ is_none c
unfolding eval_ps2
ps2_lacks none = refl
ps2_lacks (some c) = present_if_known _

ps3_lacks : (s : Option Signals) → lacks_data (eval_ps3 s) ≡ is_none s
unfolding eval_ps3
ps3_lacks none = refl
ps3_lacks (some s) = present_if_known _

pw4_lacks : (W : Type 0) ⦃f : Float W⦄ (s : Option Signals) → lacks_data (eval_pw4 W s) ≡ is_none s
unfolding eval_pw4
pw4_lacks W none = refl
pw4_lacks W ⦃f⦄ (some s) = elim (Bool-cases (nat_eq s.public_repos 0)) [
  | inl e ↦ rw e refl
  | inr e ↦ rw e (elim (Bool-cases (f.less (of_nat 80) (fork_pct s))) [
    | inl forks ↦ rw forks refl
    | inr own ↦ rw own refl
  ])
]

module _ {W : Type 0} ⦃f : Float W⦄ where
  pw6_lacks : (b : Option (Behavior W)) → lacks_data (eval_pw6 b) ≡ is_none b
  unfolding eval_pw6
  pw6_lacks none = refl
  pw6_lacks (some b) = present_if_known _

  -- No behavior, or a consistency that is not positive.
  abbrev pub is_inconsistent : Option (Behavior W) → Bool
  is_inconsistent none = true
  is_inconsistent (some b) =
      not (f.less (f.ratio 5 10) b.consistency_score) && not (f.less zero_w b.consistency_score)

  pw7_lacks : (b : Option (Behavior W)) → lacks_data (eval_pw7 b) ≡ is_inconsistent b
  unfolding eval_pw7
  pw7_lacks none = refl
  pw7_lacks (some b) = elim (Bool-cases (f.less (f.ratio 5 10) b.consistency_score)) [
    | inl high ↦ rw high refl
    | inr low ↦ rw low (elim (Bool-cases (f.less zero_w b.consistency_score)) [
      | inl e ↦ rw e refl
      | inr e ↦ rw e refl
    ])
  ]

  rv1_lacks : (b : Option (BehavioralHeuristics W)) → lacks_data (rv1_of b) ≡ is_none b
  rv1_lacks none = refl
  rv1_lacks (some b) = elim (Bool-cases (is_anomalous b)) [ inl e ↦ rw e refl | inr e ↦ rw e refl ]

  po4_lacks :
      (s : Option Signals) (categories : List (String × W))
      → lacks_data (eval_po4 s categories) ≡ is_none s
  unfolding eval_po4
  po4_lacks none categories = refl
  po4_lacks (some s) categories =
      elim (Bool-cases (is_above (f.ratio 3 10) (get categories "community") && is_mature s)) [
        | inl e ↦ rw e refl
        | inr e ↦ rw e (elim (Bool-cases (is_mature s)) [
          | inl mature ↦ rw mature refl
          | inr young ↦ rw young refl
        ])
      ]

  -- A practice is reported without data exactly where what it is judged by is missing: the repo for the
  -- first two, the signals, the behavior, and the heuristics; the consistency counts as missing where
  -- it is not positive.
  pub evaluate_practices-no_data :
      (signals : Option Signals) (repo : Option RepoContext) (categories : List (String × W))
      (behavior : Option (Behavior W)) (ai_sensing : Option (AiSensing W))
      → map lacks_data (evaluate_practices signals repo categories behavior ai_sensing)
        ≡ is_none repo
          ∷ is_none repo
          ∷ is_none signals
          ∷ is_none signals
          ∷ is_none behavior
          ∷ is_inconsistent behavior
          ∷ is_none (behavioral_of ai_sensing)
          ∷ is_none signals
          ∷ []
  unfolding evaluate_practices eval_rv1
  evaluate_practices-no_data signals repo categories behavior ai_sensing =
      rw (ps1_lacks repo, ps2_lacks repo)
        (rw (ps3_lacks signals, pw4_lacks W signals)
          (rw (pw6_lacks behavior, pw7_lacks behavior)
            (rw (rv1_lacks (behavioral_of ai_sensing), po4_lacks signals categories) refl)))
