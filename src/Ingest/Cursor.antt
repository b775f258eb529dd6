-- ===== src/Ingest/Cursor.antt =====
-- How the cursor of the loop of Run (pkg/ingest/runner.go) moves over failed hours.
use devtrace.Base.Time.{Time, hour}
use devtrace.Base.{
  ◌⊎◌, ◌++◌, ◌≢◌, refl, inr, inl, ◌∷◌, List, [], zero, suc, arith, ◌-◌, ◌+◌, ◌≡◌, ◌<◌, ℕ,
}
use devtrace.Ingest.Hours.{
  not_found, stored, failed, Outcome, run_hours, truncate_hour, archive_publish_delay, ascend,
  compute_hours,
}

abbrev pub AllAfter : Time → List Time → Type 0
AllAfter t [] = Unit {0}
AllAfter t (u ∷ us) = (t < u) × AllAfter t us

-- None of the hours ends the run by a missing archive.
abbrev pub AllReached : (Time → Outcome) → List Time → Type 0
AllReached process [] = Unit {0}
AllReached process (u ∷ us) = (process u ≢ not_found) × AllReached process us

ascend-AllAfter : (room : ℕ) (last t u : Time) → t < u → AllAfter t (ascend room last u)
unfolding ascend
ascend-AllAfter zero last t u lt = tt
ascend-AllAfter (suc room) last t u lt =
    ground (arith, ascend-AllAfter room last t (u + hour) (omega arith))

pub compute_hours-AllAfter :
    (clock cursor t : Time) (lookback catchup_max : ℕ)
    → t < cursor
    → AllAfter t (compute_hours clock cursor lookback catchup_max)
unfolding compute_hours
compute_hours-AllAfter clock cursor t lookback catchup_max lt = ground (
  arith,
  ascend-AllAfter catchup_max (truncate_hour clock - archive_publish_delay) t (cursor + hour)
      (omega arith),
)

outcome_is : (o : Outcome) → (o ≡ stored) ⊎ (o ≡ not_found) ⊎ (o ≡ failed)
outcome_is stored = inl refl
outcome_is not_found = inr (inl refl)
outcome_is failed = inr (inr refl)

pub run_hours-after :
    (process : Time → Outcome) (cursor t : Time) (ts : List Time)
    → t < cursor
    → AllAfter t ts
    → t < run_hours process cursor ts
unfolding run_hours
run_hours-after process cursor t [] lt all = lt
run_hours-after process cursor t (u ∷ us) lt all = elim (outcome_is (process u)) [
  | inl done' ↦ rw (done', run_hours) (run_hours-after process u t us all.0 all.1)
  | inr (inl missing) ↦ rw (missing, run_hours) lt
  | inr (inr bad) ↦ rw (bad, run_hours) (run_hours-after process cursor t us lt all.1)
]

-- The run gets to a stored hour behind `t`, and so does its cursor.
run_hours-passes :
    (process : Time → Outcome) (cursor t u : Time) (mid post : List Time)
    → AllReached process mid
    → process u ≡ stored
    → AllAfter t (mid ++ u ∷ post)
    → t < run_hours process cursor (mid ++ u ∷ post)
unfolding run_hours
run_hours-passes process cursor t u [] post reached good all =
    rw (good, run_hours) (run_hours-after process u t post all.0 all.1)
run_hours-passes process cursor t u (m ∷ mid) post reached good all =
    elim (outcome_is (process m)) [
      | inl done' ↦
          rw (done', run_hours) (run_hours-passes process m t u mid post reached.1 good all.1)
      | inr (inl missing) ↦ absurd (reached.0 missing)
      | inr (inr bad) ↦
          rw (bad, run_hours) (run_hours-passes process cursor t u mid post reached.1 good all.1)
    ]

pub skip_failed :
    (process : Time → Outcome) (cursor t u : Time) (pre mid post : List Time)
    → AllReached process pre
    → process t ≡ failed
    → AllReached process mid
    → process u ≡ stored
    → AllAfter t (mid ++ u ∷ post)
    → t < run_hours process cursor (pre ++ t ∷ mid ++ u ∷ post)
unfolding run_hours
skip_failed process cursor t u [] mid post before bad reached good all =
    rw (bad, run_hours) (run_hours-passes process cursor t u mid post reached good all)
skip_failed process cursor t u (m ∷ pre) mid post before bad reached good all =
    elim (outcome_is (process m)) [
      | inl done' ↦
          rw (done', run_hours)
            (skip_failed process m t u pre mid post before.1 bad reached good all)
      | inr (inl missing) ↦ absurd (before.0 missing)
      | inr (inr fails) ↦
          rw (fails, run_hours)
            (skip_failed process cursor t u pre mid post before.1 bad reached good all)
    ]
