-- ===== src/Score/Curves.antt =====
-- The curves of the score engine: clampedRatio, logCurve, expDecay, toFixed, profileScore and
-- associationScore (pkg/score/score.go).
use devtrace.Score.Signals.{InputSignals}
use devtrace.Score.Float.{◌⊗◌, ◌⊘◌, ◌⊕◌, of_nat, Float}
use devtrace.Base.{String_eq, ◌&&◌, ◌==◌, ◌+◌, ◌||◌, String, Bool, if◌then◌else◌, ℕ}

abbrev pub count_if : Bool → ℕ
count_if b = if b then 1 else 0

abbrev pub profile_count : InputSignals → ℕ
profile_count s =
    count_if s.has_bio
    + count_if s.has_company
    + count_if s.has_location
    + count_if s.has_website
    + count_if s.has_public_email

module _ {W : Type 0} ⦃f : Float W⦄ where
  abbrev pub zero_w : W
  zero_w = of_nat 0

  abbrev pub one_w : W
  one_w = of_nat 1

  -- A weight in hundredths.
  abbrev pub weight : ℕ → W
  weight n = f.ratio n 100

  unfoldable pub clamped_ratio : W → W → W
  clamped_ratio val ceil =
      if f.at_most ceil zero_w || f.at_most val zero_w
      then zero_w
      else (if f.at_most ceil val then one_w else val ⊘ ceil)

  unfoldable pub log_curve : W → W → W
  log_curve val ceil =
      let r = f.log (one_w ⊕ val) ⊘ f.log (one_w ⊕ ceil) in
      if f.at_most ceil zero_w || f.at_most val zero_w
      then zero_w
      else (if f.at_most one_w r then one_w else r)

  unfoldable pub exp_decay : W → W → W
  exp_decay val half_life =
      if f.at_most half_life zero_w
      then zero_w
      else (if f.at_most val zero_w then one_w else f.exp ((f.negated val ⊗ f.ln2) ⊘ half_life))

  unfoldable pub to_fixed : W → ℕ → W
  to_fixed num precision =
      let output = f.pow (of_nat 10) (of_nat precision) in
      f.of_int (f.to_int (f.round (num ⊗ output))) ⊘ output

  unfoldable pub profile_score : InputSignals → W
  profile_score s = of_nat (profile_count s) ⊘ of_nat 5

  -- The switch on the association, in tenths.
  abbrev pub association_base : String → Bool → W
  association_base assoc org_member =
      if assoc == "OWNER" || assoc == "MEMBER"
      then f.ratio 1 1
      else (if assoc == "COLLABORATOR"
          then f.ratio 8 10
          else (if assoc == "CONTRIBUTOR"
              then f.ratio 5 10
              else (if assoc == "FIRST_TIME_CONTRIBUTOR"
                  then f.ratio 2 10
                  else (if assoc == "NONE"
                      then f.ratio 0 1
                      else (if org_member then f.ratio 1 1 else f.ratio 0 1)))))

  unfoldable pub association_score : String → Bool → Bool → W
  association_score assoc org_member trusted_org_member =
      let base = association_base assoc org_member in
      if trusted_org_member && f.less base (f.ratio 8 10) then f.ratio 8 10 else base
