-- ===== src/Score/Grade.antt =====
-- Grade (pkg/score/grade.go): the switch as its cases in order, in hundredths.
use devtrace.Score.Float.{◌≼◌, IsFloat, Float}
use devtrace.Base.{
  sym, subst, ◌||◌, false, not, nat_eq_iff, inr, zero, ◌∙◌, inl, refl, ap, Bool-cases, true, ◌≡◌,
  arith, Bool, nat_eq, String_eq, length, suc, ◌≤◌, ◌==◌, if◌then◌else◌, [], ◌∷◌, String, ℕ, List,
}

-- `case score >= p: return letter`
abbrev pub grade_cases : List (ℕ × String)
grade_cases =
    (93, "A+")
    ∷ (87, "A")
    ∷ (83, "A-")
    ∷ (77, "B+")
    ∷ (73, "B")
    ∷ (67, "B-")
    ∷ (63, "C+")
    ∷ (57, "C")
    ∷ (53, "C-")
    ∷ (47, "D+")
    ∷ (43, "D")
    ∷ (37, "D-")
    ∷ []

module _ {W : Type 0} ⦃f : Float W⦄ where
  abbrev pub first_case : List (ℕ × String) → W → String
  first_case [] score = "F"
  first_case ((p, letter) ∷ cases) score =
      let rest = first_case cases score in if f.at_most (f.ratio p 100) score then letter else rest

  unfoldable pub grade : W → String
  grade score = first_case grade_cases score

-- How good a letter is: the cases behind the first one that has it, itself included; 0 for F.
abbrev pub merit_in : List (ℕ × String) → String → ℕ
merit_in [] letter = 0
merit_in ((p, l) ∷ cases) letter = if l == letter then suc (length cases) else merit_in cases letter

abbrev pub merit : String → ℕ
merit letter = merit_in grade_cases letter

letter_at : List (ℕ × String) → ℕ → String
letter_at [] n = "F"
letter_at ((p, letter) ∷ cases) n =
    if nat_eq n (suc (length cases)) then letter else letter_at cases n

abbrev is_own_merit : ℕ → Bool
is_own_merit n = nat_eq (merit (letter_at grade_cases n)) n

-- Some number up to n fails the test.
fails_by : (ℕ → Bool) → ℕ → Bool
fails_by test zero = not (test zero)
fails_by test (suc n) = not (test (suc n)) || fails_by test n

no_twin : fails_by is_own_merit 12 ≡ false
unfolding fails_by letter_at
no_twin = refl

passes : (test : ℕ → Bool) (last n : ℕ) → fails_by test last ≡ false → n ≤ last → test n ≡ true
unfolding fails_by
passes test zero n h le =
    let e : 0 ≡ n = omega (arith, le) in subst (λ k. test k ≡ true) e (ground arith)
passes test (suc last) n h le = elim (Bool-cases (nat_eq n (suc last))) [
  | inl same ↦ subst (λ k. test k ≡ true) (sym ((nat_eq_iff n (suc last)).0 same)) (ground arith)
  | inr before ↦ passes test last n (ground arith) (ground arith)
]

module _ {W : Type 0} ⦃f : Float W⦄ where
  -- The number of the first case that fires, counted from the last one.
  rank : List (ℕ × String) → W → ℕ
  rank [] x = 0
  rank ((p, letter) ∷ cases) x =
      let rest = rank cases x in if f.at_most (f.ratio p 100) x then suc (length cases) else rest

  rank-le : (cases : List (ℕ × String)) (x : W) → rank cases x ≤ length cases
  unfolding rank
  rank-le [] x = omega arith
  rank-le ((p, letter) ∷ cases) x = ground (arith, rank-le cases x)

  first_case-eq :
      (cases : List (ℕ × String)) (x : W) → first_case cases x ≡ letter_at cases (rank cases x)
  unfolding rank letter_at
  first_case-eq [] x = refl
  first_case-eq ((p, letter) ∷ cases) x = elim (Bool-cases (f.at_most (f.ratio p 100) x)) [
    | inl hit ↦ rw hit (ground arith)
    | inr miss ↦ rw miss (ground (arith, rank-le cases x, first_case-eq cases x))
  ]

  merit_grade : (x : W) → merit (grade x) ≡ rank grade_cases x
  unfolding grade
  merit_grade x =
      ap merit (first_case-eq grade_cases x)
      ∙ (nat_eq_iff _ _).0 (
          passes is_own_merit 12 (rank grade_cases x) no_twin
            (omega (arith, rank-le grade_cases x)))

  module _ (laws : IsFloat W) where
    rank_mono : (cases : List (ℕ × String)) (x y : W) → x ≼ y → rank cases x ≤ rank cases y
    unfolding rank
    rank_mono [] x y le = omega arith
    rank_mono ((p, letter) ∷ cases) x y le = elim (Bool-cases (f.at_most (f.ratio p 100) x)) [
      | inl hit ↦ rw (hit, laws.le_trans (f.ratio p 100) x y hit le) (omega arith)
      | inr miss ↦ rw miss (ground (arith, rank-le cases x, rank_mono cases x y le))
    ]

    -- A higher score never has a worse grade.
    pub grade_mono : (x y : W) → x ≼ y → merit (grade x) ≤ merit (grade y)
    grade_mono x y le = omega (arith, merit_grade x, merit_grade y, rank_mono grade_cases x y le)
