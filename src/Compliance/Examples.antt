-- ===== src/Compliance/Examples.antt =====
-- Tests of the practices, and the theorem at a concrete input.
use devtrace.Base.{◌∷◌, [], refl, true, ℕ, ◌≡◌, false, map, some, none}
use devtrace.Score.Fixed.{ℕ_float}
use devtrace.Model.Response.{RepoContext}
use devtrace.Compliance.Ssdf.{evaluate_practices, eval_ps1}
use devtrace.Compliance.SsdfLaws.{evaluate_practices-no_data, lacks_data}

abbrev outsider : RepoContext
outsider = record {
  repo = "golang/go";
  commits = 1;
  total_commits = 9;
  total_contributors = 2;
  last_commit_days = none;
  org_member = false;
  commits_verified = true;
  author_association = "NONE";
  trusted_org_member = true;
}

-- A member of a trusted organisation is called a member, and the practice is absent.
member_and_absent :
    ((eval_ps1 (some outsider)).signal ≡ "Author association: NONE (org member)")
    × ((eval_ps1 (some outsider)).status ≡ "absent")
unfolding eval_ps1
member_and_absent = (refl, refl)

evaluate_practices-no_data_example :
    map lacks_data (evaluate_practices {W = ℕ} none (some outsider) [] none none)
    ≡ false ∷ false ∷ true ∷ true ∷ true ∷ true ∷ true ∷ true ∷ []
evaluate_practices-no_data_example =
    evaluate_practices-no_data {W = ℕ} none (some outsider) [] none none
