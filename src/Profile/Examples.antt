-- ===== src/Profile/Examples.antt =====
-- Tests of the summary of repos, and the theorem at a concrete input.
use devtrace.Base.Maps.{put, get}
use devtrace.Base.{some, [], true, refl, ◌∷◌, false, Bool, ◌≡◌, ℕ, List, String}
use devtrace.Github.Repos.{Repo}
use devtrace.Score.Fixed.{ℕ_float}
use devtrace.Model.Enrichment.{OwnedRepos}
use devtrace.Profile.Repos.{
  count_languages, language_buckets, top_by_stars, aggregate_repos, is_own_work, sum_stars,
  owned_repo,
}
use devtrace.Profile.ReposLaws.{aggregate_repos-IsTop, IsTop}
use devtrace.Base.Rows.{filter, count}
use devtrace.Base.Order.{sort_stable, IsWeakOrder}

abbrev repo_of : String → ℕ → Bool → Repo
repo_of name stars fork = record {
  name = name;
  full_name = name;
  description = "";
  language = "Go";
  stars = stars;
  fork = fork;
  archived = false;
  pushed_at = 0;
}

abbrev some_repos : List Repo
some_repos =
    repo_of "a" 3 false ∷ repo_of "f" 90 true ∷ repo_of "b" 4 false ∷ repo_of "c" 0 false ∷ []

-- All texts are alike.
abbrev no_order : String → String → Bool
no_order s t = false

no_order-IsWeakOrder : IsWeakOrder no_order
no_order-IsWeakOrder = record { asymmetric = λ x y h. cc; transitive = λ x y z h k. refl }

abbrev summary : OwnedRepos ℕ
summary = record {
  total_stars = 7;
  total_repos = 3;
  top = owned_repo (repo_of "b" 4 false) ∷ owned_repo (repo_of "a" 3 false) ∷ [];
  languages = record { language = "Go"; repos = 3; share = 100 } ∷ [];
}

summary_is : aggregate_repos no_order some_repos ≡ some summary
unfolding aggregate_repos filter top_by_stars language_buckets count_languages sort_stable get put
summary_is = refl

aggregate_repos-IsTop_example :
    (summary.total_repos ≡ count is_own_work some_repos)
    × (summary.total_stars ≡ sum_stars (filter is_own_work some_repos))
    × ((shown : List Repo) × ((left : List Repo) × IsTop no_order
            (filter is_own_work some_repos)
            summary.top
            shown
            left))
aggregate_repos-IsTop_example =
    aggregate_repos-IsTop no_order some_repos summary no_order-IsWeakOrder summary_is
