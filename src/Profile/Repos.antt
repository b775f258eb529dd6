-- ===== src/Profile/Repos.antt =====
-- AggregateRepos (pkg/profile/repos.go). The order of texts is an argument, and float operations are
-- those of Score/Float. The map of languages is ranged over in the order of its first entries; the sort
-- makes the order of the result its own.
use devtrace.Base.{
  String_eq, [], ltb, length, ◌+◌, ◌==◌, take, nat_eq, ◌||◌, none, ◌∷◌, some, map, if◌then◌else◌,
  leb, not, List, Option, String, Bool, ℕ,
}
use devtrace.Github.Repos.{Repo}
use devtrace.Model.Enrichment.{OwnedRepo, OwnedRepos, LanguageBucket}
use devtrace.Score.Float.{Float, of_nat, ◌⊘◌}
use devtrace.Base.Rows.{filter}
use devtrace.Base.Order.{sort_stable}
use devtrace.Base.Maps.{get, put}

abbrev pub top_repo_limit : ℕ
top_repo_limit = 5

abbrev pub language_limit : ℕ
language_limit = 5

abbrev pub min_stars : ℕ
min_stars = 1

abbrev pub is_own_work : Repo → Bool
is_own_work r = not (r.fork || r.archived)

abbrev pub has_stars : Repo → Bool
has_stars r = leb min_stars r.stars

abbrev pub ranks_before : (String → String → Bool) → Repo → Repo → Bool
ranks_before less r s =
    if not (nat_eq r.stars s.stars) then ltb s.stars r.stars else less r.full_name s.full_name

abbrev pub owned_repo : Repo → OwnedRepo
owned_repo r = record {
  name = r.full_name;
  stars = r.stars;
  language = r.language;
  description = r.description;
}

abbrev pub ranking : (String → String → Bool) → List Repo → List Repo
ranking less repos = sort_stable (ranks_before less) (filter has_stars repos)

unfoldable pub top_by_stars : (String → String → Bool) → List Repo → List OwnedRepo
top_by_stars less repos = map owned_repo (take top_repo_limit (ranking less repos))

abbrev pub zero_or : Option ℕ → ℕ
zero_or none = 0
zero_or (some n) = n

-- `counts[r.Language]++`
unfoldable pub count_languages : List Repo → List (String × ℕ) → List (String × ℕ)
count_languages [] counts = counts
count_languages (r ∷ repos) counts = count_languages repos (
    if r.language == ""
    then counts
    else put counts r.language (zero_or (get counts r.language) + 1))

abbrev pub count_classified : List Repo → ℕ
count_classified [] = 0
count_classified (r ∷ repos) = (if r.language == "" then 0 else 1) + count_classified repos

module _ {W : Type 0} ⦃f : Float W⦄ where
  abbrev pub bucket : ℕ → String × ℕ → LanguageBucket W
  bucket classified c = record {
    language = c.0;
    repos = c.1;
    share = of_nat c.1 ⊘ of_nat classified;
  }

  abbrev pub bucket_before : (String → String → Bool) → LanguageBucket W → LanguageBucket W → Bool
  bucket_before less b c =
      if not (nat_eq b.repos c.repos) then ltb c.repos b.repos else less b.language c.language

  unfoldable pub language_buckets : (String → String → Bool) → List Repo → List (LanguageBucket W)
  language_buckets less repos =
      let classified = count_classified repos in
      if nat_eq classified 0
      then []
      else take language_limit
          (sort_stable (bucket_before less) (map (bucket classified) (count_languages repos [])))

abbrev pub sum_stars : List Repo → ℕ
sum_stars [] = 0
sum_stars (r ∷ repos) = r.stars + sum_stars repos

abbrev pub summary_or_nil :
    {W : Type 0} ⦃f : Float W⦄ → (String → String → Bool) → List Repo → Option (OwnedRepos W)
summary_or_nil less [] = none
summary_or_nil less (r ∷ repos) = some (record {
  total_stars = sum_stars (r ∷ repos);
  total_repos = length (r ∷ repos);
  top = top_by_stars less (r ∷ repos);
  languages = language_buckets less (r ∷ repos);
})

unfoldable pub aggregate_repos :
    {W : Type 0} ⦃f : Float W⦄ → (String → String → Bool) → List Repo → Option (OwnedRepos W)
aggregate_repos less repos = summary_or_nil less (filter is_own_work repos)
