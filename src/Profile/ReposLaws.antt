-- ===== src/Profile/ReposLaws.antt =====
-- What AggregateRepos shows of the repos (pkg/profile/repos.go).
use devtrace.Base.Slices.{length-take}
use devtrace.Base.{
  refl, take-append-drop, sym, ap, [], ◌+◌, min, ◌∷◌, ◌∙◌, length, some, drop, map, false, take,
  ◌≡◌, List, arith, Bool, String,
}
use devtrace.Github.Repos.{Repo}
use devtrace.Model.Enrichment.{OwnedRepo, OwnedRepos}
use devtrace.Score.Float.{Float}
use devtrace.Profile.Repos.{
  aggregate_repos, top_by_stars, summary_or_nil, ranking, ranks_before, owned_repo, is_own_work,
  has_stars, sum_stars,
}
use devtrace.Base.Rows.{count-append, length-filter, filter, count, All}
use devtrace.Base.Order.{
  split_ordered, sort_stable-IsOrdered, count-sort_stable, length-sort_stable, IsWeakOrder,
}

ranks_order : (less : String → String → Bool) → IsWeakOrder less → IsWeakOrder (ranks_before less)
ranks_order less order = record {
  asymmetric = λ x y h. ground (arith, order.asymmetric x.full_name y.full_name);
  transitive = λ x y z h k. ground (arith, order.transitive x.full_name y.full_name z.full_name);
}

-- The repos of an account: those that are shown, and those that are not.
pub record IsTop (less : String → String → Bool) (own : List Repo) (top : List OwnedRepo)
    (shown left : List Repo) : Type 0 where
  pub displayed : top ≡ map owned_repo shown
  pub five : length shown ≡ min 5 (count has_stars own)
  pub complete : (p : Repo → Bool) → count p shown + count p left ≡ count p (filter has_stars own)
  pub best : All (λ e. All (λ g. ranks_before less g e ≡ false) left) shown

top_by_stars-IsTop :
    (less : String → String → Bool) (own : List Repo)
    → IsWeakOrder less
    → IsTop less own (top_by_stars less own) (take 5 (ranking less own)) (drop 5 (ranking less own))
unfolding top_by_stars
top_by_stars-IsTop less own order =
    let ranked = ranking less own in
    let starred = filter has_stars own in
    let size : length ranked ≡ count has_stars own =
      length-sort_stable (ranks_before less) starred ∙ length-filter has_stars own in
    record {
      displayed = refl;
      five = length-take 5 ranked ∙ ap (min 5) size;
      complete = λ p.
          sym (count-append p (take 5 ranked) (drop 5 ranked))
          ∙ ap (count p) (take-append-drop 5 ranked)
          ∙ count-sort_stable (ranks_before less) p starred;
      best =
          split_ordered (ranks_before less) 5 ranked
            (sort_stable-IsOrdered (ranks_before less) (ranks_order less order) starred);
    }

module _ {W : Type 0} ⦃f : Float W⦄ where
  summary_top :
      (less : String → String → Bool) (own : List Repo) (out : OwnedRepos W)
      → summary_or_nil less own ≡ some out
      → (out.top ≡ top_by_stars less own)
        × (out.total_repos ≡ length own)
        × (out.total_stars ≡ sum_stars own)
  summary_top less [] out h = absurd (ground (arith, h))
  summary_top less (r ∷ own) out h = ground (arith, h)

  -- The summary counts all repos that are neither forks nor archived, and all their stars. The repos that
  -- it shows are five, or all with a star where these are fewer; the shown and the others are together
  -- those with a star, each as often; and none of the others ranks before one that is shown.
  pub aggregate_repos-IsTop :
      (less : String → String → Bool) (repos : List Repo) (out : OwnedRepos W)
      → IsWeakOrder less
      → aggregate_repos less repos ≡ some out
      → (out.total_repos ≡ count is_own_work repos)
        × (out.total_stars ≡ sum_stars (filter is_own_work repos))
        × ((shown : List Repo) × ((left : List Repo) × IsTop less
                (filter is_own_work repos)
                out.top
                shown
                left))
  unfolding aggregate_repos
  aggregate_repos-IsTop less repos out order found =
      let own = filter is_own_work repos in
      let s = summary_top less own out found in
      (
        s.1 ∙ length-filter is_own_work repos,
        s.2,
        (
          take 5 (ranking less own),
          (drop 5 (ranking less own), rw s.0 (top_by_stars-IsTop less own order)),
        ),
      )
