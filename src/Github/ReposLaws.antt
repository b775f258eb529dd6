-- ===== src/Github/ReposLaws.antt =====
-- fetchUserRepos ends, with the first repos of the listing (pkg/github/fetch.go).
use mathlib.Core.List.{append-nil, append_assoc}
use devtrace.Base.Slices.{
  length-map, length-take, take-append-le, take-full, take-take-append, take_all,
}
use devtrace.Base.{
  sym, ◌∙◌, length-append, inl, inr, ltb, Bool-cases, zero, ap, nat_eq, some, min, arith, ◌-◌,
  if◌then◌else◌, ◌≡◌, ◌++◌, ◌+◌, map, take, suc, ◌≤◌, length, [], ◌<◌, List, ℕ,
}
use devtrace.Pool.Client.{ok}
use devtrace.Github.Repos.{Repo, Page, list_pages, fetch_user_repos, capped, map_repo}

-- A page that has a next one is not empty.
abbrev pub IsProductive : (ℕ → Page) → Type 0
IsProductive pages = (i : ℕ) → 0 < (pages i).next_page → 0 < length (pages i).repos

-- The repos of at most `n` pages from page `i` on, up to the last page.
unfoldable pub listing : (ℕ → Page) → ℕ → ℕ → List Repo
listing pages zero i = []
listing pages (suc n) i =
    let rest = listing pages n (i + 1) in
    map map_repo (pages i).repos ++ (if nat_eq (pages i).next_page 0 then [] else rest)

abbrev grown : (ℕ → Page) → ℕ → ℕ → List Repo → List Repo
grown pages max_repos i out = out ++ take (max_repos - length out) (map map_repo (pages i).repos)

length-grown :
    (pages : ℕ → Page) (max_repos i : ℕ) (out : List Repo)
    → length (grown pages max_repos i out)
      ≡ length out + min (max_repos - length out) (length (pages i).repos)
length-grown pages max_repos i out =
    length-append out (take (max_repos - length out) (map map_repo (pages i).repos))
    ∙ ap (λ (n : ℕ). length out + n)
        (length-take (max_repos - length out) (map map_repo (pages i).repos)
          ∙ ap (min (max_repos - length out)) (length-map map_repo (pages i).repos))

grown_le :
    (pages : ℕ → Page) (max_repos i : ℕ) (out : List Repo)
    → length out ≤ max_repos
    → length (grown pages max_repos i out) ≤ max_repos
grown_le pages max_repos i out le = omega (arith, length-grown pages max_repos i out)

grown_enough :
    (pages : ℕ → Page) (max_repos n i : ℕ) (out : List Repo)
    → 0 < length (pages i).repos
    → length out < max_repos
    → max_repos < suc n + length out
    → max_repos < n + length (grown pages max_repos i out)
grown_enough pages max_repos n i out some_repo room enough =
    omega (arith, length-grown pages max_repos i out)

take_grown :
    (k : ℕ) (out rows rest : List Repo)
    → length out ≤ k
    → take k ((out ++ take (k - length out) rows) ++ rest) ≡ take k (out ++ (rows ++ rest))
take_grown k out rows rest le =
    let few = take (k - length out) rows in
    ap (take k) (append_assoc out few rest)
    ∙ take-append-le k out (few ++ rest) le
    ∙ ap (λ (xs : List Repo). out ++ xs) (take-take-append (k - length out) rows rest)
    ∙ sym (take-append-le k out (rows ++ rest) le)

list_pages-listing :
    (pages : ℕ → Page) (max_repos n i : ℕ) (out : List Repo)
    → IsProductive pages
    → length out ≤ max_repos
    → max_repos < n + length out
    → list_pages (λ j. ok (pages j)) max_repos n i out
      ≡ some (ok (take max_repos (out ++ listing pages n i)))
unfolding list_pages listing
list_pages-listing pages max_repos zero i out productive le enough = absurd (omega arith)
list_pages-listing pages max_repos (suc n) i out productive le enough =
    elim (Bool-cases (ltb (length out) max_repos)) [
      | inr full ↦ rw full (
          let full_len : max_repos ≤ length out = ground (arith, full) in
          ap (λ (xs : List Repo). some (ok xs))
            (sym (take-full max_repos out _ full_len ∙ take_all max_repos out le)))
      | inl room ↦ elim (Bool-cases (nat_eq (pages i).next_page 0)) [
        | inl last ↦ rw room (
            rw last (
              rw (append-nil (map map_repo (pages i).repos)) (
                ap (λ (xs : List Repo). some (ok xs))
                  (sym (take-append-le max_repos out (map map_repo (pages i).repos) le)))))
        | inr more ↦ rw room (
            rw more (
              list_pages-listing pages max_repos n (i + 1) (grown pages max_repos i out) productive
                (grown_le pages max_repos i out le)
                (grown_enough pages max_repos n i out (productive i (ground (arith, more)))
                  (ground (arith, room)) enough)
              ∙ ap (λ (xs : List Repo). some (ok xs))
                  (take_grown max_repos out (map map_repo (pages i).repos) (listing pages n (i + 1))
                    le)))
      ]
    ]

capped_pos : (max_repos : ℕ) → 0 < capped max_repos
capped_pos max_repos = ground arith

-- If every page that has a next one holds a repo, the listing of an account's repos ends, and what it
-- returns are the first repos of its pages, as many as the cap allows, which is never more than 300.
pub fetch_user_repos-listing :
    (pages : ℕ → Page) (max_repos : ℕ)
    → IsProductive pages
    → (fetch_user_repos (λ i. ok (pages i)) max_repos
        ≡ some (ok (take (capped max_repos) (listing pages (capped max_repos + 1) 1))))
      × (0 < capped max_repos)
      × (capped max_repos ≤ 300)
unfolding fetch_user_repos
fetch_user_repos-listing pages max_repos productive = (
  list_pages-listing pages (capped max_repos) (capped max_repos + 1) 1 [] productive (omega arith)
      (omega arith),
  capped_pos max_repos,
  ground arith,
)
