-- ===== src/Github/Repos.antt =====
-- mapRepo, fetchUserRepos and the credits of fetchSecurityCredits (pkg/github/fetch.go). What go-github answers
-- for a page, the case of letters and strings.EqualFold are arguments.
use devtrace.Base.{
  zero, map, ◌-◌, take, ◌++◌, length, ◌||◌, ltb, [], nat_eq, suc, ◌+◌, if◌then◌else◌, none, some,
  Bool, List, ℕ, Option, String,
}
use devtrace.Pool.Client.{Reply, ok, error}
use devtrace.Base.Time.{Time}

-- github.Repo, and gh.Repository as go-github's getters return it.
pub record Repo : Type 0 where
  pub name : String
  pub full_name : String
  pub description : String
  pub language : String
  pub stars : ℕ
  pub fork : Bool
  pub archived : Bool
  pub pushed_at : Time

pub record GhRepo : Type 0 where
  pub name : String
  pub full_name : String
  pub description : String
  pub language : String
  pub stargazers_count : ℕ
  pub fork : Bool
  pub archived : Bool
  pub pushed_at : Option Time

abbrev pub pushed : Option Time → Time
pushed none = 0
pushed (some t) = t

abbrev pub map_repo : GhRepo → Repo
map_repo r = record {
  name = r.name;
  full_name = r.full_name;
  description = r.description;
  language = r.language;
  stars = r.stargazers_count;
  fork = r.fork;
  archived = r.archived;
  pushed_at = pushed r.pushed_at;
}

abbrev pub max_fetch_repos : ℕ
max_fetch_repos = 300

-- A page and the number of the next, 0 after the last.
pub record Page : Type 0 where
  pub repos : List GhRepo
  pub next_page : ℕ

-- The loop; none is the end of the fuel.
unfoldable pub list_pages : (ℕ → Reply Page) → ℕ → ℕ → ℕ → List Repo → Option (Reply (List Repo))
list_pages answer max_repos zero page out = none
list_pages answer max_repos (suc n) page out = elim (answer page) [
  | error e ↦ if ltb (length out) max_repos then some (error e) else some (ok out)
  | ok p ↦
      let more = out ++ take (max_repos - length out) (map map_repo p.repos) in
      let rest = list_pages answer max_repos n (page + 1) more in
      if ltb (length out) max_repos
      then (if nat_eq p.next_page 0 then some (ok more) else rest)
      else some (ok out)
]

-- `maxRepos <= 0 || maxRepos > maxFetchRepos`
abbrev pub capped : ℕ → ℕ
capped max_repos =
    if nat_eq max_repos 0 || ltb max_fetch_repos max_repos then max_fetch_repos else max_repos

-- Each round but the last adds a repo, where a page that has a next one is not empty, so there are no
-- more rounds than the cap and one.
unfoldable pub fetch_user_repos : (ℕ → Reply Page) → ℕ → Option (Reply (List Repo))
fetch_user_repos answer max_repos = list_pages answer (capped max_repos) (capped max_repos + 1) 1 []
