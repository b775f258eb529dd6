-- ===== src/Github/Examples.antt =====
-- Tests of what is read of GitHub's answers, and the theorems at concrete inputs.
use devtrace.Base.{
  inr, arith, inl, ◌≤◌, Bool-cases, ltb, ◌+◌, length, nat_eq, ◌&&◌, map, take, ◌<◌, if◌then◌else◌,
  not, refl, [], ℕ, String, ◌≡◌, some, List, false, ◌∷◌, true, none,
}
use devtrace.Pool.Client.{ok, error, CallError, rate_limit, is_rate_limited}
use devtrace.Service.Flow.{ArchiveHints}
use devtrace.Score.Signals.{InputSignals}
use devtrace.Github.Stats.{RepoStats, from_pages}
use devtrace.Github.Signals.{
  with_answers, fatal_err, Answers, Failure, failures, is_limited, fetch_signals,
}
use devtrace.Github.Account.{map_user, profile_signals, GhUser, is_some}
use devtrace.Github.SignalsLaws.{fetch_signals-limited, lost_searches, is_error}
use devtrace.Github.CountsLaws.{fetch_signals-counts, IsCount, total_of}
use devtrace.Github.Repos.{list_pages, GhRepo, Page, fetch_user_repos, map_repo, capped}
use devtrace.Github.ReposLaws.{fetch_user_repos-listing, listing}
use devtrace.Base.Rows.{count}

abbrev grace_account : GhUser
grace_account = record {
  login = "grace";
  name = "Grace";
  email = "";
  avatar_url = "";
  company = "";
  location = "";
  bio = "compilers";
  blog = "";
  followers = 8;
  following = 2;
  public_repos = 3;
  suspended_at = none;
  created_at = some 5;
}

abbrev no_commits : RepoStats
no_commits = record { commits = 0; total = 0; contributors = 0; last_days = 0; unverified = 0 }

-- The searches meet a rate limit, the rest works.
abbrev limited_searches : Answers
limited_searches = record {
  merged = error (rate_limit 60);
  closed = error CallError.other;
  recent = error CallError.other;
  forks = ok (true ∷ false ∷ []);
  member = ok true;
  association = ok ("MEMBER" ∷ []);
  stats = ok no_commits;
}

-- One search fails.
abbrev one_failed : Answers
one_failed = record limited_searches { closed = ok 4; recent = ok ("a" ∷ "b" ∷ "a" ∷ []) }

abbrev archive : ArchiveHints
archive = record { prs_merged = 7; prs_closed = 1; recent_pr_repo_count = 1; trusted = false }

abbrev as_sent : List Failure → List Failure
as_sent xs = xs

gives_up :
    fetch_signals as_sent (ok grace_account) 9 none "golang/go" limited_searches
    ≡ error (rate_limit 60)
unfolding fetch_signals count fatal_err
gives_up = refl

fetch_signals-limited_example :
    (is_error (fetch_signals as_sent (ok grace_account) 9 none "golang/go" limited_searches) ≡ (
      not (is_some grace_account.suspended_at)
      && (lost_searches none limited_searches
          && ltb 0 (count is_limited (failures none "golang/go" limited_searches)))))
    × ((e : CallError)
        → fetch_signals as_sent (ok grace_account) 9 none "golang/go" limited_searches ≡ error e
        → is_rate_limited e ≡ true)
fetch_signals-limited_example =
    fetch_signals-limited as_sent grace_account 9 none "golang/go" limited_searches (λ p xs. refl)

abbrev with_seven : InputSignals
with_seven =
    with_answers true true (record { merged = 7; closed = 4; recent = 2 }) one_failed
      (profile_signals (map_user grace_account) 9)

abbrev FetchedSeven : Type 0
FetchedSeven =
    fetch_signals as_sent (ok grace_account) 9 (some archive) "golang/go" one_failed ≡ ok with_seven

seven_is_fetched : FetchedSeven
unfolding fetch_signals count fatal_err map_user failures
seven_is_fetched = refl

fetch_signals-counts_example :
    IsCount archive one_failed.merged 7 with_seven.prs_merged
    × IsCount archive one_failed.closed 1 with_seven.prs_closed
    × IsCount archive (total_of one_failed.recent) 1 with_seven.recent_pr_repo_count
fetch_signals-counts_example =
    fetch_signals-counts as_sent grace_account 9 archive "golang/go" one_failed with_seven
      (λ p xs. refl) refl seven_is_fetched

-- The account has no commit, and still gets one.
no_commit_counts_as_one :
    from_pages (ok 0) (ok 0)
    ≡ ok (record { commits = 1; total = 1; contributors = 1; last_days = 0; unverified = 0 })
no_commit_counts_as_one = refl

abbrev repo_of : String → ℕ → GhRepo
repo_of name stars = record {
  name = name;
  full_name = name;
  description = "";
  language = "Go";
  stargazers_count = stars;
  fork = false;
  archived = false;
  pushed_at = none;
}

abbrev two_pages : ℕ → Page
two_pages i =
    if nat_eq i 1
    then record { repos = repo_of "a" 3 ∷ []; next_page = 2 }
    else record { repos = repo_of "b" 4 ∷ []; next_page = 0 }

two_pages-IsProductive : (i : ℕ) → 0 < (two_pages i).next_page → 0 < length (two_pages i).repos
two_pages-IsProductive i h = elim (Bool-cases (nat_eq i 1)) [
  | inl e ↦ rw e (omega arith)
  | inr e ↦ rw e (omega arith)
]

fetch_user_repos-listing_example :
    (fetch_user_repos (λ i. ok (two_pages i)) 5
      ≡ some (ok (take (capped 5) (listing two_pages (capped 5 + 1) 1))))
    × (0 < capped 5)
    × (capped 5 ≤ 300)
fetch_user_repos-listing_example = fetch_user_repos-listing two_pages 5 two_pages-IsProductive

both_pages :
    fetch_user_repos (λ i. ok (two_pages i)) 5
    ≡ some (ok (map map_repo (repo_of "a" 3 ∷ repo_of "b" 4 ∷ [])))
unfolding fetch_user_repos list_pages
both_pages = refl
