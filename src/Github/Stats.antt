-- ===== src/Github/Stats.antt =====
-- The statistics of a contributor in a repo: fetchContributorStats and the commits that stand in for it
-- (pkg/github/fetch.go). What go-github answers, whether the context ends in a wait, and
-- strings.EqualFold are arguments; a week starts after 1970.
use devtrace.Base.{
  zero, ◌||◌, ◌*◌, suc, ◌/◌, nat_eq, length, [], ◌+◌, ltb, none, ◌-◌, some, if◌then◌else◌, ◌∷◌,
  Bool, min, String, List, Option, ℕ,
}
use devtrace.Pool.Client.{Reply, ok, error}
use devtrace.Base.Time.{Time, hour}

abbrev pub max_duration : ℕ
max_duration = 9223372036854775807

-- `int64(time.Since(t).Hours() / 24)`; a difference is at most the longest Duration.
abbrev pub days_since : Time → Time → ℕ
days_since t now = min (now - t) max_duration / (24 * hour)

-- gh.ContributorStats: the login of its author, the total, and the weeks with their start and commits.
pub record ContributorStats : Type 0 where
  pub author : Option String
  pub total : ℕ
  pub weeks : List (Time × ℕ)

-- The stats, or 202 while GitHub computes them.
pub data StatsAnswer : Type 0 where
  accepted : StatsAnswer
  computed : List ContributorStats → StatsAnswer

pub record RepoStats : Type 0 where
  pub commits : ℕ
  pub total : ℕ
  pub contributors : ℕ
  pub last_days : ℕ
  pub unverified : ℕ

-- The attempts `n` from the number `i` on.
unfoldable pub ask_stats :
    (ℕ → Reply StatsAnswer) → (ℕ → Bool) → ℕ → ℕ → Option (List ContributorStats)
ask_stats answer is_done zero i = none
ask_stats answer is_done (suc n) i =
    let again = ask_stats answer is_done n (i + 1) in
    elim (answer i) [
      | error e ↦ none
      | ok reply ↦ elim reply [
        | computed stats ↦ some stats
        | accepted ↦ if nat_eq n 0 || is_done i then none else again
      ]
    ]

-- The last week with commits, or what was found before.
abbrev pub last_active : Time → List (Time × ℕ) → Time
last_active found [] = found
last_active found (w ∷ weeks) = last_active (if ltb 0 w.1 then w.0 else found) weeks

-- `t`, `uc` and `ulw` of the loop.
pub record Tally : Type 0 where
  pub total : ℕ
  pub own : ℕ
  pub last_week : Time

abbrev pub tally_one : (String → Bool) → ContributorStats → Option String → Tally → Tally
tally_one is_user cs none y = y
tally_one is_user cs (some login) y =
    if is_user login
    then record {
      total = y.total + cs.total;
      own = cs.total;
      last_week = last_active y.last_week cs.weeks;
    }
    else record y { total = y.total + cs.total }

unfoldable pub tally : (String → Bool) → List ContributorStats → Tally → Tally
tally is_user [] y = y
tally is_user (cs ∷ stats) y = tally is_user stats (tally_one is_user cs cs.author y)

abbrev pub stats_of : (String → Bool) → Time → List ContributorStats → RepoStats
stats_of is_user now stats =
    let y = tally is_user stats (record { total = 0; own = 0; last_week = 0 }) in
    record {
      commits = y.own;
      total = y.total;
      contributors = length stats;
      last_days = if ltb 0 y.last_week then days_since y.last_week now else 0;
      unverified = 0;
    }

abbrev pub unless_none : (String → Bool) → Time → Option (List ContributorStats) → Option RepoStats
unless_none is_user now none = none
unless_none is_user now (some []) = none
unless_none is_user now (some (cs ∷ stats)) = some (stats_of is_user now (cs ∷ stats))

-- none: the caller falls back.
unfoldable pub fetch_contributor_stats :
    (ℕ → Reply StatsAnswer) → (ℕ → Bool) → (String → Bool) → Time → Option RepoStats
fetch_contributor_stats answer is_done is_user now =
    unless_none is_user now (ask_stats answer is_done 4 0)

-- The last pages of the user's commits and of all commits, one commit to a page.
abbrev pub total_commits : ℕ → Reply ℕ → ℕ
total_commits user_count (error e) = user_count
total_commits user_count (ok last_page) = if ltb 0 last_page then last_page else user_count

abbrev pub from_pages : Reply ℕ → Reply ℕ → Reply RepoStats
from_pages (error e) all = error e
from_pages (ok last_page) all =
    let user_count : ℕ = if nat_eq last_page 0 then 1 else last_page in
    ok (record {
      commits = user_count;
      total = total_commits user_count all;
      contributors = 1;
      last_days = 0;
      unverified = 0;
    })

abbrev pub or_pages : Option RepoStats → Reply ℕ → Reply ℕ → Reply RepoStats
or_pages (some stats) own all = ok stats
or_pages none own all = from_pages own all

unfoldable pub repo_stats :
    (ℕ → Reply StatsAnswer)
    → (ℕ → Bool)
    → (String → Bool)
    → Time
    → Reply ℕ
    → Reply ℕ
    → Reply RepoStats
unfolding fetch_contributor_stats
repo_stats answer is_done is_user now own all =
    or_pages (fetch_contributor_stats answer is_done is_user now) own all
