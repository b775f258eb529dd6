-- ===== src/Github/Signals.antt =====
-- fetchSignals (pkg/github/fetch.go). What go-github answers to each call is an argument, and
-- so is the order in which the failures of the concurrent calls arrive.
use devtrace.Base.{
  any, ltb, String_eq, ◌&&◌, ◌+◌, ◌||◌, nat_eq, ◌==◌, none, true, if◌then◌else◌, ◌++◌, ◌∷◌, [],
  some, false, not, Bool, List, ℕ, Option, String,
}
use devtrace.Pool.Client.{Reply, ok, error, CallError, is_rate_limited}
use devtrace.Service.Flow.{ArchiveHints}
use devtrace.Score.Signals.{InputSignals}
use devtrace.Ingest.Notify.{before_slash}
use devtrace.Github.Account.{GhUser, map_user, profile_signals}
use devtrace.Github.Stats.{RepoStats}
use devtrace.Base.Rows.{count}
use devtrace.Base.Time.{Time}

pub data Field : Type 0 where
  merged_prs closed_prs recent_prs forked_repos org_member author_assoc repo_commits_fallback :
      Field

-- `result`.
pub record Failure : Type 0 where
  pub field : Field
  pub err : CallError

-- The answers: totals of two searches, the repos' URLs of the third, which of the repos are forks,
-- membership, the associations in the latest issue, and repoStats.
pub record Answers : Type 0 where
  pub merged : Reply ℕ
  pub closed : Reply ℕ
  pub recent : Reply (List String)
  pub forks : Reply (List Bool)
  pub member : Reply Bool
  pub association : Reply (List String)
  pub stats : Reply RepoStats

abbrev pub failed : {A : Type 0} → Field → Reply A → List Failure
failed field (ok a) = []
failed field (error e) = record { field = field; err = e } ∷ []

abbrev pub value_or : {A : Type 0} → A → Reply A → A
value_or d (ok a) = a
value_or d (error e) = d

-- The size of the set of the URLs that are not empty.
abbrev pub count_distinct : List String → ℕ
count_distinct [] = 0
count_distinct (u ∷ urls) =
    (if u == "" || any (λ v. v == u) urls then 0 else 1) + count_distinct urls

abbrev pub count_forks : List Bool → ℕ
count_forks [] = 0
count_forks (b ∷ repos) = (if b then 1 else 0) + count_forks repos

abbrev pub is_trusted : Option ArchiveHints → Bool
is_trusted none = false
is_trusted (some h) = h.trusted

-- The counts mergedPRs, closedPRs and recentRepos.
pub record Counts : Type 0 where
  pub merged : ℕ
  pub closed : ℕ
  pub recent : ℕ

abbrev pub counts_of_hints : ArchiveHints → Counts
counts_of_hints h = record {
  merged = h.prs_merged;
  closed = h.prs_closed;
  recent = h.recent_pr_repo_count;
}

abbrev pub counts_of_api : Answers → Counts
counts_of_api a = record {
  merged = value_or 0 a.merged;
  closed = value_or 0 a.closed;
  recent = elim a.recent [ ok urls ↦ count_distinct urls | error e ↦ 0 ];
}

abbrev pub counts_of : Option ArchiveHints → Answers → Counts
counts_of none a = counts_of_api a
counts_of (some h) a = if h.trusted then counts_of_hints h else counts_of_api a

-- strings.SplitN(repo, "/", 2) has two parts.
abbrev pub has_slash : String → Bool
has_slash repo = elim (before_slash repo) [ none ↦ false | some o ↦ true ]

abbrev pub search_failures : Answers → List Failure
search_failures a =
    failed merged_prs a.merged ++ (failed closed_prs a.closed ++ failed recent_prs a.recent)

abbrev pub repo_failures : Answers → List Failure
repo_failures a =
    failed org_member a.member
    ++ (failed author_assoc a.association ++ failed repo_commits_fallback a.stats)

-- What the channel carries, in some order.
unfoldable pub failures : Option ArchiveHints → String → Answers → List Failure
failures hints repo a =
    (if is_trusted hints then [] else search_failures a)
    ++ (failed forked_repos a.forks ++ (if has_slash repo then repo_failures a else []))

abbrev pub is_search : Failure → Bool
is_search x = elim x.field [ merged_prs ↦ true | closed_prs ↦ true | recent_prs ↦ true | _ ↦ false ]

abbrev pub is_limited : Failure → Bool
is_limited x = is_rate_limited x.err

-- The first failure, in the order of arrival, that is a rate limit.
unfoldable pub fatal_err : List Failure → Option CallError
fatal_err [] = none
fatal_err (x ∷ xs) = let rest = fatal_err xs in if is_limited x then some x.err else rest

abbrev pub floor_at : ℕ → ℕ → ℕ
floor_at n hint = if nat_eq n 0 && ltb 0 hint then hint else n

abbrev pub floored : Counts → ArchiveHints → Counts
floored c h = record {
  merged = floor_at c.merged h.prs_merged;
  closed = floor_at c.closed h.prs_closed;
  recent = floor_at c.recent h.recent_pr_repo_count;
}

abbrev pub with_floor : Bool → Option ArchiveHints → Counts → Counts
with_floor any_failed none c = c
with_floor any_failed (some h) c = if any_failed && not h.trusted then floored c h else c

abbrev pub no_stats : RepoStats
no_stats = record { commits = 0; total = 0; contributors = 0; last_days = 0; unverified = 0 }

abbrev pub with_stats : RepoStats → InputSignals → InputSignals
with_stats r s =
    if ltb 0 r.commits || ltb 0 r.total
    then record s {
      commits = r.commits;
      total_commits = r.total;
      total_contributors = r.contributors;
      last_commit_days = r.last_days;
      unverified_commits = r.unverified;
    }
    else s

abbrev pub first_or_empty : List String → String
first_or_empty [] = ""
first_or_empty (a ∷ more) = a

abbrev pub with_answers : Bool → Bool → Counts → Answers → InputSignals → InputSignals
with_answers any_failed has_repo c a s =
    with_stats (if has_repo then value_or no_stats a.stats else no_stats) (record s {
      partial = any_failed;
      prs_merged = c.merged;
      prs_closed = c.closed;
      recent_pr_repo_count = c.recent;
      forked_repos = elim a.forks [ ok repos ↦ count_forks repos | error e ↦ 0 ];
      org_member = has_repo && value_or false a.member;
      author_association = if has_repo then first_or_empty (value_or [] a.association) else "";
    })

abbrev pub is_any : List Failure → Bool
is_any [] = false
is_any (x ∷ xs) = true

-- The error is returned if all searches failed and some failure was a rate limit.
abbrev pub concluded : Bool → Option CallError → InputSignals → Reply InputSignals
concluded all_searches none s = ok s
concluded all_searches (some e) s = if all_searches then error e else ok s

unfoldable pub extended :
    (List Failure → List Failure)
    → Option ArchiveHints
    → String
    → Answers
    → InputSignals
    → Reply InputSignals
unfolding failures
extended arrival hints repo a s =
    let arrived = arrival (failures hints repo a) in
    let any_failed = is_any arrived in
    concluded (nat_eq (count is_search arrived) 3) (fatal_err arrived) (
      with_answers any_failed (has_slash repo) (with_floor any_failed hints (counts_of hints a)) a
        s)

unfoldable pub fetch_signals :
    (List Failure → List Failure)
    → Reply GhUser
    → Time
    → Option ArchiveHints
    → String
    → Answers
    → Reply InputSignals
unfolding extended map_user
fetch_signals arrival (error e) now hints repo a = error e
fetch_signals arrival (ok u) now hints repo a =
    let p = map_user u in
    if p.suspended
    then ok (profile_signals p now)
    else extended arrival hints repo a (profile_signals p now)
