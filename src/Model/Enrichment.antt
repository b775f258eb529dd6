-- ===== src/Model/Enrichment.antt =====
-- The enrichment of a response (pkg/model/types.go). A pointer is an option, a map the list of its
-- entries, a nil slice the empty list.
use devtrace.Base.Int.{ℤ}
use devtrace.Base.Time.{Time}
use devtrace.Base.{Option, ℕ, String, List}

pub record LinkedAccount : Type 0 where
  pub platform : String
  pub url : String
  pub source : String
  pub tier : String

pub record RepoContribution : Type 0 where
  pub repo : String
  pub activities : ℕ
  pub last_contribution : Time

pub record LifetimeActivity : Type 0 where
  pub prs_opened : ℕ
  pub prs_merged : ℕ
  pub prs_closed : ℕ
  pub reviews_given : ℕ
  pub issue_comments : ℕ
  pub issues_opened : ℕ
  pub issues_closed : ℕ
  pub active_days : ℕ
  pub first_active : Option Time
  pub last_active : Option Time

pub record Reciprocity (W : Type 0) : Type 0 where
  pub reviews_per_pr : W
  pub issue_closing_rate : W
  pub issue_comments_per_pr : W

pub record LanguageBucket (W : Type 0) : Type 0 where
  pub language : String
  pub repos : ℕ
  pub share : W

pub record OwnedRepo : Type 0 where
  pub name : String
  pub stars : ℕ
  pub language : String
  pub description : String

pub record OwnedRepos (W : Type 0) : Type 0 where
  pub total_stars : ℕ
  pub total_repos : ℕ
  pub top : List OwnedRepo
  pub languages : List (LanguageBucket W)

pub record SecurityCredit : Type 0 where
  pub advisory_id : String
  pub credit_type : String
  pub severity : String
  pub cveid : String
  pub summary : String
  pub published_at : Time

pub record SecurityCredits : Type 0 where
  pub reporter_count : ℕ
  pub fixer_count : ℕ
  pub other_count : ℕ
  pub by_severity : List (String × ℕ)
  pub recent : List SecurityCredit

pub record OssfCheck : Type 0 where
  pub name : String
  pub score : ℤ
  pub reason : String
  pub doc_url : String

pub record OssfScorecard (W : Type 0) : Type 0 where
  pub score : W
  pub date : Time
  pub commit : String
  pub scorecard_ver : String
  pub checks : List OssfCheck

pub record Package : Type 0 where
  pub name : String
  pub role : String
  pub url : String

pub record RegistryProfile : Type 0 where
  pub package_count : ℕ
  pub top : List Package

pub record Publisher : Type 0 where
  pub npm : Option RegistryProfile
  pub py_pi : Option RegistryProfile
  pub total_packages : ℕ

pub record StackOverflow : Type 0 where
  pub user_id : ℕ
  pub display_name : String
  pub reputation : ℕ
  pub badge_bronze : ℕ
  pub badge_silver : ℕ
  pub badge_gold : ℕ
  pub url : String
  pub created_at : Option Time
  pub last_access_at : Option Time

pub record ForgeMatch : Type 0 where
  pub forge : String
  pub url : String
  pub key_count : ℕ
  pub matched_keys : ℕ

pub record CrossVcs : Type 0 where
  pub matches : List ForgeMatch
  pub total_matched : ℕ

pub record Enrichment (W : Type 0) : Type 0 where
  pub lifetime_activity : Option LifetimeActivity
  pub top_contributed_repos : List RepoContribution
  pub linked_accounts : List LinkedAccount
  pub emails : List String
  pub reciprocity : Option (Reciprocity W)
  pub owned_repos : Option (OwnedRepos W)
  pub security_credits : Option SecurityCredits
  pub ossf_scorecard : Option (OssfScorecard W)
  pub publisher : Option Publisher
  pub stack_overflow : Option StackOverflow
  pub cross_vcs : Option CrossVcs
