-- ===== src/Model/Response.antt =====
-- The response of a score request (pkg/model/types.go). A response always has a score; the provider
-- is its string. Behavior is in Score/Signals, BehavioralHeuristics in Score/Heuristics.
use devtrace.Base.Time.{Time}
use devtrace.Score.Signals.{Behavior}
use devtrace.Score.Heuristics.{BehavioralHeuristics}
use devtrace.Base.{Option, Bool, ℕ, String, List}
use devtrace.Model.Enrichment.{Enrichment}

pub record Profile : Type 0 where
  pub name : String
  pub avatar_url : String
  pub company : String
  pub location : String
  pub bio : String

pub record Score (W : Type 0) : Type 0 where
  pub grade : String
  pub value : W
  pub categories : List (String × W)

pub record Signals : Type 0 where
  pub account_age_days : ℕ
  pub followers : ℕ
  pub following : ℕ
  pub public_repos : ℕ
  pub forked_repos : ℕ
  pub prs_merged : ℕ
  pub prs_closed : ℕ
  pub recent_pr_repo_count : ℕ
  pub has_bio : Bool
  pub has_company : Bool
  pub has_location : Bool
  pub has_website : Bool
  pub has_public_email : Bool
  pub suspended : Bool

pub record RepoContext : Type 0 where
  pub repo : String
  pub commits : ℕ
  pub total_commits : ℕ
  pub total_contributors : ℕ
  pub last_commit_days : Option ℕ
  pub org_member : Bool
  pub commits_verified : Bool
  pub author_association : String
  pub trusted_org_member : Bool

pub record LicenseEntry : Type 0 where
  pub license : String
  pub count : ℕ
  pub own : ℕ
  pub contributed : ℕ

pub record License : Type 0 where
  pub total_repos_with_merged_prs : ℕ
  pub own_repos : ℕ
  pub distribution : List LicenseEntry

pub record AuthenticityAssessment (W : Type 0) : Type 0 where
  pub classification : String
  pub confidence : W
  pub reasoning : String

pub record AiSensing (W : Type 0) : Type 0 where
  pub co_authored_commits : ℕ
  pub bot_associated_prs : ℕ
  pub known_tool_signatures : List String
  pub total_commits_analyzed : ℕ
  pub ai_associated_ratio : W
  pub pr_authenticity : Option (AuthenticityAssessment W)
  pub behavioral : Option (BehavioralHeuristics W)

pub record ScopeInfo : Type 0 where
  pub repo_scoped : List String
  pub global : List String

pub record ScoreResponse (W : Type 0) : Type 0 where
  pub version : String
  pub username : String
  pub provider : String
  pub profile : Option Profile
  pub score : Score W
  pub signals : Option Signals
  pub risk_summary : String
  pub repo_context : Option RepoContext
  pub license : Option License
  pub ai_sensing : Option (AiSensing W)
  pub behavior : Option (Behavior W)
  pub enrichment : Option (Enrichment W)
  pub scoring_mode : String
  pub scope : Option ScopeInfo
  pub scored_at : Time
  pub cached_at : Option Time
  pub detail : String
