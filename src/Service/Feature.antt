-- ===== src/Service/Feature.antt =====
-- The parts of a response, the plan that each needs, and how each is seen.
use devtrace.Score.Heuristics.{BehavioralHeuristics}
use devtrace.Score.Float.{Float, of_nat}
use devtrace.Model.Enrichment.{
  LifetimeActivity, RepoContribution, LinkedAccount, Reciprocity, OwnedRepos, CrossVcs,
  StackOverflow, Publisher, OssfScorecard, SecurityCredits,
}
use devtrace.Score.Signals.{Behavior}
use devtrace.Plan.Defs.{plan_starter, plan_free}
use devtrace.Model.Response.{
  AiSensing, License, AuthenticityAssessment, ScopeInfo, RepoContext, Signals, Profile,
  ScoreResponse,
}
use devtrace.Base.{
  String_eq, arith, true, ◌==◌, false, some, none, if◌then◌else◌, ◌≡◌, Option, [], String, leb, ℕ,
  List,
}

-- The parts of a response that a plan may hide.
pub data Feature : Type 0 where
  categories_shown profile_shown signals_shown summary_shown repo_context_shown behavior_shown :
      Feature
  scope_shown emails_shown credits_shown scorecard_shown publisher_shown stack_overflow_shown :
      Feature
  cross_vcs_shown license_shown authenticity_shown heuristics_shown lifetime_shown : Feature
  contributed_shown accounts_shown reciprocity_shown owned_shown metadata_shown : Feature

-- The plan that a part needs: 1 for Free, 2 for Starter, 3 for Pro.
abbrev pub needs : Feature → ℕ
needs categories_shown = 1
needs profile_shown = 1
needs signals_shown = 1
needs summary_shown = 1
needs repo_context_shown = 1
needs behavior_shown = 1
needs scope_shown = 1
needs lifetime_shown = 1
needs contributed_shown = 1
needs accounts_shown = 1
needs reciprocity_shown = 1
needs owned_shown = 1
needs metadata_shown = 1
needs emails_shown = 2
needs credits_shown = 2
needs scorecard_shown = 2
needs publisher_shown = 2
needs stack_overflow_shown = 2
needs authenticity_shown = 2
needs cross_vcs_shown = 3
needs license_shown = 3
needs heuristics_shown = 3

pub needs_bounds : (x : Feature) → (leb (needs x) 0 ≡ false) × (leb (needs x) 3 ≡ true)
needs_bounds x = (ground arith, ground arith)

-- The rank of a plan's name: 0 for no plan, 3 for Pro and for a name that is no plan's.
abbrev pub rank : String → ℕ
rank name =
    if name == ""
    then 0
    else (if name == plan_free then 1 else (if name == plan_starter then 2 else 3))

-- What a part looks like.
abbrev pub Seen : Type 0 → Feature → Type 0
Seen W categories_shown = List (String × W)
Seen W profile_shown = Option Profile
Seen W signals_shown = Option Signals
Seen W summary_shown = String
Seen W repo_context_shown = Option RepoContext
Seen W behavior_shown = Option (Behavior W)
Seen W scope_shown = Option ScopeInfo
Seen W lifetime_shown = Option LifetimeActivity
Seen W contributed_shown = List RepoContribution
Seen W accounts_shown = List LinkedAccount
Seen W reciprocity_shown = Option (Reciprocity W)
Seen W owned_shown = Option (OwnedRepos W)
Seen W metadata_shown = ℕ × ℕ × List String × ℕ × W
Seen W emails_shown = List String
Seen W credits_shown = Option SecurityCredits
Seen W scorecard_shown = Option (OssfScorecard W)
Seen W publisher_shown = Option Publisher
Seen W stack_overflow_shown = Option StackOverflow
Seen W authenticity_shown = Option (AuthenticityAssessment W)
Seen W cross_vcs_shown = Option CrossVcs
Seen W license_shown = Option License
Seen W heuristics_shown = Option (BehavioralHeuristics W)

-- What a hidden part looks like.
module _ (W : Type 0) ⦃f : Float W⦄ where
  abbrev pub unseen : (x : Feature) → Seen W x
  unseen categories_shown = []
  unseen profile_shown = none
  unseen signals_shown = none
  unseen summary_shown = ""
  unseen repo_context_shown = none
  unseen behavior_shown = none
  unseen scope_shown = none
  unseen emails_shown = []
  unseen credits_shown = none
  unseen scorecard_shown = none
  unseen publisher_shown = none
  unseen stack_overflow_shown = none
  unseen authenticity_shown = none
  unseen cross_vcs_shown = none
  unseen license_shown = none
  unseen heuristics_shown = none
  unseen lifetime_shown = none
  unseen contributed_shown = []
  unseen accounts_shown = []
  unseen reciprocity_shown = none
  unseen owned_shown = none
  unseen metadata_shown = (0, 0, [], 0, of_nat 0)

abbrev pub then_seen : {A : Type 0} → {B : Type 0} → (A → B) → B → Option A → B
then_seen look default none = default
then_seen look default (some a) = look a

-- What is told of the AI tools of a contributor, beyond the assessments.
abbrev pub ai_metadata : {W : Type 0} → AiSensing W → ℕ × ℕ × List String × ℕ × W
ai_metadata a = (
  a.co_authored_commits, a.bot_associated_prs, a.known_tool_signatures, a.total_commits_analyzed,
  a.ai_associated_ratio,
)

module _ {W : Type 0} ⦃f : Float W⦄ where
  abbrev pub seen : (x : Feature) → ScoreResponse W → Seen W x
  seen categories_shown r = r.score.categories
  seen profile_shown r = r.profile
  seen signals_shown r = r.signals
  seen summary_shown r = r.risk_summary
  seen repo_context_shown r = r.repo_context
  seen behavior_shown r = r.behavior
  seen scope_shown r = r.scope
  seen emails_shown r = then_seen (λ e. e.emails) [] r.enrichment
  seen credits_shown r = then_seen (λ e. e.security_credits) none r.enrichment
  seen scorecard_shown r = then_seen (λ e. e.ossf_scorecard) none r.enrichment
  seen publisher_shown r = then_seen (λ e. e.publisher) none r.enrichment
  seen stack_overflow_shown r = then_seen (λ e. e.stack_overflow) none r.enrichment
  seen authenticity_shown r = then_seen (λ a. a.pr_authenticity) none r.ai_sensing
  seen cross_vcs_shown r = then_seen (λ e. e.cross_vcs) none r.enrichment
  seen license_shown r = r.license
  seen heuristics_shown r = then_seen (λ a. a.behavioral) none r.ai_sensing
  seen lifetime_shown r = then_seen (λ e. e.lifetime_activity) none r.enrichment
  seen contributed_shown r = then_seen (λ e. e.top_contributed_repos) [] r.enrichment
  seen accounts_shown r = then_seen (λ e. e.linked_accounts) [] r.enrichment
  seen reciprocity_shown r = then_seen (λ e. e.reciprocity) none r.enrichment
  seen owned_shown r = then_seen (λ e. e.owned_repos) none r.enrichment
  seen metadata_shown r = then_seen ai_metadata (0, 0, [], 0, of_nat 0) r.ai_sensing
