-- ===== src/Service/Narrative.antt =====
-- The parts of a response that are made from the signals: generateRiskSummary, scoringMode,
-- buildScopeInfo, signalsFromInput, repoContextFromSignals and botResponse
-- (pkg/service/score.go).
use devtrace.Model.Response.{ScoreResponse, RepoContext, Signals, ScopeInfo}
use devtrace.Base.Time.{Time}
use devtrace.Score.Signals.{InputSignals}
use Prim.Native.String.{String, ◌++◌}
use devtrace.Score.Float.{Float}
use devtrace.Score.Curves.{zero_w}
use devtrace.Base.{
  ◌&&◌, none, nat_eq, String_eq, some, ltb, ◌==◌, if◌then◌else◌, Bool, ℕ, [], ◌∷◌, List,
}

pub record UserProfile : Type 0 where
  pub username : String
  pub name : String
  pub email : String
  pub avatar_url : String
  pub company : String
  pub location : String
  pub bio : String
  pub website : String
  pub created_at : Time
  pub suspended : Bool
  pub followers : ℕ
  pub following : ℕ
  pub public_repos : ℕ

module _ {W : Type 0} ⦃f : Float W⦄ where
  -- `value >= n`, in tenths.
  abbrev pub at_least : W → ℕ → Bool
  at_least value n = f.at_most (f.ratio n 10) value

  abbrev pub assessment : InputSignals → W → Bool → String
  assessment s value has_repo =
      if s.suspended
      then (if has_repo
          then "Account is suspended. Do not merge without manual review."
          else "Account is suspended.")
      else (if at_least value 8
          then "Well-established contributor with strong activity history."
          else (if at_least value 5
              then "Established contributor with consistent activity history."
              else (if at_least value 3
                  then "Limited contribution history."
                  else "Minimal public activity.")))

  abbrev pub review_advice : W → String
  review_advice value =
      if at_least value 7
      then " Standard review process is sufficient."
      else (if at_least value 4
          then " Enhanced review recommended."
          else " Maintainer review required.")

  abbrev pub review_note : InputSignals → W → Bool → String
  review_note s value has_repo =
      let first_time =
        if s.author_association == "FIRST_TIME_CONTRIBUTOR"
        then " First-time contributor to this repository."
        else "" in
      if has_repo then first_time ++ review_advice value else ""

  unfoldable pub generate_risk_summary : InputSignals → W → Bool → String
  generate_risk_summary s value has_repo =
      assessment s value has_repo
      ++ ((if ltb s.age_days 90 then " Account was created recently." else "")
          ++ ((if nat_eq s.prs_merged 0 then " No merged pull requests on record." else "")
              ++ review_note s value has_repo))

abbrev pub scoring_mode : Bool → String
scoring_mode has_repo = if has_repo then "repo" else "global"

abbrev pub global_fields : List String
global_fields =
    "profile" ∷ "signals" ∷ "risk_summary" ∷ "behavior" ∷ "ai_sensing"
    ∷ "enrichment.lifetime_activity" ∷ "enrichment.reciprocity" ∷ "enrichment.top_contributed_repos"
    ∷ "enrichment.linked_accounts" ∷ "enrichment.emails" ∷ "enrichment.owned_repos"
    ∷ "enrichment.security_credits" ∷ "enrichment.publisher" ∷ "enrichment.stack_overflow"
    ∷ "enrichment.cross_vcs" ∷ []

abbrev pub build_scope_info : Bool → ScopeInfo
build_scope_info has_repo = record {
  repo_scoped = if has_repo then "repo_context" ∷ "enrichment.ossf_scorecard" ∷ [] else [];
  global = global_fields;
}

abbrev pub signals_from_input : InputSignals → UserProfile → Signals
signals_from_input s p = record {
  account_age_days = s.age_days;
  followers = p.followers;
  following = p.following;
  public_repos = p.public_repos;
  forked_repos = s.forked_repos;
  prs_merged = s.prs_merged;
  prs_closed = s.prs_closed;
  recent_pr_repo_count = s.recent_pr_repo_count;
  has_bio = s.has_bio;
  has_company = s.has_company;
  has_location = s.has_location;
  has_website = s.has_website;
  has_public_email = s.has_public_email;
  suspended = s.suspended;
}

abbrev pub repo_context_from_signals : InputSignals → String → RepoContext
repo_context_from_signals s repo = record {
  repo = repo;
  commits = s.commits;
  total_commits = s.total_commits;
  total_contributors = s.total_contributors;
  last_commit_days = some s.last_commit_days;
  org_member = s.org_member;
  commits_verified = nat_eq s.unverified_commits 0 && ltb 0 s.commits;
  author_association = s.author_association;
  trusted_org_member = s.trusted_org_member;
}

abbrev pub provider_github : String
provider_github = "github"

module _ {W : Type 0} ⦃f : Float W⦄ where
  unfoldable pub bot_response : String → String → Time → ScoreResponse W
  bot_response version username now = record {
    version = version;
    username = username;
    provider = provider_github;
    profile = none;
    score = record { grade = "F"; value = zero_w; categories = [] };
    signals = none;
    risk_summary = "Bot account detected. Scoring is not applicable.";
    repo_context = none;
    license = none;
    ai_sensing = none;
    behavior = none;
    enrichment = none;
    scoring_mode = "bot";
    scope = none;
    scored_at = now;
    cached_at = none;
    detail = "";
  }
