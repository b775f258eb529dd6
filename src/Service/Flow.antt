-- ===== src/Service/Flow.antt =====
-- ScoreService.Score (pkg/service/score.go): one request, with the cache as the state and what the
-- store, GitHub and Claude return as arguments. A request happens at one time.
use devtrace.Score.Grade.{grade}
use devtrace.Score.Compute.{categories, compute}
use devtrace.Bot.{is_bot}
use devtrace.Service.Enrich.{build_enrichment, is_some_entry, Findings}
use devtrace.Service.Gate.{enrich_for_plan, no_sensing}
use devtrace.Service.Narrative.{
  build_scope_info, scoring_mode, repo_context_from_signals, generate_risk_summary,
  signals_from_input, provider_github, bot_response, UserProfile,
}
use devtrace.Base.Time.{Time}
use devtrace.Score.Signals.{InputSignals, Behavior}
use devtrace.Service.Cache.{cache_get, cache_set, ScoreCache}
use devtrace.Model.Response.{AiSensing, ScoreResponse}
use devtrace.Score.Float.{Float}
use devtrace.Score.Heuristics.{BehavioralHeuristics, compute_tier2_heuristics}
use devtrace.Base.{
  String_eq, ◌&&◌, false, ◌==◌, true, none, not, if◌then◌else◌, any, leb, some, Bool, Option,
  String, ℕ, List,
}

pub record ArchiveHints : Type 0 where
  pub prs_merged : ℕ
  pub prs_closed : ℕ
  pub recent_pr_repo_count : ℕ
  pub trusted : Bool

-- claude.RiskInput
pub record RiskInput (W : Type 0) : Type 0 where
  pub username : String
  pub score : W
  pub grade : String
  pub categories : List (String × W)
  pub account_age : ℕ
  pub prs_merged : ℕ
  pub prs_closed : ℕ
  pub followers : ℕ
  pub public_repos : ℕ
  pub suspended : Bool
  pub has_repo_context : Bool
  pub repo_context : String

-- What the outside returns for one login and repo; none is an error, or nothing. A narrative
-- that is missing, failed or empty is none.
pub record Outside (W : Type 0) : Type 0 where
  pub stored_behavior : Option (Behavior W)
  pub fetch_signals : Option ArchiveHints → Option InputSignals
  pub fetch_user : Option UserProfile
  pub is_org_member : String → Bool
  pub narrative : RiskInput W → Option String
  pub findings : UserProfile → Findings W

abbrev pub min_active_days_for_hints : ℕ
min_active_days_for_hints = 7

abbrev pub hints_of : {W : Type 0} → Option (Behavior W) → Option ArchiveHints
hints_of none = none
hints_of (some beh) = some (record {
  prs_merged = beh.total_prs_merged;
  prs_closed = beh.total_prs_closed;
  recent_pr_repo_count = beh.distinct_repos_90d;
  trusted = leb min_active_days_for_hints beh.active_days;
})

unfoldable pub check_trusted_orgs : (String → Bool) → List String → Bool
check_trusted_orgs is_org_member orgs = any (λ org. not (org == "") && is_org_member org) orgs

-- `len(trustedOrgs) > 0 && !signals.TrustedOrgMember`
abbrev pub with_trusted_orgs : (String → Bool) → List String → InputSignals → InputSignals
with_trusted_orgs is_org_member orgs s =
    if is_some_entry orgs && not s.trusted_org_member
    then record s { trusted_org_member = check_trusted_orgs is_org_member orgs }
    else s

abbrev pub narrative_or : Option String → String → String
narrative_or none template = template
narrative_or (some narrative) template = narrative

module _ {W : Type 0} ⦃f : Float W⦄ where
  abbrev pub risk_input : String → String → InputSignals → Option (Behavior W) → RiskInput W
  risk_input username repo s beh =
      let has_repo = not (repo == "") in
      record {
        username = username;
        score = compute s has_repo beh;
        grade = grade (compute s has_repo beh);
        categories = categories s has_repo beh;
        account_age = s.age_days;
        prs_merged = s.prs_merged;
        prs_closed = s.prs_closed;
        followers = s.followers;
        public_repos = s.public_repos;
        suspended = s.suspended;
        has_repo_context = has_repo;
        repo_context = repo;
      }

  abbrev pub sensing_with : BehavioralHeuristics W → AiSensing W
  sensing_with tier2 = record no_sensing { behavioral = some tier2 }

  -- The response with all fields, from the signals and the profile.
  unfoldable pub full_response :
      String → String → String → Outside W → InputSignals → UserProfile → Time → ScoreResponse W
  full_response version username repo out s p now =
      let has_repo = not (repo == "") in
      let beh = out.stored_behavior in
      let value = compute s has_repo beh in
      record {
        version = version;
        username = username;
        provider = provider_github;
        profile = some (record {
          name = p.name;
          avatar_url = p.avatar_url;
          company = p.company;
          location = p.location;
          bio = p.bio;
        });
        score = record {
          grade = grade value;
          value = value;
          categories = categories s has_repo beh;
        };
        signals = some (signals_from_input s p);
        risk_summary =
            narrative_or (out.narrative (risk_input username repo s beh))
              (generate_risk_summary s value has_repo);
        repo_context = if has_repo then some (repo_context_from_signals s repo) else none;
        license = none;
        ai_sensing = some (sensing_with (compute_tier2_heuristics beh (some s)));
        behavior = beh;
        enrichment = build_enrichment (out.findings p);
        scoring_mode = scoring_mode has_repo;
        scope = some (build_scope_info has_repo);
        scored_at = now;
        cached_at = none;
        detail = "";
      }

pub data Answer (W : Type 0) : Type 0 where
  fetch_signals_failed fetch_user_failed : Answer W
  answered : ScoreResponse W → Answer W

-- The answer, the cache after the request, and whether GitHub was asked.
pub record Served (W : Type 0) : Type 0 where
  pub answer : Answer W
  pub cache : ScoreCache (ScoreResponse W)
  pub asked : Bool

-- A request: the login, the repo or "", the plan and the organisations that the caller trusts.
pub record Request : Type 0 where
  pub username : String
  pub repo : String
  pub plan_name : String
  pub trusted_orgs : List String

module _ {W : Type 0} ⦃f : Float W⦄ (version : String) where
  abbrev pub scored :
      Request
      → Outside W
      → ScoreCache (ScoreResponse W)
      → Time
      → InputSignals
      → Option UserProfile
      → Served W
  scored r out c now s none = record { answer = fetch_user_failed; cache = c; asked = true }
  scored r out c now s (some p) =
      let full =
        full_response version r.username r.repo out
          (with_trusted_orgs out.is_org_member r.trusted_orgs s) p now in
      record {
        answer = answered (enrich_for_plan full r.plan_name now);
        cache = cache_set c r.username r.repo full now;
        asked = true;
      }

  abbrev pub fetched_score :
      Request → Outside W → ScoreCache (ScoreResponse W) → Time → Option InputSignals → Served W
  fetched_score r out c now none = record { answer = fetch_signals_failed; cache = c; asked = true }
  fetched_score r out c now (some s) = scored r out c now s out.fetch_user

  abbrev pub unless_cached :
      Request
      → Outside W
      → ScoreCache (ScoreResponse W)
      → Time
      → Option (ScoreResponse W)
      → Served W
  unless_cached r out c now (some full) = record {
    answer = answered (enrich_for_plan full r.plan_name now);
    cache = c;
    asked = false;
  }
  unless_cached r out c now none =
      fetched_score r out c now (out.fetch_signals (hints_of out.stored_behavior))

  unfoldable pub score : Request → Outside W → ScoreCache (ScoreResponse W) → Time → Served W
  score r out c now =
      if is_bot r.username
      then record {
        answer = answered (bot_response version r.username now);
        cache = c;
        asked = false;
      }
      else unless_cached r out c now (cache_get c r.username r.repo now)
