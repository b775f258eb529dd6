-- ===== src/Service/Gate.antt =====
-- enrichForPlan (pkg/service/score.go). Records are values, so the deep copy it starts with is the
-- response itself.
use devtrace.Plan.Defs.{plan_pro, plan_starter, plan_free}
use devtrace.Base.Time.{Time}
use devtrace.Model.Enrichment.{Enrichment}
use devtrace.Model.Response.{ScoreResponse, AiSensing}
use mathlib.Core.Option
use devtrace.Score.Float.{Float}
use devtrace.Score.Curves.{zero_w}
use devtrace.Base.{Option, String_eq, ◌==◌, if◌then◌else◌, none, some, [], String}

module _ {W : Type 0} ⦃f : Float W⦄ where
  -- `&model.AISensing{}`
  abbrev pub no_sensing : AiSensing W
  no_sensing = record {
    co_authored_commits = 0;
    bot_associated_prs = 0;
    known_tool_signatures = [];
    total_commits_analyzed = 0;
    ai_associated_ratio = zero_w;
    pr_authenticity = none;
    behavioral = none;
  }

  abbrev pub metadata_only : Option (AiSensing W) → AiSensing W
  metadata_only none = no_sensing
  metadata_only (some ai) = record ai { pr_authenticity = none; behavioral = none }

  abbrev pub tier_1_only : Option (AiSensing W) → AiSensing W
  tier_1_only none = no_sensing
  tier_1_only (some ai) = record ai { behavioral = none }

  abbrev pub or_no_sensing : Option (AiSensing W) → AiSensing W
  or_no_sensing none = no_sensing
  or_no_sensing (some ai) = ai

abbrev pub strip_for_free : {W : Type 0} → Enrichment W → Enrichment W
strip_for_free enr = record enr {
  emails = [];
  security_credits = none;
  ossf_scorecard = none;
  publisher = none;
  stack_overflow = none;
  cross_vcs = none;
}

abbrev pub strip_for_starter : {W : Type 0} → Enrichment W → Enrichment W
strip_for_starter enr = record enr { cross_vcs = none }

abbrev pub sign_up : String
sign_up = "Sign up for full signal breakdown -> devtrace.thingz.io"

module _ {W : Type 0} ⦃f : Float W⦄ where
  abbrev pub for_nobody : ScoreResponse W → Time → ScoreResponse W
  for_nobody full now = record full {
    score = record (full.score) { categories = [] };
    profile = none;
    signals = none;
    risk_summary = "";
    repo_context = none;
    license = none;
    ai_sensing = none;
    behavior = none;
    enrichment = none;
    scope = none;
    detail = sign_up;
    cached_at = some now;
  }

  abbrev pub for_free : ScoreResponse W → ScoreResponse W
  for_free full = record full {
    license = none;
    ai_sensing = some (metadata_only full.ai_sensing);
    enrichment = Option.map strip_for_free full.enrichment;
  }

  abbrev pub for_starter : ScoreResponse W → ScoreResponse W
  for_starter full = record full {
    license = none;
    ai_sensing = some (tier_1_only full.ai_sensing);
    enrichment = Option.map strip_for_starter full.enrichment;
  }

  abbrev pub for_pro : ScoreResponse W → ScoreResponse W
  for_pro full = record full { ai_sensing = some (or_no_sensing full.ai_sensing) }

  -- The switch has no default: another name leaves the response as it is.
  unfoldable pub enrich_for_plan : ScoreResponse W → String → Time → ScoreResponse W
  enrich_for_plan full plan_name now =
      if plan_name == ""
      then for_nobody full now
      else (if plan_name == plan_free
          then for_free full
          else (if plan_name == plan_starter
              then for_starter full
              else (if plan_name == plan_pro then for_pro full else full)))
