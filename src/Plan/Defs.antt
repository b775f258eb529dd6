-- ===== src/Plan/Defs.antt =====
-- The subscription tiers of pkg/plan/plan.go: their table, Get, Free, DisplayPlans and Upsell. A
-- limit is a count; texts that are only shown are kept as they are.
use devtrace.Base.{
  none, [], some, map, ◌∷◌, if◌then◌else◌, List, Option, true, false, Bool, ℕ, ◌==◌, String,
  String_eq,
}

pub record Plan : Type 0 where
  pub name : String
  pub display_name : String
  pub price_label : String
  pub max_contributors : ℕ
  pub rate_limit_per_hour : ℕ
  pub deep_scoring : Bool
  pub ai_sensing : Bool
  pub batch_api : Bool
  pub webhooks : Bool
  pub history_days : ℕ
  pub max_api_keys : ℕ
  pub compliance_reports : Bool
  pub max_watchlists : ℕ
  pub digest_email : Bool
  pub watchlist_scope : String
  pub event_retention_days : ℕ
  pub max_events_per_tenant : ℕ
  pub risk_summary : String
  pub ai_sensing_label : String
  pub api_keys_label : String
  pub alerts_label : String
  pub compliance_label : String

abbrev pub plan_free : String
plan_free = "free"

abbrev pub plan_starter : String
plan_starter = "starter"

abbrev pub plan_pro : String
plan_pro = "pro"

abbrev pub free : Plan
free = record {
  name = plan_free;
  display_name = "Free";
  price_label = "";
  max_contributors = 50;
  rate_limit_per_hour = 60;
  deep_scoring = false;
  ai_sensing = false;
  batch_api = false;
  webhooks = false;
  history_days = 30;
  max_api_keys = 1;
  compliance_reports = false;
  max_watchlists = 0;
  digest_email = false;
  watchlist_scope = "pr";
  event_retention_days = 7;
  max_events_per_tenant = 100;
  risk_summary = "Metrics-based";
  ai_sensing_label = "Metadata";
  api_keys_label = "1";
  alerts_label = "Dashboard only";
  compliance_label = "—";
}

abbrev pub starter : Plan
starter = record {
  name = plan_starter;
  display_name = "Starter";
  price_label = "$0/mo*";
  max_contributors = 200;
  rate_limit_per_hour = 300;
  deep_scoring = false;
  ai_sensing = true;
  batch_api = false;
  webhooks = false;
  history_days = 90;
  max_api_keys = 1;
  compliance_reports = false;
  max_watchlists = 1;
  digest_email = true;
  watchlist_scope = "pr_review";
  event_retention_days = 30;
  max_events_per_tenant = 1000;
  risk_summary = "AI-powered";
  ai_sensing_label = "Metadata + PR authenticity";
  api_keys_label = "1";
  alerts_label = "Weekly email + dashboard";
  compliance_label = "—";
}

abbrev pub pro : Plan
pro = record {
  name = plan_pro;
  display_name = "Pro";
  price_label = "$0/mo*";
  max_contributors = 2000;
  rate_limit_per_hour = 1000;
  deep_scoring = true;
  ai_sensing = true;
  batch_api = true;
  webhooks = true;
  history_days = 365;
  max_api_keys = 10;
  compliance_reports = true;
  max_watchlists = 3;
  digest_email = true;
  watchlist_scope = "pr_review_issue";
  event_retention_days = 90;
  max_events_per_tenant = 10000;
  risk_summary = "AI-powered";
  ai_sensing_label = "Full Context";
  api_keys_label = "10";
  alerts_label = "Weekly email + dashboard";
  compliance_label = "SSDF + EU CRA";
}

-- The map `plans` under Get.
unfoldable pub get_plan : String → Option Plan
get_plan name =
    if name == plan_free
    then some free
    else (if name == plan_starter
        then some starter
        else (if name == plan_pro then some pro else none))

-- `p, ok := plan.Get(name); if !ok { p = plan.Free() }`, as every caller has it.
unfoldable pub plan_or_free : String → Plan
unfolding get_plan
plan_or_free name = elim (get_plan name) [ none ↦ free | some p ↦ p ]

abbrev pub plan_order : List String
plan_order = plan_free ∷ plan_starter ∷ plan_pro ∷ []

unfoldable pub display_plans : List Plan
unfolding plan_or_free
display_plans = map plan_or_free plan_order

pub record UpsellInfo : Type 0 where
  pub message : String
  pub cta : String
  pub link : String

unfoldable pub upsell : String → Option UpsellInfo
upsell current_plan =
    if current_plan == ""
    then some (record {
      message = "Sign in to see full signal breakdown, category scores, and risk summaries.";
      cta = "Sign in with GitHub";
      link = "/auth/github";
    })
    else (if current_plan == plan_free
        then some (record {
          message =
              "Upgrade to Starter for AI-powered risk summaries and PR authenticity analysis.";
          cta = "Upgrade to Starter";
          link = "/settings";
        })
        else (if current_plan == plan_starter
            then some (record {
              message =
                  "Upgrade to Pro for behavioral heuristics, compliance reports, and 365-day score history.";
              cta = "Upgrade to Pro";
              link = "/settings";
            })
            else none))
