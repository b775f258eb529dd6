-- ===== src/Server/ScoreApi.antt =====
-- scoreHandler, checkQuota and persistScore (pkg/server/handler_score.go), with a database. What the
-- usage query returns is an argument; the errors of what is recorded after the score are only logged.
use devtrace.Server.Names.{is_repo, is_username}
use devtrace.Plan.Defs.{plan_or_free}
use devtrace.Service.Flow.{
  Answer, Outside, Request, answered, fetch_signals_failed, fetch_user_failed, score,
}
use devtrace.Base.Time.{Time}
use devtrace.Model.Response.{ScoreResponse}
use devtrace.Service.Cache.{ScoreCache}
use devtrace.Tenant.Defs.{Tenant}
use devtrace.Score.Float.{Float}
use devtrace.Base.{
  String_eq, ◌==◌, ◌-◌, leb, not, ◌&&◌, none, ltb, some, if◌then◌else◌, Option, String, ℕ, List,
}

pub data Quota : Type 0 where
  quota_unknown : Quota
  -- The limit and what was used, or what remains.
  exceeded within : ℕ → ℕ → Quota

abbrev pub quota_limit : Tenant → ℕ
quota_limit tn =
    if ltb 0 tn.max_contributors
    then tn.max_contributors
    else (plan_or_free tn.plan).max_contributors

unfoldable pub check_quota : Tenant → Option ℕ → Quota
check_quota tn none = quota_unknown
check_quota tn (some used) =
    if ltb 0 (quota_limit tn) && leb (quota_limit tn) used
    then exceeded (quota_limit tn) used
    else within (quota_limit tn) (quota_limit tn - used)

pub data Reply (W : Type 0) : Type 0 where
  invalid_username invalid_repo quota_check_failed scoring_failed : Reply W
  quota_exceeded : ℕ → ℕ → Reply W
  ok : ScoreResponse W → Reply W

-- A usage record of a tenant: the login and the repo.
pub record Usage : Type 0 where
  pub tenant_id : String
  pub username : String
  pub repo : String

-- The reply, the cache, the usage that is recorded, and the score that is saved for the login.
pub record Handled (W : Type 0) : Type 0 where
  pub reply : Reply W
  pub cache : ScoreCache (ScoreResponse W)
  pub usage : Option Usage
  pub persisted : Option (W × String)

abbrev pub plan_name_of : Option Tenant → String
plan_name_of none = ""
plan_name_of (some tn) = tn.plan

abbrev pub usage_of : Option Tenant → Request → Option Usage
usage_of none r = none
usage_of (some tn) r = some (record { tenant_id = tn.id; username = r.username; repo = r.repo })

module _ {W : Type 0} ⦃f : Float W⦄ (version : String) where
  abbrev pub refused : Reply W → ScoreCache (ScoreResponse W) → Handled W
  refused reply c = record { reply = reply; cache = c; usage = none; persisted = none }

  abbrev pub replied : Option Tenant → Request → Answer W → ScoreCache (ScoreResponse W) → Handled W
  replied tn r fetch_signals_failed c = refused scoring_failed c
  replied tn r fetch_user_failed c = refused scoring_failed c
  replied tn r (answered resp) c = record {
    reply = ok resp;
    cache = c;
    usage = usage_of tn r;
    persisted = some (resp.score.value, resp.score.grade);
  }

  abbrev pub serve :
      Option Tenant → Request → Outside W → ScoreCache (ScoreResponse W) → Time → Handled W
  serve tn r out c now = let s = score version r out c now in replied tn r s.answer s.cache

  abbrev pub unless_exceeded : Quota → ScoreCache (ScoreResponse W) → Handled W → Handled W
  unless_exceeded quota_unknown c served = refused quota_check_failed c
  unless_exceeded (exceeded limit used) c served = refused (quota_exceeded limit used) c
  unless_exceeded (within limit remaining) c served = served

  abbrev pub with_quota :
      Option Tenant → Option ℕ → ScoreCache (ScoreResponse W) → Handled W → Handled W
  with_quota none used c served = served
  with_quota (some tn) used c served = unless_exceeded (check_quota tn used) c served

  -- The login, the repo or "" and the trusted organisations of the request, and its tenant.
  unfoldable pub score_handler :
      String
      → String
      → List String
      → Option Tenant
      → Option ℕ
      → Outside W
      → ScoreCache (ScoreResponse W)
      → Time
      → Handled W
  score_handler username repo trusted_orgs tn used out c now =
      let r : Request = record {
        username = username;
        repo = repo;
        plan_name = plan_name_of tn;
        trusted_orgs = trusted_orgs;
      } in
      if not (is_username username)
      then refused invalid_username c
      else (if not (repo == "") && not (is_repo repo)
          then refused invalid_repo c
          else with_quota tn used c (serve tn r out c now))
