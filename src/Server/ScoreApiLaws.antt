-- ===== src/Server/ScoreApiLaws.antt =====
-- What a caller of the score API gets, by plan and by quota.
use devtrace.Service.Narrative.{UserProfile}
use devtrace.Score.Signals.{InputSignals}
use devtrace.Service.Cache.{ScoreCache, cache_get}
use devtrace.Base.Time.{Time}
use devtrace.Service.Feature.{unseen, rank, needs, seen, Feature}
use devtrace.Model.Response.{ScoreResponse}
use devtrace.Score.Float.{Float}
use devtrace.Service.Flow.{
  hints_of, full_response, with_trusted_orgs, Outside, Request, answered, fetch_signals_failed,
  fetch_user_failed, Answer,
}
use devtrace.Server.ScoreApi.{
  plan_name_of, Reply, invalid_username, invalid_repo, quota_check_failed, scoring_failed,
  quota_exceeded, ok,
}
use devtrace.Tenant.Defs.{Tenant}
use devtrace.Base.{◌⊎◌, String_eq, leb, some, if◌then◌else◌, ◌≡◌, Option, String, List}

module _ {W : Type 0} ⦃f : Float W⦄ (version : String) (r : Request) (out : Outside W)
    (c : ScoreCache (ScoreResponse W)) (now : Time) where
  -- The full response of a request: the cached one, or the one that is computed from what GitHub
  -- returns.
  abbrev pub IsFull : ScoreResponse W → Type 0
  IsFull full =
      (cache_get c r.username r.repo now ≡ some full)
      ⊎ ((s : InputSignals) × (p : UserProfile) × (out.fetch_signals (hints_of out.stored_behavior)
            ≡ some s)
          × (out.fetch_user ≡ some p)
          × (full
              ≡ full_response version r.username r.repo out
                  (with_trusted_orgs out.is_org_member r.trusted_orgs s) p now))

  -- An answer shows of the full response what the rank of the plan allows.
  abbrev pub ShowsByRank : ScoreResponse W → Type 0
  ShowsByRank resp =
      (full : ScoreResponse W) × IsFull full
      × ((x : Feature)
          → seen x resp ≡ (if leb (needs x) (rank r.plan_name) then seen x full else unseen W x))

  abbrev AnswersByRank : Answer W → Type 0
  AnswersByRank fetch_signals_failed = Unit {0}
  AnswersByRank fetch_user_failed = Unit {0}
  AnswersByRank (answered resp) = ShowsByRank resp

  abbrev pub RepliesByRank : Reply W → Type 0
  RepliesByRank (ok resp) = ShowsByRank resp
  RepliesByRank invalid_username = Unit {0}
  RepliesByRank invalid_repo = Unit {0}
  RepliesByRank quota_check_failed = Unit {0}
  RepliesByRank scoring_failed = Unit {0}
  RepliesByRank (quota_exceeded limit used) = Unit {0}

-- The request that the handler hands on.
abbrev pub request_of : String → String → List String → Option Tenant → Request
request_of username repo trusted_orgs tn = record {
  username = username;
  repo = repo;
  plan_name = plan_name_of tn;
  trusted_orgs = trusted_orgs;
}
