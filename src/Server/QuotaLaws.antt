-- ===== src/Server/QuotaLaws.antt =====
-- The quota of a tenant.
use devtrace.Server.Names.{is_repo, is_username}
use devtrace.Base.Time.{Time}
use devtrace.Service.Flow.{Outside, score, answered}
use devtrace.Server.ScoreApiLaws.{request_of}
use devtrace.Model.Response.{ScoreResponse}
use devtrace.Service.Cache.{ScoreCache}
use devtrace.Score.Float.{Float}
use devtrace.Server.ScoreApi.{
  ok, quota_limit, check_quota, refused, Handled, score_handler, Reply, invalid_username,
  invalid_repo, quota_exceeded,
}
use devtrace.Tenant.Defs.{Tenant}
use devtrace.Base.{
  ◌≢◌, String_eq, ◌==◌, not, inl, inr, Bool-cases, some, refl, arith, leb, none, ◌&&◌, ◌≡◌, ltb,
  ◌≤◌, ◌<◌, String, ℕ, true, false, List,
}

-- A request that gets no score, and leaves nothing behind: no usage, no score in the store, and the
-- cache as it was.
pub record IsRefused {W : Type 0} (c : ScoreCache (ScoreResponse W)) (h : Handled W) : Type 0 where
  pub no_score : (resp : ScoreResponse W) → h.reply ≢ ok resp
  pub same_cache : h.cache ≡ c
  pub no_usage : h.usage ≡ none
  pub nothing_persisted : h.persisted ≡ none

at_limit : (limit used : ℕ) → 0 < limit → limit ≤ used → ltb 0 limit && leb limit used ≡ true
at_limit limit used h k = ground arith

below_limit : (limit used : ℕ) → used < limit → ltb 0 limit && leb limit used ≡ false
below_limit limit used h = ground arith

module _ {W : Type 0} ⦃f : Float W⦄ (version : String) where
  refused-IsRefused :
      (reply : Reply W) (c : ScoreCache (ScoreResponse W))
      → ((resp : ScoreResponse W) → reply ≢ ok resp)
      → IsRefused c (refused version reply c)
  refused-IsRefused reply c other = record {
    no_score = other;
    same_cache = refl;
    no_usage = refl;
    nothing_persisted = refl;
  }

  module _ (username repo : String) (trusted_orgs : List String) (tn : Tenant) (used : ℕ)
      (out : Outside W) (c : ScoreCache (ScoreResponse W)) (now : Time) where
    over_quota :
        0 < quota_limit tn
        → quota_limit tn ≤ used
        → IsRefused c
            (score_handler version username repo trusted_orgs (some tn) (some used) out c now)
    unfolding score_handler check_quota
    over_quota positive full =
        let top : ltb 0 (quota_limit tn) && leb (quota_limit tn) used ≡ true =
          at_limit (quota_limit tn) used positive full in
        elim (Bool-cases (is_username username)) [
          | inr bad ↦ rw bad (refused-IsRefused invalid_username c (λ resp e. cc))
          | inl good ↦ rw good (elim (Bool-cases (not (repo == "") && not (is_repo repo))) [
            | inl bad ↦ rw bad (refused-IsRefused invalid_repo c (λ resp e. cc))
            | inr fine ↦
                rw (fine, top)
                  (refused-IsRefused (quota_exceeded (quota_limit tn) used) c (λ resp e. cc))
          ])
        ]

    -- A request for names that are well formed is served as if there were no quota: a response is
    -- returned, and then the usage is recorded for the tenant and the score is saved.
    abbrev pub IsServed : Handled W → Type 0
    IsServed h =
        let s = score version (request_of username repo trusted_orgs (some tn)) out c now in
        (resp : ScoreResponse W)
        → s.answer ≡ answered resp
        → (h.reply ≡ ok resp)
          × (h.cache ≡ s.cache)
          × (h.usage ≡ some (record { tenant_id = tn.id; username = username; repo = repo }))
          × (h.persisted ≡ some (resp.score.value, resp.score.grade))

    under_quota :
        used < quota_limit tn
        → is_username username ≡ true
        → not (repo == "") && not (is_repo repo) ≡ false
        → IsServed
            (score_handler version username repo trusted_orgs (some tn) (some used) out c now)
    unfolding score_handler check_quota
    under_quota below good fine resp e =
        let room : ltb 0 (quota_limit tn) && leb (quota_limit tn) used ≡ false =
          below_limit (quota_limit tn) used below in
        rw (good, fine, room, e) (refl, refl, refl, refl)

    -- A tenant that has used its limit, a positive one of its own or else that of its plan, gets no
    -- score, whatever the request: no usage is recorded, no score is saved, and the cache stays as
    -- it is. Below the limit, a request with a valid login and with no repo or a valid one gets the
    -- response of the score service if there is one, and then the usage is recorded and the score
    -- is saved.
    pub score_handler-quota :
        0 < quota_limit tn
        → (quota_limit tn ≤ used
            → IsRefused c
                (score_handler version username repo trusted_orgs (some tn) (some used) out c now))
          × (used < quota_limit tn
              → is_username username ≡ true
              → not (repo == "") && not (is_repo repo) ≡ false
              → IsServed (
                  score_handler version username repo trusted_orgs (some tn) (some used) out c now))
    score_handler-quota positive = (over_quota positive, under_quota)
