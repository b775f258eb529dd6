-- ===== src/Pool/ClientExamples.antt =====
-- Tests of calls through the pool, and the theorem on them at a concrete pool.
use devtrace.Pool.Reports.{active_count}
use devtrace.Pool.Marks.{exhaust, invalidate_auth}
use devtrace.Pool.Token.{token}
use devtrace.Base.Time.{minute}
use devtrace.Pool.Client.{
  all_exhausted, ok, rate_limit, response, returned, error, Reply, pool_do_from, pool_do,
  Surroundings,
}
use devtrace.Pool.Defs.{signal_refresh, new_token_pool_from_entries, TokenPool, PoolEntry}
use devtrace.Base.{String_eq, refl, ◌==◌, if◌then◌else◌, [], ◌≡◌, false, ◌∷◌, String, ℕ}

abbrev pat : PoolEntry
pat = record { installation_id = 0; label = "PAT"; token = "tok-a"; expires_at = 0 }

abbrev two : TokenPool
two = new_token_pool_from_entries (pat ∷ record pat { token = "tok-b" } ∷ [])

-- Rejects the first token and answers with the second.
abbrev answers : ℕ → String → Reply ℕ
answers k t = if t == "tok-a" then error (response 401) else ok 7

abbrev env : Surroundings ℕ
env = record {
  clock = λ k. record {
    picked_at = minute;
    failed_at = minute;
    marked_at = minute;
    counted_at = minute;
  };
  is_done = λ k. false;
  is_done_in_wait = λ k. false;
  others = λ k p. p;
  others_in_call = λ k p. p;
  call = answers;
}

rotates : (pool_do env two).1 ≡ returned 7
unfolding pool_do pool_do_from new_token_pool_from_entries token invalidate_auth signal_refresh
    active_count
rotates = refl

-- A rate limit of the only token ends the call with an error that is not ErrNoTokens.
last_token :
    (pool_do
      (record env { call = λ k t. error (rate_limit 0) })
      (new_token_pool_from_entries (pat ∷ []))).1
    ≡ all_exhausted (rate_limit 0)
unfolding pool_do pool_do_from new_token_pool_from_entries token exhaust active_count
last_token = refl
