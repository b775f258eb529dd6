-- ===== src/Pool/Client.antt =====
-- PoolClient's loop of attempts, poolDo (pkg/github/pool_client.go), and what it reads of an error.
-- The cached client of a token is a function of the token, so the cache does not show. The call
-- itself, the clock, the context and what other users of the pool do before an attempt and during
-- its call are arguments.
use devtrace.Pool.Reports.{active_count}
use devtrace.Pool.Marks.{exhaust, invalidate_auth}
use devtrace.Pool.Token.{token}
use devtrace.Pool.Defs.{signal_refresh, TokenPool}
use devtrace.Base.Time.{Duration, Time}
use devtrace.Base.{
  ◌||◌, zero, suc, not, String_eq, none, ◌==◌, ◌+◌, some, false, if◌then◌else◌, String, nat_eq,
  true, Option, Bool, ℕ,
}

abbrev pub max_pool_retries : ℕ
max_pool_retries = 6

-- gh.RateLimitError with its reset, gh.AbuseRateLimitError with its RetryAfter, gh.ErrorResponse
-- with its status code, any other error.
pub data CallError : Type 0 where
  rate_limit : Time → CallError
  abuse : Option Duration → CallError
  response : ℕ → CallError
  other : CallError

abbrev pub is_rate_limited : CallError → Bool
is_rate_limited (rate_limit reset) = true
is_rate_limited (abuse wait) = true
is_rate_limited _ = false

abbrev pub is_auth_failure : CallError → Bool
is_auth_failure (response status) = nat_eq status 401
is_auth_failure _ = false

-- isTerminalError (pkg/background/scorer.go): 404, 451 and 422.
abbrev pub is_terminal_error : CallError → Bool
is_terminal_error (response status) = nat_eq status 404 || nat_eq status 451 || nat_eq status 422
is_terminal_error _ = false

abbrev pub after_wait : Option Duration → Time → Time
after_wait none now = 0
after_wait (some wait) now = now + wait

abbrev pub rate_limit_reset : CallError → Time → Time
rate_limit_reset (rate_limit reset) now = reset
rate_limit_reset (abuse wait) now = after_wait wait now
rate_limit_reset _ now = 0

pub data Reply (A : Type 0) : Type 0 where
  ok : A → Reply A
  error : CallError → Reply A

-- How poolDo returns: the value, ErrNoTokens, `all tokens invalid`, `all tokens exhausted`, the
-- error of the call, the error of the context, `retries exhausted`.
pub data Result (A : Type 0) : Type 0 where
  returned : A → Result A
  err_no_tokens interrupted gave_up : Result A
  all_invalid all_exhausted call_failed : CallError → Result A

-- time.Now() in Token, rateLimitReset, the marking method, and ActiveCount of an attempt.
pub record Instants : Type 0 where
  pub picked_at : Time
  pub failed_at : Time
  pub marked_at : Time
  pub counted_at : Time

-- What an attempt, by its number, meets.
pub record Surroundings (A : Type 0) : Type 0 where
  pub clock : ℕ → Instants
  pub is_done : ℕ → Bool
  pub is_done_in_wait : ℕ → Bool
  pub others : ℕ → TokenPool → TokenPool
  pub others_in_call : ℕ → TokenPool → TokenPool
  pub call : ℕ → String → Reply A

-- `return`, or `continue` with the next attempt.
pub data Step (A : Type 0) : Type 0 where
  stop : Result A → Step A
  again : Step A

unfoldable pub on_error :
    {A : Type 0} → Surroundings A → ℕ → TokenPool → String → CallError → TokenPool × Step A
on_error env k p token e =
    let at = env.clock k in
    if is_auth_failure e
    then (let q = signal_refresh (invalidate_auth p token at.marked_at) in
        (q, if nat_eq (active_count q at.counted_at) 0 then stop (all_invalid e) else again))
    else (if not (is_rate_limited e)
        then (p, stop (call_failed e))
        else (let q = exhaust p token (rate_limit_reset e at.failed_at) at.marked_at in
            (
              q,
              if nat_eq (active_count q at.counted_at) 0
                  then stop (all_exhausted e)
                  else (if env.is_done_in_wait k then stop interrupted else again),
            )))

abbrev pub on_reply :
    {A : Type 0} → Surroundings A → ℕ → TokenPool → String → Reply A → TokenPool × Step A
on_reply env k p token (ok r) = (p, stop (returned r))
on_reply env k p token (error e) = on_error env k p token e

-- One round of the loop; an empty token is ErrNoTokens.
unfoldable pub attempt : {A : Type 0} → Surroundings A → ℕ → TokenPool → TokenPool × Step A
attempt env k before_it =
    let p = env.others k before_it in
    if env.is_done k
    then (p, stop interrupted)
    else (let (q, t) = token p (env.clock k).picked_at in
        if t == ""
        then (q, stop err_no_tokens)
        else on_reply env k (env.others_in_call k q) t (env.call k t))

unfoldable pub pool_do_from :
    {A : Type 0} → Surroundings A → ℕ → ℕ → TokenPool → TokenPool × Result A
unfolding attempt on_error
pool_do_from env zero k p = (p, gave_up)
pool_do_from env (suc left) k p =
    let (q, s) = attempt env k p in
    elim s [ stop r ↦ (q, r) | again ↦ pool_do_from env left (suc k) q ]

-- `for attempt := 0; attempt < maxPoolRetries; attempt++`
unfoldable pub pool_do : {A : Type 0} → Surroundings A → TokenPool → TokenPool × Result A
pool_do env p = pool_do_from env max_pool_retries 0 p
