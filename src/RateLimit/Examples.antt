-- ===== src/RateLimit/Examples.antt =====
-- Tests of the rate limits, and their theorems at concrete requests.
use devtrace.RateLimit.Admission.{rate_of, allow-cleanup}
use devtrace.Plan.Defs.{plan_or_free}
use devtrace.RateLimit.Middleware.{
  too_many_requests, auth_aware_rate_limit, Clock, Tenant, Limiters,
}
use devtrace.RateLimit.Window.{admitted_window, arrivals, cleans, arrives, serve, Traffic, admitted}
use devtrace.Base.Time.{Time, second}
use devtrace.Base.{
  max, ◌+◌, [], arith, min, none, true, refl, false, ◌∷◌, ◌≡◌, ◌*◌, some, List, ℕ, String,
}
use devtrace.RateLimit.Defs.{
  allow, cleanup, retry_after, allow_with_limit, new_ip_rate_limiter, Limiter,
}

abbrev per_ip : Limiter
per_ip = new_ip_rate_limiter 2 60

abbrev day : List (Time × Traffic)
day =
    (2 * second, arrives "a")
    ∷ (3 * second, arrives "b")
    ∷ (4 * second, cleans)
    ∷ (5 * second, arrives "a")
    ∷ []

both : String → ℕ
both key = 2

counted : admitted both "a" per_ip ((second, arrives "a") ∷ day) ≡ 2
unfolding admitted both serve new_ip_rate_limiter
counted = refl

admitted_window_example :
    admitted both "a" per_ip ((second, arrives "a") ∷ day)
    ≡ min (1 + arrivals "a" day) (max 1 (both "a"))
unfolding new_ip_rate_limiter
admitted_window_example =
    admitted_window both "a" per_ip second day refl
      (omega arith, (omega arith, (omega arith, (omega arith, tt))))

abbrev used_up : Limiter
used_up = record per_ip { visitors = λ k. some (record { count = 2; reset_at = 60 * second }) }

denied : (allow_with_limit used_up "a" 2 (10 * second)).1 ≡ false
unfolding allow_with_limit
denied = refl

waits : retry_after (allow_with_limit used_up "a" 2 (10 * second)).0 "a" (10 * second) ≡ 51
unfolding allow_with_limit retry_after
waits = refl

allow-cleanup_example :
    (allow_with_limit (cleanup used_up (61 * second)) "a" 2 (62 * second)).1
    ≡ (allow_with_limit used_up "a" 2 (62 * second)).1
allow-cleanup_example = allow-cleanup used_up "a" 2 (61 * second) (62 * second) (omega arith)

abbrev hourly_out : Limiters
hourly_out = record {
  unauth = per_ip;
  auth = record used_up { visitors = λ k. some (record { count = 60; reset_at = 60 * second }) };
  burst = some per_ip;
  burst_enabled = true;
}

abbrev tenant : Tenant
tenant = record { id = "t1"; plan = "free" }

abbrev clock : Clock
clock = record { first = 10 * second; second = 11 * second; retry = 12 * second }

hourly_refuses : (allow_with_limit hourly_out.auth tenant.id (rate_of tenant) clock.first).1 ≡ false
unfolding allow_with_limit plan_or_free
hourly_refuses = refl

-- A client over the limit without a session is told to come back after the window.
unauthenticated_answer :
    (auth_aware_rate_limit (record hourly_out { unauth = used_up }) none "1.2.3.4" clock).1
    ≡ too_many_requests 49
unfolding auth_aware_rate_limit allow retry_after new_ip_rate_limiter
unauthenticated_answer = refl
