-- ===== src/RateLimit/Middleware.antt =====
-- authAwareRateLimit and wrap (pkg/server/ratelimit.go). The IP of a request is an argument, the
-- answer is either the next handler or 429 with its Retry-After; how the 429 is rendered is left
-- out. Each reading of the clock is an argument: one for each limiter asked, one for retryAfter.
use devtrace.Base.Time.{Time}
use devtrace.Base.{none, if◌then◌else◌, some, Bool, Option, ℕ, String}
use devtrace.Plan.Defs.{plan_or_free}
use devtrace.RateLimit.Defs.{burst_limit_for, retry_after, allow_with_limit, allow, Limiter}

pub record Tenant : Type 0 where
  pub id : String
  pub plan : String

pub data Answer : Type 0 where
  next : Answer
  too_many_requests : ℕ → Answer

unfoldable pub wrap : Limiter → String → Time → Time → Limiter × Answer
wrap rl ip now later =
    let (rl', allowed) = allow rl ip now in
    (rl', if allowed then next else too_many_requests (retry_after rl' ip later))

pub record Limiters : Type 0 where
  pub unauth : Limiter
  pub auth : Limiter
  pub burst : Option Limiter
  pub burst_enabled : Bool

-- The clock during one request.
pub record Clock : Type 0 where
  pub first : Time
  pub second : Time
  pub retry : Time

unauthenticated : Limiters → String → Clock → Limiters × Answer
unauthenticated s ip clock =
    let (rl, allowed) = allow s.unauth ip clock.first in
    (
      record s { unauth = rl },
      if allowed then next else too_many_requests (retry_after rl ip clock.retry),
    )

-- The burst gate, behind an hourly limiter that allowed the request.
burst_gate : Limiters → String → ℕ → Clock → Option Limiter → Limiters × Answer
burst_gate s key rate clock none = (s, next)
burst_gate s key rate clock (some b) =
    if s.burst_enabled
    then (let (b', allowed) = allow_with_limit b key (burst_limit_for rate) clock.second in
        (
          record s { burst = some b' },
          if allowed then next else too_many_requests (retry_after b' key clock.retry),
        ))
    else (s, next)

authenticated : Limiters → Tenant → Clock → Limiters × Answer
unfolding burst_gate
authenticated s tn clock =
    let rate = (plan_or_free tn.plan).rate_limit_per_hour in
    let (rl, allowed) = allow_with_limit s.auth tn.id rate clock.first in
    if allowed
    then burst_gate (record s { auth = rl }) tn.id rate clock s.burst
    else (record s { auth = rl }, too_many_requests (retry_after rl tn.id clock.retry))

unfoldable pub auth_aware_rate_limit : Limiters → Option Tenant → String → Clock → Limiters × Answer
unfolding unauthenticated authenticated
auth_aware_rate_limit s none ip clock = unauthenticated s ip clock
auth_aware_rate_limit s (some tn) ip clock = authenticated s tn clock
