-- ===== src/RateLimit/Defs.antt =====
-- ipRateLimiter (pkg/server/ratelimit.go): fixed windows per key. The map is a function. A method
-- holds the mutex, so it is one function on the record; time.Now() is an argument.
use devtrace.Base.Time.{Time, Duration, after, second}
use devtrace.Base.{
  ◌-◌, leb, true, ltb, ◌+◌, some, ◌*◌, ◌/◌, Bool, if◌then◌else◌, none, Option, ℕ, ◌==◌, String,
  String_eq,
}

pub record Visitor : Type 0 where
  pub count : ℕ
  pub reset_at : Time

pub record Limiter : Type 0 where
  pub visitors : String → Option Visitor
  pub limit : ℕ
  pub window : Duration

unfoldable pub new_ip_rate_limiter : ℕ → ℕ → Limiter
new_ip_rate_limiter limit window_sec = record {
  visitors = λ k. none;
  limit = limit;
  window = window_sec * second;
}

abbrev pub store : Limiter → String → Visitor → Limiter
store rl key v = record rl { visitors = λ k. if key == k then some v else rl.visitors k }

-- A key without a visitor, or whose window is over, starts a new window.
abbrev pub first_visit : Limiter → String → Time → Limiter × Bool
first_visit rl key now = (store rl key (record { count = 1; reset_at = now + rl.window }), true)

abbrev pub next_visit : Limiter → String → Visitor → ℕ → Limiter × Bool
next_visit rl key v limit =
    (store rl key (record v { count = v.count + 1 }), leb (v.count + 1) limit)

unfoldable pub allow_with_limit : Limiter → String → ℕ → Time → Limiter × Bool
allow_with_limit rl key limit now = elim (rl.visitors key) [
  | none ↦ first_visit rl key now
  | some v ↦ if after now v.reset_at then first_visit rl key now else next_visit rl key v limit
]

unfoldable pub allow : Limiter → String → Time → Limiter × Bool
allow rl ip now = elim (rl.visitors ip) [
  | none ↦ first_visit rl ip now
  | some v ↦ if after now v.reset_at then first_visit rl ip now else next_visit rl ip v rl.limit
]

-- The seconds of Retry-After, with the fraction cut off as `int(remaining)` does.
abbrev pub wait_of : Visitor → Time → ℕ
wait_of v now = if ltb (v.reset_at - now) second then 1 else (v.reset_at - now) / second + 1

unfoldable pub retry_after : Limiter → String → Time → ℕ
retry_after rl ip now = elim (rl.visitors ip) [ none ↦ 0 | some v ↦ wait_of v now ]

abbrev pub unless_over : Time → Option Visitor → Option Visitor
unless_over now none = none
unless_over now (some v) = if after now v.reset_at then none else some v

-- One tick of the cleanup goroutine.
unfoldable pub cleanup : Limiter → Time → Limiter
cleanup rl now = record rl { visitors = λ k. unless_over now (rl.visitors k) }

unfoldable pub burst_limit_for : ℕ → ℕ
burst_limit_for per_hour =
    let burst = per_hour / 12 in
    let floored = if ltb burst 5 then 5 else burst in if ltb 100 floored then 100 else floored
