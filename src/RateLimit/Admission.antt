-- ===== src/RateLimit/Admission.antt =====
-- Retry-After, the cleanup and the middleware in front of the handlers.
use devtrace.RateLimit.Window.{store_self}
use devtrace.Plan.Defs.{plan_or_free}
use devtrace.RateLimit.Middleware.{
  too_many_requests, Clock, Limiters, auth_aware_rate_limit, Tenant,
}
use devtrace.Base.Time.{after, Time, second}
use devtrace.Base.{
  none, inr, ◌*◌, inl, refl, Bool-cases, true, ◌+◌, Option-cases, arith, Option, some, ◌<◌, false,
  ◌≤◌, ◌≡◌, ℕ, String, String_eq,
}
use devtrace.RateLimit.Defs.{
  wait_of, burst_limit_for, cleanup, retry_after, Visitor, Limiter, allow_with_limit,
}

-- A denied request leaves a visitor whose window is open.
denied_visitor :
    (rl : Limiter) (key : String) (l : ℕ) (now : Time)
    → (allow_with_limit rl key l now).1 ≡ false
    → (v : Visitor) × ((allow_with_limit rl key l now).0.visitors key ≡ some v) × (now ≤ v.reset_at)
unfolding allow_with_limit
denied_visitor rl key l now h = elim (Option-cases (rl.visitors key)) [
  | inl e ↦ absurd (cc (rw (e, allow_with_limit) at h))
  | inr (v, e) ↦ elim (Bool-cases (after now v.reset_at)) [
    | inl late ↦ absurd (cc (rw (e, allow_with_limit, late) at h))
    | inr soon ↦ (
      record v { count = v.count + 1 },
      rw (e, allow_with_limit, soon) (store_self rl key (record v { count = v.count + 1 })),
      ground arith,
    )
  ]
]

wait_covers : (v : Visitor) (asked : Time) → v.reset_at < asked + wait_of v asked * second
wait_covers v asked = ground arith

allow-late :
    (rl : Limiter) (key : String) (v : Visitor) (l : ℕ) (now : Time)
    → rl.visitors key ≡ some v
    → v.reset_at < now
    → (allow_with_limit rl key l now).1 ≡ true
unfolding allow_with_limit
allow-late rl key v l now e h = elim (Bool-cases (after now v.reset_at)) [
  | inl late ↦ rw (e, allow_with_limit, late) refl
  | inr soon ↦ absurd (ground arith)
]

-- After a denial, the Retry-After that is computed at any time is at least one second, and a
-- client that waits so many seconds from then is admitted, whatever its limit is by then.
pub retry_after-suffices :
    (rl : Limiter) (key : String) (l l' : ℕ) (now asked later : Time)
    → (allow_with_limit rl key l now).1 ≡ false
    → asked + retry_after (allow_with_limit rl key l now).0 key asked * second ≤ later
    → (1 ≤ retry_after (allow_with_limit rl key l now).0 key asked)
      × ((allow_with_limit (allow_with_limit rl key l now).0 key l' later).1 ≡ true)
unfolding retry_after
retry_after-suffices rl key l l' now asked later h w =
    let (v, e, soon) = denied_visitor rl key l now h in
    let w' : asked + wait_of v asked * second ≤ later = rw (e, retry_after) at w in
    (
      rw (e, retry_after) (ground arith),
      allow-late (allow_with_limit rl key l now).0 key v l' later e
          (omega (arith, wait_covers v asked)),
    )

allow-cleanup_none :
    (rl : Limiter) (key : String) (l : ℕ) (at now : Time)
    → at ≤ now
    → (o : Option Visitor) → rl.visitors key ≡ o
    → (allow_with_limit (cleanup rl at) key l now).1 ≡ (allow_with_limit rl key l now).1
unfolding allow_with_limit cleanup
allow-cleanup_none rl key l at now le none e = rw (e, allow_with_limit, cleanup) refl
allow-cleanup_none rl key l at now le (some v) e = elim (Bool-cases (after at v.reset_at)) [
  | inl over ↦
      (let late : after now v.reset_at ≡ true = ground arith in
        rw (e, allow_with_limit, cleanup, over, late) refl)
  | inr kept ↦
      rw (e, allow_with_limit, cleanup, kept)
        (elim (Bool-cases (after now v.reset_at)) [
          | inl late ↦ rw late refl
          | inr soon ↦ rw soon refl
        ])
]

-- A cleanup that runs before a request changes nothing for that request's admission.
pub allow-cleanup :
    (rl : Limiter) (key : String) (l : ℕ) (at now : Time)
    → at ≤ now
    → (allow_with_limit (cleanup rl at) key l now).1 ≡ (allow_with_limit rl key l now).1
allow-cleanup rl key l at now le = allow-cleanup_none rl key l at now le (rl.visitors key) refl

-- The burst cap is between 5 and 100 and never falls as the hourly cap grows.
pub burst_limit_for_bounds :
    (m n : ℕ)
    → m ≤ n
    → (5 ≤ burst_limit_for m) × (burst_limit_for n ≤ 100) × (burst_limit_for m ≤ burst_limit_for n)
unfolding burst_limit_for
burst_limit_for_bounds m n h = (ground arith, ground arith, ground arith)

-- The rate of a tenant's plan.
abbrev pub rate_of : Tenant → ℕ
rate_of tn = (plan_or_free tn.plan).rate_limit_per_hour

-- When the hourly limiter refuses a tenant's request, the answer is 429 with the hourly limiter's
-- Retry-After, and the burst limiter and the limiter of unauthenticated clients are left as they
-- were.
pub auth_aware_rate_limit-hourly :
    (s : Limiters) (tn : Tenant) (ip : String) (clock : Clock)
    → (allow_with_limit s.auth tn.id (rate_of tn) clock.first).1 ≡ false
    → let (s', answer) = auth_aware_rate_limit s (some tn) ip clock in
      (s'.burst ≡ s.burst)
      × (s'.unauth ≡ s.unauth)
      × (answer ≡ too_many_requests (retry_after s'.auth tn.id clock.retry))
unfolding auth_aware_rate_limit
auth_aware_rate_limit-hourly s tn ip clock h = rw h (refl, refl, refl)
