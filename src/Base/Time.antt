-- ===== src/Base/Time.antt =====
-- Go's package time: a Time is its nanoseconds since the zero time (year 1, UTC), a Duration its
-- nanoseconds. Times before the zero time and negative durations do not occur.
use Prim.Native.Nat.{ℕ}
use mathlib.Core.Bool.{Bool}
use devtrace.Base.Tests.{ltb, nat_eq}

abbrev pub Time : Type 0
Time = ℕ

abbrev pub Duration : Type 0
Duration = ℕ

abbrev pub is_zero : Time → Bool
is_zero t = nat_eq t 0

-- t.After(u) and t.Before(u).
abbrev pub after : Time → Time → Bool
after t u = ltb u t

abbrev pub before : Time → Time → Bool
before t u = ltb t u

abbrev pub nanosecond : Duration
nanosecond = 1

abbrev pub second : Duration
second = 1_000_000_000

abbrev pub minute : Duration
minute = 60_000_000_000

abbrev pub hour : Duration
hour = 3_600_000_000_000
