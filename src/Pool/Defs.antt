-- ===== src/Pool/Defs.antt =====
-- The state of a TokenPool (pkg/github/tokenpool.go, from line 29) and its construction.
-- The parallel slices stay four lists, indexed as in the code. A method that locks the mutex is one
-- function on the record; time.Now() is an argument.
use devtrace.Base.Time.{Time, Duration, is_zero, after, minute}
use devtrace.Base.{
  ℕ, ◌+◌, ◌*◌, List, [], Bool, false, not, ◌&&◌, Option, none, some, String, length, get_or,
  replicate, if◌then◌else◌, ltb,
}

abbrev pub token_reset_fallback : Duration
token_reset_fallback = 50 * minute

abbrev pub token_expiry_buffer : Duration
token_expiry_buffer = 5 * minute

-- 2099-01-01T00:00:00Z: 766279 days after the zero time.
abbrev pub permanent_invalidation_until : Time
permanent_invalidation_until = 766_279 * 86_400_000_000_000

abbrev pub invalidation_ring_cap : ℕ
invalidation_ring_cap = 64

-- PoolEntry and poolEntry, which have the same fields.
pub record PoolEntry : Type 0 where
  pub installation_id : ℕ
  pub label : String
  pub token : String
  pub expires_at : Time

pub record InvalidationEvent : Type 0 where
  pub at : Time
  pub label : String
  pub installation_id : ℕ
  pub permanent : Bool

-- The send side of a buffered channel of signals.
pub record Channel : Type 0 where
  pub capacity : ℕ
  pub pending : ℕ

pub record TokenPool : Type 0 where
  pub entries : List PoolEntry
  pub counts : List ℕ
  pub exhausted : List Bool
  pub exhausted_until : List Time
  pub current : ℕ
  pub refresh_ch : Option Channel
  pub invalidations : List InvalidationEvent

abbrev pub blank : PoolEntry
blank = record { installation_id = 0; label = ""; token = ""; expires_at = 0 }

abbrev pub entry_at : TokenPool → ℕ → PoolEntry
entry_at p i = get_or p.entries i blank

abbrev pub exhausted_at : TokenPool → ℕ → Bool
exhausted_at p i = get_or p.exhausted i false

abbrev pub until_at : TokenPool → ℕ → Time
until_at p i = get_or p.exhausted_until i 0

-- `p.exhausted[i] && !now.After(p.exhaustedUntil[i])`
abbrev pub blocked : TokenPool → Time → ℕ → Bool
blocked p now i = exhausted_at p i && not (after now (until_at p i))

-- Within tokenExpiryBuffer of its expiry; a zero expiry never comes.
abbrev pub near_expiry : PoolEntry → Time → Bool
near_expiry e now = not (is_zero e.expires_at) && after (now + token_expiry_buffer) e.expires_at

unfoldable pub new_token_pool_from_entries : List PoolEntry → TokenPool
new_token_pool_from_entries entries = record {
  entries = entries;
  counts = replicate (length entries) 0;
  exhausted = replicate (length entries) false;
  exhausted_until = replicate (length entries) 0;
  current = 0;
  refresh_ch = none;
  invalidations = [];
}

unfoldable pub set_refresh_ch : TokenPool → Channel → TokenPool
set_refresh_ch p ch = record p { refresh_ch = some ch }

-- `select { case ch <- struct{}{}: default: }`
abbrev pub offer : Channel → Channel
offer ch = if ltb ch.pending ch.capacity then record ch { pending = ch.pending + 1 } else ch

abbrev pub offer? : Option Channel → Option Channel
offer? none = none
offer? (some ch) = some (offer ch)

unfoldable pub signal_refresh : TokenPool → TokenPool
signal_refresh p = record p { refresh_ch = offer? p.refresh_ch }
