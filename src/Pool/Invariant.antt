-- ===== src/Pool/Invariant.antt =====
-- The parallel slices of a TokenPool stay as long as its entries, the cursor stays in range and
-- the ring of invalidations within its cap.
use native.Mathlib.Nat.{mod-lt}
use devtrace.Base.Time.{Time}
use devtrace.Base.{
  ◌+◌, ap, ◌<◌, get_or, ℕ, zero, suc, ◌-◌, ◌≤◌, ◌≡◌, List, [], ◌∷◌, true, false, inl, inr, String,
  length, length-set, length-append, length-replicate, arith, Bool-cases, Option-cases,
}
use devtrace.Pool.Defs.{
  TokenPool, PoolEntry, InvalidationEvent, Channel, entry_at, invalidation_ring_cap, exhausted_at,
  new_token_pool_from_entries, set_refresh_ch, signal_refresh,
}
use devtrace.Pool.Token.{auto_reset, grant, advance, scan, pick, token}
use devtrace.Pool.Marks.{
  find, mark, exhaust, exhaust_until, invalidate_auth, invalid_until, record_invalidation,
  drop_first, replace,
}

pub record IsValid (p : TokenPool) : Type 0 where
  pub counts_length : length p.counts ≡ length p.entries
  pub exhausted_length : length p.exhausted ≡ length p.entries
  pub until_length : length p.exhausted_until ≡ length p.entries
  pub cursor : p.current ≤ length p.entries - 1
  pub ring : length p.invalidations ≤ invalidation_ring_cap

-- A pool is made valid.
pub new-IsValid : (es : List PoolEntry) → IsValid (new_token_pool_from_entries es)
unfolding new_token_pool_from_entries
new-IsValid es = record {
  counts_length = length-replicate (length es) 0;
  exhausted_length = length-replicate (length es) false;
  until_length = length-replicate (length es) 0;
  cursor = omega arith;
  ring = omega arith;
}

pub set_refresh_ch-IsValid :
    (p : TokenPool) (ch : Channel) → IsValid p → IsValid (set_refresh_ch p ch)
unfolding set_refresh_ch
set_refresh_ch-IsValid p ch v = ground arith

pub signal_refresh-IsValid : (p : TokenPool) → IsValid p → IsValid (signal_refresh p)
unfolding signal_refresh
signal_refresh-IsValid p v = ground arith

pub auto_reset-IsValid :
    (p : TokenPool) (i : ℕ) (now : Time) → IsValid p → IsValid (auto_reset p i now)
unfolding auto_reset
auto_reset-IsValid p i now v = ground (arith, length-set p.exhausted i false)

pub grant-IsValid : (p : TokenPool) (i : ℕ) (now : Time) → IsValid p → IsValid (grant p i now)
unfolding grant
grant-IsValid p i now v = ground (arith, length-set p.counts i (get_or p.counts i 0 + 1))

pub advance-IsValid : (p : TokenPool) → 0 < length p.entries → IsValid p → IsValid (advance p)
unfolding advance
advance-IsValid p h v = ground (arith, mod-lt (p.current + 1) {m = length p.entries})

-- A round of the loop leaves the entries alone.
pub entries-round :
    (p : TokenPool) (now : Time) → (auto_reset (advance p) p.current now).entries ≡ p.entries
unfolding auto_reset advance
entries-round p now = ground arith

pub round-IsValid :
    (p : TokenPool) (now : Time)
    → 0 < length p.entries
    → IsValid p
    → IsValid (auto_reset (advance p) p.current now)
round-IsValid p now h v = auto_reset-IsValid (advance p) p.current now (advance-IsValid p h v)

pub scan-IsValid :
    (k : ℕ) (now : Time) (p : TokenPool)
    → k ≤ length p.entries
    → IsValid p
    → IsValid (scan k now p).0
unfolding scan
scan-IsValid zero now p h v = v
scan-IsValid (suc k) now p h v =
    let w = round-IsValid p now (omega arith) v in
    elim (Bool-cases (exhausted_at (auto_reset (advance p) p.current now) p.current)) [
      | inl e ↦
          rw (e, scan)
            (scan-IsValid k now (auto_reset (advance p) p.current now)
              (omega (arith, ap length (entries-round p now))) w)
      | inr e ↦ rw (e, scan) (grant-IsValid _ p.current now w)
    ]

pub token-IsValid : (p : TokenPool) (now : Time) → IsValid p → IsValid (token p now).0
unfolding token pick
token-IsValid p now v = ground (arith, scan-IsValid (length p.entries) now p)

mark-IsValid : (p : TokenPool) (i : ℕ) (u : Time) → IsValid p → IsValid (mark p i u)
mark-IsValid p i u v =
    ground (arith, length-set p.exhausted i true, length-set p.exhausted_until i u)

pub exhaust-IsValid :
    (p : TokenPool) (t : String) (r now : Time) → IsValid p → IsValid (exhaust p t r now)
unfolding exhaust
exhaust-IsValid p t r now v = elim (Option-cases (find t p.entries)) [
  | inl e ↦ rw (e, exhaust) v
  | inr (i, e) ↦ rw (e, exhaust) (mark-IsValid p i (exhaust_until r now) v)
]

length-drop_first {ℓ} : {A : Type ℓ} (xs : List A) → length (drop_first xs) ≡ length xs - 1
length-drop_first [] = omega arith
length-drop_first (x ∷ xs) = omega arith

record_invalidation-IsValid :
    (p : TokenPool) (ev : InvalidationEvent) → IsValid p → IsValid (record_invalidation p ev)
unfolding record_invalidation
record_invalidation-IsValid p ev v = ground (
  arith,
  length-append (drop_first p.invalidations) (ev ∷ []),
  length-append p.invalidations (ev ∷ []),
  length-drop_first p.invalidations,
)

pub invalidate_auth-IsValid :
    (p : TokenPool) (t : String) (now : Time) → IsValid p → IsValid (invalidate_auth p t now)
unfolding invalidate_auth
invalidate_auth-IsValid p t now v = elim (Option-cases (find t p.entries)) [
  | inl e ↦ rw (e, invalidate_auth) v
  | inr (i, e) ↦
      rw (e, invalidate_auth)
        (record_invalidation-IsValid _ _ (mark-IsValid p i (invalid_until (entry_at p i) now) v))
]

pub replace-IsValid : (p : TokenPool) (es : List PoolEntry) → IsValid p → IsValid (replace p es).0
unfolding replace
replace-IsValid p es v = record {
  counts_length = length-replicate (length es) 0;
  exhausted_length = length-replicate (length es) false;
  until_length = length-replicate (length es) 0;
  cursor = omega arith;
  ring = v.ring;
}

-- A call of a method that changes the pool, at a time.
pub data Call : Type 0 where
  takes : Call
  exhausts : String → Time → Call
  invalidates : String → Call
  replaces : List PoolEntry → Call
  signals : Call

unfoldable pub step : TokenPool → Time × Call → TokenPool
step p (now, takes) = (token p now).0
step p (now, exhausts t r) = exhaust p t r now
step p (now, invalidates t) = invalidate_auth p t now
step p (now, replaces es) = (replace p es).0
step p (now, signals) = signal_refresh p

unfoldable pub run : TokenPool → List (Time × Call) → TokenPool
unfolding step
run p [] = p
run p (c ∷ cs) = run (step p c) cs

pub step-IsValid : (p : TokenPool) (c : Time × Call) → IsValid p → IsValid (step p c)
unfolding step
step-IsValid p (now, takes) v = token-IsValid p now v
step-IsValid p (now, exhausts t r) v = exhaust-IsValid p t r now v
step-IsValid p (now, invalidates t) v = invalidate_auth-IsValid p t now v
step-IsValid p (now, replaces es) v = replace-IsValid p es v
step-IsValid p (now, signals) v = signal_refresh-IsValid p v

pub run-IsValid : (p : TokenPool) (cs : List (Time × Call)) → IsValid p → IsValid (run p cs)
unfolding run
run-IsValid p [] v = v
run-IsValid p (c ∷ cs) v = run-IsValid (step p c) cs (step-IsValid p c v)

-- After any history of calls on a new pool the counts, the exhaustion flags and the reset times
-- are as many as the entries, the cursor is at an entry (0 when there is none) and at most 64
-- invalidations are kept.
pub run-new-IsValid :
    (es : List PoolEntry) (cs : List (Time × Call))
    → IsValid (run (new_token_pool_from_entries es) cs)
run-new-IsValid es cs = run-IsValid _ cs (new-IsValid es)
