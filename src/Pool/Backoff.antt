-- ===== src/Pool/Backoff.antt =====
-- How long Exhaust and InvalidateAuth keep a token out of the rotation (pkg/github/tokenpool.go).
use devtrace.Pool.Held.{
  record_invalidation-Held, Held, Held-blocked, find-token, token-Held, mark-Held_self,
  exhaust-Held_ne, invalidate_auth-Held_ne,
}
use devtrace.Pool.Selection.{pick-first_free, first_free-some}
use devtrace.Pool.RoundRobin.{round}
use devtrace.Base.Time.{Time}
use devtrace.Base.{
  String_eq, refl, ap, [], sym, ◌∙◌, ◌∷◌, zero, get_or, inr, some, inl, ◌≡◌, List, suc, arith,
  Bool-cases, length, String, ◌≢◌, ◌≤◌, ◌<◌, ℕ,
}
use devtrace.Pool.Defs.{
  signal_refresh, entry_at, blank, PoolEntry, exhausted_at, blocked, TokenPool,
}
use devtrace.Pool.Marks.{invalid_until, exhaust_until, invalidate_auth, exhaust, find}
use devtrace.Pool.Token.{token, scan, grant, pick}
use devtrace.Pool.Invariant.{
  invalidate_auth-IsValid, exhaust-IsValid, run-IsValid, signals, takes, replaces, invalidates,
  entries-round, exhausts, step, Call, IsValid, run,
}

-- A call that does not mark the token `t`, does not swap the pool, and is made by time `u`.
abbrev pub Quiet : String → Time → Time × Call → Type 0
Quiet t u (now, takes) = now ≤ u
Quiet t u (now, signals) = now ≤ u
Quiet t u (now, exhausts t' r) = (now ≤ u) × (t' ≢ t)
Quiet t u (now, invalidates t') = (now ≤ u) × (t' ≢ t)
Quiet t u (now, replaces es) = ⊥

abbrev pub AllQuiet : String → Time → List (Time × Call) → Type 0
AllQuiet t u [] = Unit {0}
AllQuiet t u (c ∷ cs) = Quiet t u c × AllQuiet t u cs

entries-scan : (k : ℕ) (now : Time) (p : TokenPool) → (scan k now p).0.entries ≡ p.entries
unfolding scan
entries-scan zero now p = refl
entries-scan (suc k) now p = elim (Bool-cases (exhausted_at (round p now) p.current)) [
  | inl e ↦ rw (e, scan) (entries-scan k now (round p now) ∙ entries-round p now)
  | inr e ↦ rw (e, scan) (entries-grant (round p now) p.current now ∙ entries-round p now)
]
  where
    entries-grant : (q : TokenPool) (i : ℕ) (now : Time) → (grant q i now).entries ≡ q.entries
    entries-grant q i now = ground arith

entries-exhaust :
    (p : TokenPool) (t : String) (r now : Time) → (exhaust p t r now).entries ≡ p.entries
unfolding exhaust
entries-exhaust p t r now = ground arith

entries-invalidate_auth :
    (p : TokenPool) (t : String) (now : Time) → (invalidate_auth p t now).entries ≡ p.entries
unfolding invalidate_auth
entries-invalidate_auth p t now = ground arith

entries-step :
    (t : String) (u : Time) (p : TokenPool) (c : Time × Call)
    → Quiet t u c
    → (step p c).entries ≡ p.entries
unfolding step token pick
entries-step t u p (now, takes) q = ground (arith, entries-scan (length p.entries) now p)
entries-step t u p (now, exhausts t' r) q = entries-exhaust p t' r now
entries-step t u p (now, invalidates t') q = entries-invalidate_auth p t' now
entries-step t u p (now, replaces es) q = absurd q
entries-step t u p (now, signals) q = unfold signal_refresh in refl

step-Held :
    (p : TokenPool) (t : String) (i : ℕ) (u : Time) (c : Time × Call)
    → (entry_at p i).token ≡ t
    → Quiet t u c
    → Held p i u
    → Held (step p c) i u
unfolding step
step-Held p t i u (now, takes) tok q h = token-Held p i u now q h
step-Held p t i u (now, exhausts t' r) tok q h = exhaust-Held_ne p t t' i u r now tok q.1 h
step-Held p t i u (now, invalidates t') tok q h = invalidate_auth-Held_ne p t t' i u now tok q.1 h
step-Held p t i u (now, replaces es) tok q h = absurd q
step-Held p t i u (now, signals) tok q h =
    unfold signal_refresh in
    record { in_range = h.in_range; marked = h.marked; not_before = h.not_before }

pub run-Held :
    (p : TokenPool) (t : String) (i : ℕ) (u : Time) (cs : List (Time × Call))
    → (entry_at p i).token ≡ t
    → AllQuiet t u cs
    → Held p i u
    → Held (run p cs) i u
unfolding run
run-Held p t i u [] tok q h = h
run-Held p t i u (c ∷ cs) tok q h =
    run-Held (step p c) t i u cs
      (ap (λ (es : List PoolEntry). (get_or es i blank).token) (entries-step t u p c q.0) ∙ tok) q.1
      (step-Held p t i u c tok q.0 h)

-- Token does not select an entry that is held.
pick-ne-Held :
    (p : TokenPool) (i : ℕ) (u now : Time)
    → IsValid p
    → now ≤ u
    → Held p i u
    → (pick p now).1 ≢ some i
pick-ne-Held p i u now v le h e =
    let free =
      first_free-some (blocked p now) _ _ _ _ (omega (arith, v, h))
        (sym (pick-first_free p now v) ∙ e) in
    cc (free.3, Held-blocked p i u now h le)

exhaust-Held :
    (p : TokenPool) (t : String) (i : ℕ) (r at : Time)
    → IsValid p
    → find t p.entries ≡ some i
    → i < length p.entries
    → Held (exhaust p t r at) i (exhaust_until r at)
unfolding exhaust
exhaust-Held p t i r at v e lt = rw (e, exhaust) (mark-Held_self p i (exhaust_until r at) v lt)

-- A token marked at time `at` by Exhaust stays out: as long as its reset has not passed, no
-- history of Token, SignalRefresh, and Exhaust or InvalidateAuth of other tokens makes Token
-- select that entry.
pub exhaust-backoff :
    (p : TokenPool) (t : String) (i : ℕ) (r at now : Time) (cs : List (Time × Call))
    → IsValid p
    → find t p.entries ≡ some i
    → AllQuiet t (exhaust_until r at) cs
    → now ≤ exhaust_until r at
    → (pick (run (exhaust p t r at) cs) now).1 ≢ some i
exhaust-backoff p t i r at now cs v e q le =
    let (lt, tok) = find-token t p.entries i e in
    pick-ne-Held (run (exhaust p t r at) cs) i (exhaust_until r at) now
      (run-IsValid (exhaust p t r at) cs (exhaust-IsValid p t r at v)) le
      (run-Held (exhaust p t r at) t i (exhaust_until r at) cs
        (ap (λ (es : List PoolEntry). (get_or es i blank).token) (entries-exhaust p t r at) ∙ tok) q
        (exhaust-Held p t i r at v e lt))

-- The reset that Exhaust sets is in the future, whatever GitHub returned.
pub exhaust_until-future : (r at : Time) → at < exhaust_until r at
exhaust_until-future r at = ground arith

invalidate_auth-Held :
    (p : TokenPool) (t : String) (i : ℕ) (at : Time)
    → IsValid p
    → find t p.entries ≡ some i
    → i < length p.entries
    → Held (invalidate_auth p t at) i (invalid_until (entry_at p i) at)
unfolding invalidate_auth
invalidate_auth-Held p t i at v e lt =
    rw (e, invalidate_auth)
      (record_invalidation-Held _ _ i _ (mark-Held_self p i (invalid_until (entry_at p i) at) v lt))

-- A token rejected at time `at` and passed to InvalidateAuth stays out, a PAT until 2099 and an
-- installation token for the fallback window of 50 minutes: no history of Token, SignalRefresh,
-- and Exhaust or InvalidateAuth of other tokens makes Token select that entry before.
pub invalidate_auth-backoff :
    (p : TokenPool) (t : String) (i : ℕ) (at now : Time) (cs : List (Time × Call))
    → IsValid p
    → find t p.entries ≡ some i
    → AllQuiet t (invalid_until (entry_at p i) at) cs
    → now ≤ invalid_until (entry_at p i) at
    → (pick (run (invalidate_auth p t at) cs) now).1 ≢ some i
invalidate_auth-backoff p t i at now cs v e q le =
    let (lt, tok) = find-token t p.entries i e in
    pick-ne-Held (run (invalidate_auth p t at) cs) i (invalid_until (entry_at p i) at) now
      (run-IsValid (invalidate_auth p t at) cs (invalidate_auth-IsValid p t at v)) le
      (run-Held (invalidate_auth p t at) t i (invalid_until (entry_at p i) at) cs
        (ap (λ (es : List PoolEntry). (get_or es i blank).token) (entries-invalidate_auth p t at)
          ∙ tok)
        q (invalidate_auth-Held p t i at v e lt))
