-- ===== src/Pool/Held.antt =====
-- A token that is kept out of the rotation (pkg/github/tokenpool.go), and the calls that keep it out.
use devtrace.Pool.RoundRobin.{round}
use devtrace.Base.Time.{Time}
use devtrace.Base.{
  String_eq, ap, [], sym, Option-cases, ◌∙◌, eq_iff, ◌==◌, ◌∷◌, zero, get_or, get_or-set_self,
  false, inr, some, inl, true, length-set, get_or-set_ne, nat_eq, ◌≡◌, List, suc, arith, Bool-cases,
  length, String, ◌≢◌, ◌≤◌, ◌<◌, ℕ,
}
use devtrace.Pool.Defs.{
  InvalidationEvent, entry_at, blank, until_at, PoolEntry, exhausted_at, blocked, TokenPool,
}
use devtrace.Pool.Marks.{
  invalid_until, exhaust_until, invalidate_auth, record_invalidation, exhaust, mark, find,
}
use devtrace.Pool.Token.{token, scan, advance, grant, auto_reset, pick}
use devtrace.Pool.Invariant.{IsValid}

-- Entry `i` is marked, and its reset time is not before `u`.
pub record Held (p : TokenPool) (i : ℕ) (u : Time) : Type 0 where
  pub in_range : i < length p.exhausted
  pub marked : exhausted_at p i ≡ true
  pub not_before : u ≤ until_at p i

pub Held-blocked :
    (p : TokenPool) (i : ℕ) (u now : Time) → Held p i u → now ≤ u → blocked p now i ≡ true
Held-blocked p i u now h le = ground arith

auto_reset-Held :
    (p : TokenPool) (j i : ℕ) (u now : Time) → now ≤ u → Held p i u → Held (auto_reset p j now) i u
unfolding auto_reset
auto_reset-Held p j i u now le h = elim (Bool-cases (nat_eq j i)) [
  | inl e ↦ (let same : j ≡ i = ground arith in rw same (ground arith))
  | inr e ↦
      ground (arith, get_or-set_ne p.exhausted j i false false, length-set p.exhausted j false)
]

grant-Held : (p : TokenPool) (j i : ℕ) (u now : Time) → Held p i u → Held (grant p j now) i u
unfolding grant
grant-Held p j i u now h = ground arith

round-Held : (p : TokenPool) (i : ℕ) (u now : Time) → now ≤ u → Held p i u → Held (round p now) i u
unfolding advance
round-Held p i u now le h =
    auto_reset-Held (advance p) p.current i u now le
      (record { in_range = h.in_range; marked = h.marked; not_before = h.not_before })

scan-Held :
    (k : ℕ) (p : TokenPool) (i : ℕ) (u now : Time)
    → now ≤ u
    → Held p i u
    → Held (scan k now p).0 i u
unfolding scan
scan-Held zero p i u now le h = h
scan-Held (suc k) p i u now le h = elim (Bool-cases (exhausted_at (round p now) p.current)) [
  | inl e ↦ rw (e, scan) (scan-Held k (round p now) i u now le (round-Held p i u now le h))
  | inr e ↦ rw (e, scan) (grant-Held _ p.current i u now (round-Held p i u now le h))
]

pub token-Held :
    (p : TokenPool) (i : ℕ) (u now : Time) → now ≤ u → Held p i u → Held (token p now).0 i u
unfolding token pick
token-Held p i u now le h = ground (arith, scan-Held (length p.entries) p i u now)

mark-Held_ne : (p : TokenPool) (j i : ℕ) (u v : Time) → j ≢ i → Held p i u → Held (mark p j v) i u
mark-Held_ne p j i u v ne h = ground (
  arith,
  get_or-set_ne p.exhausted j i true false ne,
  get_or-set_ne p.exhausted_until j i v 0 ne,
  length-set p.exhausted j true,
)

pub mark-Held_self :
    (p : TokenPool) (i : ℕ) (v : Time) → IsValid p → i < length p.entries → Held (mark p i v) i v
mark-Held_self p i v w h = record {
  in_range = omega (arith, w, length-set p.exhausted i true);
  marked = get_or-set_self p.exhausted i true false (omega (arith, w));
  not_before = omega (arith, get_or-set_self p.exhausted_until i v 0 (omega (arith, w)));
}

-- The index that the loop stops at holds the token.
pub find-token :
    (t : String) (es : List PoolEntry) (i : ℕ)
    → find t es ≡ some i
    → (i < length es) × ((get_or es i blank).token ≡ t)
unfolding find
find-token t [] i e = cc
find-token t (x ∷ es) i e = elim (Bool-cases (x.token == t)) [
  | inl hit ↦ (let at : 0 ≡ i = ground arith in rw (← at) (omega arith, (eq_iff x.token t).0 hit))
  | inr miss ↦ elim (Option-cases (find t es)) [
    | inl none' ↦ absurd (ground arith)
    | inr (k, found) ↦
        (let at : suc k ≡ i = ground arith in
          rw (← at) (let (lt, tok) = find-token t es k found in (omega arith, tok)))
  ]
]

find_ne :
    (p : TokenPool) (t t' : String) (i j : ℕ)
    → (entry_at p i).token ≡ t
    → t' ≢ t
    → find t' p.entries ≡ some j
    → j ≢ i
find_ne p t t' i j tok ne e same =
    ne (sym (find-token t' p.entries j e).1 ∙ ap (λ (k : ℕ). (entry_at p k).token) same ∙ tok)

pub exhaust-Held_ne :
    (p : TokenPool) (t t' : String) (i : ℕ) (u r now : Time)
    → (entry_at p i).token ≡ t
    → t' ≢ t
    → Held p i u
    → Held (exhaust p t' r now) i u
unfolding exhaust
exhaust-Held_ne p t t' i u r now tok ne h = elim (Option-cases (find t' p.entries)) [
  | inl e ↦ rw (e, exhaust) h
  | inr (j, e) ↦
      rw (e, exhaust) (mark-Held_ne p j i u (exhaust_until r now) (find_ne p t t' i j tok ne e) h)
]

pub record_invalidation-Held :
    (p : TokenPool) (ev : InvalidationEvent) (i : ℕ) (u : Time)
    → Held p i u
    → Held (record_invalidation p ev) i u
unfolding record_invalidation
record_invalidation-Held p ev i u h = ground arith

pub invalidate_auth-Held_ne :
    (p : TokenPool) (t t' : String) (i : ℕ) (u now : Time)
    → (entry_at p i).token ≡ t
    → t' ≢ t
    → Held p i u
    → Held (invalidate_auth p t' now) i u
unfolding invalidate_auth
invalidate_auth-Held_ne p t t' i u now tok ne h = elim (Option-cases (find t' p.entries)) [
  | inl e ↦ rw (e, invalidate_auth) h
  | inr (j, e) ↦
      rw (e, invalidate_auth)
        (record_invalidation-Held _ _ i u
          (mark-Held_ne p j i u (invalid_until (entry_at p j) now) (find_ne p t t' i j tok ne e) h))
]
