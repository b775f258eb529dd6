-- ===== src/Pool/Refresh.antt =====
-- The refresh of the pool (pkg/github/pool_refresh.go): doRefresh, and what Replace drops. The
-- function that loads the installations is a parameter; each reading of the clock is an argument.
use devtrace.Base.Time.{Time, Duration, second}
use devtrace.Base.{
  inr, true, eq_iff, inl, arith, length, Bool-cases, ◌++◌, [], ◌∷◌, refl, not, some, none, zero,
  ◌&&◌, ◌⊎◌, suc, ◌-◌, ◌+◌, false, ◌≡◌, ltb, ◌<◌, replicate, any, if◌then◌else◌, Option, get_or,
  String, List, ◌*◌, ℕ, ◌==◌, String_eq,
}
use devtrace.Pool.Defs.{blocked, TokenPool, PoolEntry}
use devtrace.Pool.Marks.{has_token, replace, dropped}

abbrev pub refresh_dedup : Duration
refresh_dedup = 30 * second

pub record Refresh : Type 0 where
  pub pool : TokenPool
  pub last_refresh : Time
  -- The tokens handed to the observer, in the order of the calls.
  pub observed : List String

-- `refreshFn` gives an error (`none`) or entries.
unfoldable pub do_refresh : Refresh → Option (List PoolEntry) → Time → Time → Refresh
unfolding replace
do_refresh s refresh_fn now done =
    if ltb (now - s.last_refresh) refresh_dedup then s else elim refresh_fn [
      | none ↦ s
      | some [] ↦ s
      | some (e ∷ es) ↦
          let (pool, gone) = replace s.pool (e ∷ es) in
          record { pool = pool; last_refresh = done; observed = s.observed ++ gone }
    ]

mem-dropped :
    (t : String) (new old : List PoolEntry)
    → any (λ d. d == t) (dropped new old) ≡ (has_token old t && not (has_token new t))
unfolding dropped
mem-dropped t new [] = refl
mem-dropped t new (e ∷ es) = elim (Bool-cases (has_token new e.token)) [
  | inl kept ↦
      rw (kept, mem-dropped t new es)
        (elim (Bool-cases (e.token == t)) [
          | inl same ↦
              (let eq : e.token ≡ t = (eq_iff e.token t).0 same in
                let here : has_token new t ≡ true = rw eq at kept in rw here (ground arith))
          | inr other ↦ rw other refl
        ])
  | inr gone ↦
      rw (gone, mem-dropped t new es)
        (elim (Bool-cases (e.token == t)) [
          | inl same ↦
              (let eq : e.token ≡ t = (eq_iff e.token t).0 same in
                let here : has_token new t ≡ false = rw eq at gone in rw (same, here) refl)
          | inr other ↦ rw other refl
        ])
]

get_or-replicate : (n i : ℕ) → get_or (replicate n false) i false ≡ false
get_or-replicate zero i = refl
get_or-replicate (suc n) zero = refl
get_or-replicate (suc n) (suc i) = get_or-replicate n i

-- Replace reports exactly the tokens that an old entry has and no new entry has; and every entry
-- of the new pool can be selected at once, whatever Exhaust and InvalidateAuth had marked before.
replace_lem :
    (p : TokenPool) (es : List PoolEntry) (t : String) (now : Time) (i : ℕ)
    → (any (λ d. d == t) (replace p es).1 ≡ (has_token p.entries t && not (has_token es t)))
      × (blocked (replace p es).0 now i ≡ false)
unfolding replace
replace_lem p es t now i = (mem-dropped t es p.entries, rw (get_or-replicate (length es) i) refl)

-- A refresh that fails, that returns no entries, or that comes within 30 seconds of the last one
-- leaves the pool, its time stamp and the observer alone.
pub do_refresh-keeps :
    (s : Refresh) (result : Option (List PoolEntry)) (now done : Time)
    → (now < s.last_refresh + refresh_dedup) ⊎ (result ≡ none) ⊎ (result ≡ some [])
    → do_refresh s result now done ≡ s
unfolding do_refresh
do_refresh-keeps s result now done h = ground arith
