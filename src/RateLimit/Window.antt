-- ===== src/RateLimit/Window.antt =====
-- How many requests of a key a limiter admits in a window, among requests of other keys and ticks
-- of the cleanup goroutine.
use devtrace.Base.Time.{Time, after}
use devtrace.Base.{
  ◌∙◌, refl, inr, max, inl, Bool-cases, eq_iff, [], ◌&&◌, Option-cases, min, arith, ◌≤◌,
  if◌then◌else◌, ◌+◌, none, some, ◌∷◌, false, ◌≡◌, List, Bool, ℕ, ◌==◌, String, String_eq,
}
use devtrace.RateLimit.Defs.{
  next_visit, first_visit, store, unless_over, Visitor, cleanup, Limiter, allow_with_limit,
}

pub data Traffic : Type 0 where
  arrives : String → Traffic
  cleans : Traffic

-- Times and events in the order in which they take the mutex; each key has its limit.
unfoldable pub serve : (String → ℕ) → Limiter → Time × Traffic → Limiter × Bool
unfolding allow_with_limit cleanup
serve limit_of rl (now, arrives k) = allow_with_limit rl k (limit_of k) now
serve limit_of rl (now, cleans) = (cleanup rl now, false)

abbrev pub is_of : String → Traffic → Bool
is_of key (arrives k) = k == key
is_of key cleans = false

-- The requests of `key` that are admitted.
unfoldable pub admitted : (String → ℕ) → String → Limiter → List (Time × Traffic) → ℕ
admitted limit_of key rl [] = 0
admitted limit_of key rl (e ∷ h) =
    (if is_of key e.1 && (serve limit_of rl e).1 then 1 else 0)
    + admitted limit_of key (serve limit_of rl e).0 h

abbrev pub arrivals : String → List (Time × Traffic) → ℕ
arrivals key [] = 0
arrivals key (e ∷ h) = (if is_of key e.1 then 1 else 0) + arrivals key h

abbrev pub AllBefore : Time → List (Time × Traffic) → Type 0
AllBefore end [] = Unit {0}
AllBefore end (e ∷ h) = (e.0 ≤ end) × AllBefore end h

allow-other :
    (rl : Limiter) (k key : String) (l : ℕ) (now : Time)
    → (k == key) ≡ false
    → (allow_with_limit rl k l now).0.visitors key ≡ rl.visitors key
unfolding allow_with_limit
allow-other rl k key l now h = ground arith

allow-same :
    (rl : Limiter) (key : String) (v : Visitor) (l : ℕ) (now : Time)
    → rl.visitors key ≡ some v
    → now ≤ v.reset_at
    → allow_with_limit rl key l now ≡ next_visit rl key v l
unfolding allow_with_limit
allow-same rl key v l now e h = elim (Bool-cases (after now v.reset_at)) [
  | inl late ↦ absurd (ground arith)
  | inr soon ↦ rw (e, allow_with_limit, soon) refl
]

pub store_self :
    (rl : Limiter) (key : String) (v : Visitor) → (store rl key v).visitors key ≡ some v
store_self rl key v = ground (arith, eq_iff key key)

-- Behind a visitor whose window is open, the count is all that decides.
admitted_open :
    (limit_of : String → ℕ) (key : String) (rl : Limiter) (c : ℕ) (end : Time)
    (h : List (Time × Traffic))
    → rl.visitors key ≡ some (record { count = c; reset_at = end })
    → AllBefore end h
    → admitted limit_of key rl h + min c (limit_of key) ≡ min (c + arrivals key h) (limit_of key)
unfolding admitted serve
admitted_open limit_of key rl c end [] e b = omega arith
admitted_open limit_of key rl c end ((now, cleans) ∷ h) e b =
    omega (arith, admitted_open limit_of key (cleanup rl now) c end h (kept (b.0)) b.1)
  where
    kept : now ≤ end → (cleanup rl now).visitors key ≡ some (record { count = c; reset_at = end })
    kept le = ground arith
admitted_open limit_of key rl c end ((now, arrives k) ∷ h) e b = elim (Bool-cases (k == key)) [
  | inr other ↦
      rw (other, admitted)
        (omega (
          arith,
          admitted_open limit_of key (allow_with_limit rl k (limit_of k) now).0 c end h
              (allow-other rl k key (limit_of k) now other ∙ e) b.1,
        ))
  | inl same ↦
      (let eq : k ≡ key = (eq_iff k key).0 same in
        let v : Visitor = record { count = c; reset_at = end } in
        let step : allow_with_limit rl k (limit_of k) now ≡ next_visit rl key v (limit_of key) =
          rw eq (allow-same rl key v (limit_of key) now e b.0) in
        rw (same, step)
          (ground (
            arith,
            admitted_open limit_of key (next_visit rl key v (limit_of key)).0 (c + 1) end h
                (store_self rl key (record { count = c + 1; reset_at = end })) b.1,
          )))
]

-- Before a window is opened for the key.
abbrev pub IsFresh : Limiter → String → Time → Type 0
IsFresh rl key now = unless_over now (rl.visitors key) ≡ none

allow-fresh :
    (rl : Limiter) (key : String) (l : ℕ) (now : Time)
    → IsFresh rl key now
    → allow_with_limit rl key l now ≡ first_visit rl key now
unfolding allow_with_limit
allow-fresh rl key l now h = elim (Option-cases (rl.visitors key)) [
  | inl e ↦ rw (e, allow_with_limit) refl
  | inr (v, e) ↦ elim (Bool-cases (after now v.reset_at)) [
    | inl late ↦ rw (e, allow_with_limit, late) refl
    | inr soon ↦ absurd (cc (rw (e, soon) at h))
  ]
]

-- A window that a request of `key` opens at time `t` admits exactly as many of the key's requests
-- up to its end as the limit says, and at least that first one: of n requests the smaller of n and
-- the limit (1 for a limit of 0), however requests of other keys and cleanups come in between.
pub admitted_window :
    (limit_of : String → ℕ) (key : String) (rl : Limiter) (t : Time) (h : List (Time × Traffic))
    → IsFresh rl key t
    → AllBefore (t + rl.window) h
    → admitted limit_of key rl ((t, arrives key) ∷ h)
      ≡ min (1 + arrivals key h) (max 1 (limit_of key))
unfolding admitted serve
admitted_window limit_of key rl t h f b =
    rw (allow-fresh rl key (limit_of key) t f, (eq_iff key key).1 refl)
      (omega (
        arith,
        admitted_open limit_of key (first_visit rl key t).0 1 (t + rl.window) h
            (store_self rl key (record { count = 1; reset_at = t + rl.window })) b,
      ))
