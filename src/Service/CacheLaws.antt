-- ===== src/Service/CacheLaws.antt =====
-- The cache returns what was stored, until it expires.
use devtrace.Base.Time.{after, Time}
use devtrace.Base.Maps.{get, put, get-put}
use devtrace.Service.Cache.{
  cache_key, unless_expired, drop_expired, CacheEntry, cached, cache_set, ScoreCache, evict,
}
use devtrace.Base.{
  eq_iff, subst, false, true, ◌∙◌, ap, Option, Bool, some, refl, inr, ◌+◌, inl, String_eq, arith,
  ◌==◌, [], if◌then◌else◌, Bool-cases, none, ◌≤◌, ◌≡◌, ◌∷◌, String, List,
}

-- No key stands twice.
abbrev HasDistinctKeys : {R : Type 0} → List (String × CacheEntry R) → Type 0
HasDistinctKeys [] = Unit {0}
HasDistinctKeys (e ∷ es) = (get es e.0 ≡ none) × HasDistinctKeys es

pub record IsCache {R : Type 0} (c : ScoreCache R) : Type 0 where
  pub distinct : HasDistinctKeys c.entries

not_equal_back : (a b : String) → (a == b) ≡ false → (b == a) ≡ false
not_equal_back a b h = ground (arith, eq_iff a b, eq_iff b a)

put-HasDistinctKeys :
    {R : Type 0}
    → (es : List (String × CacheEntry R)) (key : String) (e : CacheEntry R) → HasDistinctKeys es
    → HasDistinctKeys (put es key e)
unfolding put get
put-HasDistinctKeys [] key e v = (refl, tt)
put-HasDistinctKeys (p ∷ es) key e v = elim (Bool-cases (p.0 == key)) [
  | inl same ↦ rw same v
  | inr other ↦ rw other (absent p.0 key es e other v.0, put-HasDistinctKeys es key e v.1)
]
  where
    absent :
        {R : Type 0}
        → (k key : String) (es : List (String × CacheEntry R)) (e : CacheEntry R)
        → (k == key) ≡ false
        → get es k ≡ none
        → get (put es key e) k ≡ none
    absent k key es e other h =
        get-put es key k e
        ∙ ap (λ b. if b then some e else get es k) (not_equal_back k key other)
        ∙ h

drop_expired-none :
    {R : Type 0}
    → (es : List (String × CacheEntry R)) (now : Time) (key : String) → get es key ≡ none
    → get (drop_expired now es) key ≡ none
unfolding get
drop_expired-none [] now key h = refl
drop_expired-none (e ∷ es) now key h = ground (arith, drop_expired-none es now key)

drop_expired-HasDistinctKeys :
    {R : Type 0}
    → (es : List (String × CacheEntry R)) (now : Time) → HasDistinctKeys es
    → HasDistinctKeys (drop_expired now es)
drop_expired-HasDistinctKeys [] now v = tt
drop_expired-HasDistinctKeys (e ∷ es) now v = elim (Bool-cases (after now e.1.expires_at)) [
  | inl expired ↦ rw expired (drop_expired-HasDistinctKeys es now v.1)
  | inr live ↦ rw live (drop_expired-none es now e.0 v.0, drop_expired-HasDistinctKeys es now v.1)
]

-- An eviction at an earlier time hides nothing that is still live.
drop_expired-get :
    {R : Type 0}
    → (es : List (String × CacheEntry R)) (now later : Time) (key : String) → now ≤ later
    → HasDistinctKeys es
    → unless_expired later (get (drop_expired now es) key) ≡ unless_expired later (get es key)
unfolding get
drop_expired-get [] now later key le v = refl
drop_expired-get (e ∷ es) now later key le v = elim (Bool-cases (after now e.1.expires_at)) [
  | inl expired ↦ rw expired (elim (Bool-cases (e.0 == key)) [
    | inl same ↦
        rw
          (
            same,
            drop_expired-none es now key
                (subst (λ k. get es k ≡ none) ((eq_iff e.0 key).0 same) v.0),
          )
          (ground arith)
    | inr other ↦ rw other (drop_expired-get es now later key le v.1)
  ])
  | inr live ↦ rw live (elim (Bool-cases (e.0 == key)) [
    | inl same ↦ rw same refl
    | inr other ↦ rw other (drop_expired-get es now later key le v.1)
  ])
]

-- An empty cache has distinct keys, and a stored response and an eviction round keep them so.
pub cache_set-IsCache :
    {R : Type 0}
    → (c : ScoreCache R) (username repo : String) (resp : R) (now : Time) → IsCache c
    → IsCache (cache_set c username repo resp now) × IsCache (evict c now)
unfolding cache_set evict
cache_set-IsCache c username repo resp now v = (
  record { distinct = put-HasDistinctKeys c.entries _ _ v.distinct },
  record { distinct = drop_expired-HasDistinctKeys c.entries now v.distinct },
)

pub cached-cache_set :
    {R : Type 0}
    → (c : ScoreCache R) (username repo : String) (resp : R) (key : String) (now later : Time)
    → cached (cache_set c username repo resp now) key later ≡ (
        if cache_key username repo == key
        then (if after later (now + c.ttl) then none else some resp)
        else cached c key later)
unfolding cached cache_set
cached-cache_set c username repo resp key now later =
    ap (unless_expired later) (get-put c.entries (cache_key username repo) key _)
    ∙ if_unless (cache_key username repo == key) (record { resp = resp; expires_at = now + c.ttl })
        (get c.entries key) later
  where
    if_unless :
        {R : Type 0}
        → (b : Bool) (e : CacheEntry R) (o : Option (CacheEntry R)) (later : Time)
        → unless_expired later (if b then some e else o) ≡ (
            if b
            then (if after later e.expires_at then none else some e.resp)
            else unless_expired later o)
    if_unless true e o later = refl
    if_unless false e o later = refl

-- A stored response is returned to the same request until the time to live is over, and never
-- after that; a request with another key gets what it got before; and an eviction round changes
-- nothing that a cache with distinct keys returns from then on.
pub cache_set-get :
    {R : Type 0}
    → (c : ScoreCache R) (username repo : String) (resp : R) (key : String) (now later : Time)
    → IsCache c
    → now ≤ later
    → (cached (cache_set c username repo resp now) key later ≡ (
        if cache_key username repo == key
        then (if after later (now + c.ttl) then none else some resp)
        else cached c key later))
      × (cached (evict c now) key later ≡ cached c key later)
unfolding cached evict
cache_set-get c username repo resp key now later v le = (
  cached-cache_set c username repo resp key now later,
  drop_expired-get c.entries now later key le v.distinct,
)
