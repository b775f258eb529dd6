-- ===== src/Service/Cache.antt =====
-- scoreCache (pkg/service/cache.go): responses by login and repo, each with the time after which it
-- is not used. The time to live is a field; the eviction runs whenever the ticker fires.
use devtrace.Base.Time.{after, Duration, Time}
use Prim.Native.String.{◌++◌}
use devtrace.Base.Maps.{get, put}
use devtrace.Base.{none, String_eq, some, ◌==◌, ◌∷◌, ◌+◌, Option, if◌then◌else◌, [], String, List}

pub record CacheEntry (R : Type 0) : Type 0 where
  pub resp : R
  pub expires_at : Time

pub record ScoreCache (R : Type 0) : Type 0 where
  pub entries : List (String × CacheEntry R)
  pub ttl : Duration

abbrev pub new_score_cache : {R : Type 0} → Duration → ScoreCache R
new_score_cache ttl = record { entries = []; ttl = ttl }

abbrev pub cache_key : String → String → String
cache_key username repo = if repo == "" then username else username ++ (":" ++ repo)

abbrev pub unless_expired : {R : Type 0} → Time → Option (CacheEntry R) → Option R
unless_expired now none = none
unless_expired now (some e) = if after now e.expires_at then none else some e.resp

unfoldable pub cached : {R : Type 0} → ScoreCache R → String → Time → Option R
cached c key now = unless_expired now (get c.entries key)

-- get
abbrev pub cache_get : {R : Type 0} → ScoreCache R → String → String → Time → Option R
cache_get c username repo now = cached c (cache_key username repo) now

-- set
unfoldable pub cache_set : {R : Type 0} → ScoreCache R → String → String → R → Time → ScoreCache R
cache_set c username repo resp now = record c {
  entries =
      put c.entries (cache_key username repo) (record { resp = resp; expires_at = now + c.ttl });
}

abbrev pub drop_expired :
    {R : Type 0} → Time → List (String × CacheEntry R) → List (String × CacheEntry R)
drop_expired now [] = []
drop_expired now (e ∷ es) =
    let rest = drop_expired now es in if after now e.1.expires_at then rest else e ∷ rest

-- One round of evictLoop.
unfoldable pub evict : {R : Type 0} → ScoreCache R → Time → ScoreCache R
evict c now = record c { entries = drop_expired now c.entries }
