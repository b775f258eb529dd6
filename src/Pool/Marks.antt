-- ===== src/Pool/Marks.antt =====
-- The methods that mark tokens or swap them: Exhaust, InvalidateAuth, Replace.
use devtrace.Base.Time.{Time, is_zero, after}
use devtrace.Base.{
  ℕ, suc, ◌+◌, List, [], ◌∷◌, ◌++◌, Bool, true, false, not, ◌||◌, Option, none, some, String,
  length, set, replicate, any, if◌then◌else◌, nat_eq, leb, ◌==◌, String_eq,
}
use devtrace.Pool.Defs.{
  TokenPool, PoolEntry, InvalidationEvent, entry_at, token_reset_fallback,
  permanent_invalidation_until, invalidation_ring_cap,
}

-- The loops `for i, e := range p.entries` that stop at the first entry with the token.
unfoldable pub find : String → List PoolEntry → Option ℕ
find token [] = none
find token (e ∷ es) =
    if e.token == token
    then some 0
    else elim (find token es) [ none ↦ none | some i ↦ some (suc i) ]

abbrev pub mark : TokenPool → ℕ → Time → TokenPool
mark p i until = record p {
  exhausted = set p.exhausted i true;
  exhausted_until = set p.exhausted_until i until;
}

-- When an exhausted token comes back: a reset that is zero or past is replaced by the fallback.
abbrev pub exhaust_until : Time → Time → Time
exhaust_until reset_at now =
    if is_zero reset_at || not (after reset_at now) then now + token_reset_fallback else reset_at

-- The family is only logged.
unfoldable pub exhaust : TokenPool → String → Time → Time → TokenPool
unfolding find
exhaust p token reset_at now = elim (find token p.entries) [
  | none ↦ p
  | some i ↦ mark p i (exhaust_until reset_at now)
]

abbrev pub drop_first {ℓ} : {A : Type ℓ} → List A → List A
drop_first [] = []
drop_first (x ∷ xs) = xs

unfoldable pub record_invalidation : TokenPool → InvalidationEvent → TokenPool
record_invalidation p ev =
    if leb invalidation_ring_cap (length p.invalidations)
    then record p { invalidations = drop_first p.invalidations ++ ev ∷ [] }
    else record p { invalidations = p.invalidations ++ ev ∷ [] }

abbrev pub invalidation_of : PoolEntry → Time → InvalidationEvent
invalidation_of e now = record {
  at = now;
  label = e.label;
  installation_id = e.installation_id;
  permanent = nat_eq e.installation_id 0;
}

-- A PAT has no installation, and is never minted again.
abbrev pub invalid_until : PoolEntry → Time → Time
invalid_until e now =
    if nat_eq e.installation_id 0 then permanent_invalidation_until else now + token_reset_fallback

unfoldable pub invalidate_auth : TokenPool → String → Time → TokenPool
unfolding find record_invalidation
invalidate_auth p token now = elim (find token p.entries) [
  | none ↦ p
  | some i ↦
      record_invalidation (mark p i (invalid_until (entry_at p i) now))
        (invalidation_of (entry_at p i) now)
]

abbrev pub has_token : List PoolEntry → String → Bool
has_token es token = any (λ e. e.token == token) es

-- The tokens of the old entries that are in none of the new ones.
unfoldable pub dropped : List PoolEntry → List PoolEntry → List String
dropped entries [] = []
dropped entries (old ∷ olds) =
    let rest = dropped entries olds in
    if has_token entries old.token then rest else old.token ∷ rest

-- The ring of invalidations and the refresh channel survive the swap.
unfoldable pub replace : TokenPool → List PoolEntry → TokenPool × List String
unfolding dropped
replace p entries = (
  record p {
    entries = entries;
    counts = replicate (length entries) 0;
    exhausted = replicate (length entries) false;
    exhausted_until = replicate (length entries) 0;
    current = 0;
  },
  dropped entries p.entries,
)

-- RecentInvalidations: the events after `since`, all of them for a zero time.
unfoldable pub recent_invalidations : List InvalidationEvent → Time → List InvalidationEvent
recent_invalidations [] since = []
recent_invalidations (ev ∷ evs) since =
    let rest = recent_invalidations evs since in
    if is_zero since || after ev.at since then ev ∷ rest else rest
