-- ===== src/Pool/Reports.antt =====
-- The methods that only read the pool: EarliestReset, ActiveCount, NeedsRefresh and the listings.
use devtrace.Base.Time.{Time, is_zero, after, before}
use devtrace.Base.{
  ℕ, ◌+◌, List, ◌∷◌, map, Bool, not, ◌&&◌, ◌||◌, String, length, any, if◌then◌else◌,
}
use devtrace.Pool.Defs.{TokenPool, PoolEntry, near_expiry}

-- One round of the loop of EarliestReset, on an entry's flag and reset time.
abbrev pub sooner : Time → Time → Bool → Time → Time
sooner now earliest x u =
    if not x || after now u
    then earliest
    else (if is_zero earliest || before u earliest then u else earliest)

-- The loops of these methods walk the parallel slices together.
unfoldable pub earliest_from : Time → Time → List PoolEntry → List Bool → List Time → Time
earliest_from now earliest (e ∷ es) (x ∷ xs) (u ∷ us) =
    earliest_from now (sooner now earliest x u) es xs us
earliest_from now earliest _ _ _ = earliest

unfoldable pub earliest_reset : TokenPool → Time → Time
unfolding earliest_from
earliest_reset p now = earliest_from now 0 p.entries p.exhausted p.exhausted_until

abbrev pub expired : PoolEntry → Time → Bool
expired e now = not (is_zero e.expires_at) && after now e.expires_at

unfoldable pub active_from : Time → List PoolEntry → List Bool → List Time → ℕ
active_from now (e ∷ es) (x ∷ xs) (u ∷ us) =
    (if not (x && not (after now u)) && not (expired e now) then 1 else 0)
    + active_from now es xs us
active_from now _ _ _ = 0

unfoldable pub active_count : TokenPool → Time → ℕ
unfolding active_from
active_count p now = active_from now p.entries p.exhausted p.exhausted_until

unfoldable pub size : TokenPool → ℕ
size p = length p.entries

unfoldable pub usage_counts : TokenPool → List ℕ
usage_counts p = p.counts

unfoldable pub needs_refresh : TokenPool → Time → Bool
needs_refresh p now = any (λ e. near_expiry e now) p.entries

unfoldable pub labels : TokenPool → List String
labels p = map (λ e. e.label) p.entries
