-- ===== src/Service/Lookups.antt =====
-- The enrichments that are cached in the store for a time (pkg/service/score.go). What the store
-- and the other service return are arguments; the result says what is shown, what is saved, and
-- whether the other service was asked.
use devtrace.Base.Time.{is_zero, Duration, Time}
use devtrace.Base.{String_eq, ◌-◌, ltb, ◌&&◌, not, false, none, Bool, Option}

-- A row of the store: `cached, fetchedAt, err`.
pub record Row (A : Type 0) : Type 0 where
  pub cached : Option A
  pub fetched_at : Time
  pub failed : Bool

-- What a fetcher returns: a value, its ErrNotFound, or another error.
pub data Fetched (A : Type 0) : Type 0 where
  fetched : A → Fetched A
  not_found fetch_failed : Fetched A

pub record Lookup (A : Type 0) : Type 0 where
  pub shown : Option A
  pub saved : Option A
  pub asked : Bool

abbrev pub shows : {A : Type 0} → Option A → Lookup A
shows o = record { shown = o; saved = none; asked = false }

-- `err == nil && !fetchedAt.IsZero() && time.Since(fetchedAt) < ttl`
abbrev pub is_fresh : {A : Type 0} → Row A → Time → Duration → Bool
is_fresh row now ttl =
    not row.failed && not (is_zero row.fetched_at) && ltb (now - row.fetched_at) ttl
