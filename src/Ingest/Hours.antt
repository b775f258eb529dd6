-- ===== src/Ingest/Hours.antt =====
-- Which hours of the archive are processed: computeHours and the loop of Run
-- (pkg/ingest/runner.go), backfillHours and the batches of Backfill (pkg/ingest/backfill.go).
use devtrace.Base.Time.{Time, Duration, hour, after, before, is_zero}
use devtrace.Base.{
  drop, nat_eq, take, ◌||◌, zero, suc, ◌∷◌, ◌+◌, not, [], ◌-◌, if◌then◌else◌, List, ◌*◌, ℕ, ◌/◌,
}

-- config.ArchivePublishDelay
abbrev pub archive_publish_delay : Duration
archive_publish_delay = 2 * hour

abbrev pub truncate_hour : Time → Time
truncate_hour t = t / hour * hour

-- `for t := start; !t.After(lastAvailable) && len(hours) < cap; t = t.Add(time.Hour)`
unfoldable pub ascend : ℕ → Time → Time → List Time
ascend zero last t = []
ascend (suc room) last t =
    let rest = ascend room last (t + hour) in if after t last then [] else t ∷ rest

abbrev pub hours_between : ℕ → Time → Time → Time → List Time
hours_between cap last now start = if not (before start now) then [] else ascend cap last start

-- `clock` is time.Now(). A lookback of 0 hours starts one hour late, as in the code.
unfoldable pub compute_hours : Time → Time → ℕ → ℕ → List Time
unfolding ascend
compute_hours clock cursor lookback catchup_max =
    let now = truncate_hour clock in
    let last_available = now - archive_publish_delay in
    if is_zero cursor
    then hours_between lookback last_available now (last_available + hour - lookback * hour)
    else hours_between catchup_max last_available now (cursor + hour)

-- How processHour ends.
pub data Outcome : Type 0 where
  stored not_found failed : Outcome

-- The loop of Run over the hours: the cursor that SaveSyncState leaves. The outcome of an hour is
-- that of its download and of the database.
unfoldable pub run_hours : (Time → Outcome) → Time → List Time → Time
run_hours process cursor [] = cursor
run_hours process cursor (t ∷ ts) = elim (process t) [
  | stored ↦ run_hours process t ts
  | not_found ↦ cursor
  | failed ↦ run_hours process cursor ts
]

-- `for t := start; t.After(end) || t.Equal(end); t = t.Add(-time.Hour)`, with fuel.
unfoldable pub descend : ℕ → Time → Time → List Time
descend zero end t = []
descend (suc fuel) end t =
    let rest = descend fuel end (t - hour) in
    if not (after t end || nat_eq t end) then [] else (if nat_eq t end then t ∷ [] else t ∷ rest)

abbrev pub backfill_start : Time → Time → Time
backfill_start now cursor = if not (is_zero cursor) then cursor - hour else now - hour

abbrev pub backfill_end : Time → ℕ → Time
backfill_end now days = now - days * 24 * hour

-- Rounds enough for the loop from `start` down to `end`.
abbrev pub rounds : Time → Time → ℕ
rounds start end = (start - end) / hour + 1

unfoldable pub backfill_hours : Time → ℕ → Time → List Time
unfolding descend
backfill_hours clock days cursor =
    let now = truncate_hour clock in
    let start = backfill_start now cursor in
    let end = backfill_end now days in
    if not (after start end) then [] else descend (rounds start end) end start

-- The batches of Backfill: `hours[i:min(i+size, len(hours))]`, with fuel.
unfoldable pub batches : ℕ → ℕ → List Time → List (List Time)
batches zero size hours = []
batches (suc fuel) size [] = []
batches (suc fuel) size (t ∷ ts) = take size (t ∷ ts) ∷ batches fuel size (drop size (t ∷ ts))

-- How a batch ends: cancelled before or in it, or done.
pub data BatchOutcome : Type 0 where
  done cancelled : BatchOutcome

abbrev pub oldest : Time → List Time → Time
oldest cursor [] = cursor
oldest cursor (t ∷ ts) = oldest t ts

-- The cursor that Backfill leaves: the oldest hour of the last batch that was done.
unfoldable pub run_batches : (List Time → BatchOutcome) → Time → List (List Time) → Time
run_batches process cursor [] = cursor
run_batches process cursor (b ∷ bs) = elim (process b) [
  | done ↦ run_batches process (oldest cursor b) bs
  | cancelled ↦ cursor
]
