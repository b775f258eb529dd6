-- ===== src/Ingest/Schedule.antt =====
-- The hours that are processed, one by one: no gap, none before it is published, and where a
-- later run goes on.
use devtrace.Ingest.Cursor.{AllAfter}
use mathlib.Core.List.{flatten}
use devtrace.Base.Time.{Time, hour}
use devtrace.Base.{
  sym, ◌++◌, take-append-drop, refl, length-drop, inr, length-take-le, drop, inl, ◌∷◌, length, ◌∙◌,
  Bool-cases, List, [], zero, suc, arith, ◌-◌, none, some, ◌&&◌, leb, ltb, ◌*◌, if◌then◌else◌, ◌+◌,
  ◌≡◌, ◌≤◌, get_elem?, ◌<◌, ℕ,
}
use devtrace.Ingest.Hours.{
  oldest, done, BatchOutcome, Outcome, run_batches, batches, run_hours, rounds, backfill_start,
  truncate_hour, backfill_end, archive_publish_delay, backfill_hours, descend, ascend,
  compute_hours,
}

get_elem?-ascend :
    (room : ℕ) (last t : Time) (i : ℕ)
    → get_elem? (ascend room last t) i
      ≡ (if ltb i room && leb (t + i * hour) last then some (t + i * hour) else none)
unfolding ascend
get_elem?-ascend zero last t i = ground arith
get_elem?-ascend (suc room) last t zero = ground arith
get_elem?-ascend (suc room) last t (suc i) = ground (arith, get_elem?-ascend room last (t + hour) i)

-- With a cursor, the hours are exactly those after it, in order and without a gap, that are
-- published, up to the catch-up limit: the i-th is i + 1 hours after the cursor.
pub compute_hours-catchup :
    (clock cursor : Time) (lookback catchup_max i : ℕ)
    → 0 < cursor
    → archive_publish_delay ≤ clock
    → get_elem? (compute_hours clock cursor lookback catchup_max) i ≡ (
        if ltb i catchup_max
          && leb (cursor + hour + i * hour + archive_publish_delay) (truncate_hour clock)
        then some (cursor + hour + i * hour)
        else none)
unfolding compute_hours
compute_hours-catchup clock cursor lookback catchup_max i pos late = ground (
  arith,
  get_elem?-ascend catchup_max (truncate_hour clock - archive_publish_delay) (cursor + hour) i,
)

get_elem?-descend :
    (fuel : ℕ) (end t : Time) (i : ℕ)
    → hour ≤ end
    → t < end + fuel * hour
    → get_elem? (descend fuel end t) i
      ≡ (if leb (end + i * hour) t then some (t - i * hour) else none)
unfolding descend
get_elem?-descend zero end t i h f = ground arith
get_elem?-descend (suc fuel) end t zero h f = ground arith
get_elem?-descend (suc fuel) end t (suc i) h f =
    ground (arith, get_elem?-descend fuel end (t - hour) i h)

-- A backfill from scratch or from a cursor: the hours go back one by one from the start down to
-- the end of the range, both included, if there is more than the end itself.
pub backfill_hours_lem :
    (clock cursor : Time) (days i : ℕ)
    → hour ≤ backfill_end (truncate_hour clock) days
    → let start = backfill_start (truncate_hour clock) cursor in
      let end = backfill_end (truncate_hour clock) days in
      get_elem? (backfill_hours clock days cursor) i
      ≡ (if ltb end start && leb (end + i * hour) start then some (start - i * hour) else none)
unfolding backfill_hours
backfill_hours_lem clock cursor days i h =
    let start = backfill_start (truncate_hour clock) cursor in
    let end = backfill_end (truncate_hour clock) days in
    elim (Bool-cases (ltb end start)) [
      | inl more ↦
          rw more
            (get_elem?-descend (rounds start end) end start i h (enough start end (ground arith)))
      | inr over ↦ rw over refl
    ]
  where
    enough : (start end : Time) → end < start → start < end + rounds start end * hour
    enough start end lt = omega arith

-- When a backfill was interrupted behind its k-th hour `c`, and more than one hour is left, the
-- next backfill at the same time goes on with exactly the hours that are left.
pub backfill_hours-resume :
    (clock cursor c : Time) (days k i : ℕ)
    → hour ≤ backfill_end (truncate_hour clock) days
    → get_elem? (backfill_hours clock days cursor) k ≡ some c
    → backfill_end (truncate_hour clock) days + hour < c
    → get_elem? (backfill_hours clock days c) i
      ≡ get_elem? (backfill_hours clock days cursor) (suc k + i)
backfill_hours-resume clock cursor c days k i h at more = ground (
  arith,
  backfill_hours_lem clock cursor days k h,
  backfill_hours_lem clock c days i h,
  backfill_hours_lem clock cursor days (suc k + i) h,
)

-- The last hour of the range is lost when a backfill is interrupted just before it: a backfill
-- from scratch reaches it, one from the hour after it does nothing.
pub backfill_hours-last :
    (clock : Time) (days : ℕ)
    → 0 < days
    → days * 24 * hour + hour ≤ truncate_hour clock
    → let end = backfill_end (truncate_hour clock) days in
      (get_elem? (backfill_hours clock days 0) (days * 24 - 1) ≡ some end)
      × (backfill_hours clock days (end + hour) ≡ [])
backfill_hours-last clock days pos room = (
  backfill_hours_lem clock 0 days (days * 24 - 1) (omega arith) ∙ ground arith,
  unfold backfill_hours in ground arith,
)

-- A later run: its time, how its hours end, and its configuration.
pub record LaterRun : Type 0 where
  pub clock : Time
  pub process : Time → Outcome
  pub lookback : ℕ
  pub catchup_max : ℕ

abbrev pub hours_of : LaterRun → Time → List Time
hours_of r cursor = compute_hours r.clock cursor r.lookback r.catchup_max

-- Each of the runs, from the cursor that the one before it left, processes only hours after `t`.
abbrev pub AllRunsAfter : Time → Time → List LaterRun → Type 0
AllRunsAfter t cursor [] = Unit {0}
AllRunsAfter t cursor (r ∷ rs) =
    AllAfter t (hours_of r cursor)
    × AllRunsAfter t (run_hours r.process cursor (hours_of r cursor)) rs

flatten-batches :
    (fuel size : ℕ) (ts : List Time)
    → 0 < size
    → length ts ≤ fuel
    → flatten (batches fuel size ts) ≡ ts
unfolding batches flatten
flatten-batches zero size [] pos f = refl
flatten-batches zero size (t ∷ ts) pos f = absurd (omega arith)
flatten-batches (suc fuel) size [] pos f = refl
flatten-batches (suc fuel) size (t ∷ ts) pos f =
    rw
      (flatten-batches fuel size (drop size (t ∷ ts)) pos
        (omega (arith, length-drop size (t ∷ ts))))
      (take-append-drop size (t ∷ ts))

abbrev pub AllAtMost : ℕ → List (List Time) → Type 0
AllAtMost size [] = Unit {0}
AllAtMost size (b ∷ bs) = (length b ≤ size) × AllAtMost size bs

batches-AllAtMost : (fuel size : ℕ) (ts : List Time) → AllAtMost size (batches fuel size ts)
unfolding batches flatten
batches-AllAtMost zero size ts = tt
batches-AllAtMost (suc fuel) size [] = tt
batches-AllAtMost (suc fuel) size (t ∷ ts) =
    (length-take-le size (t ∷ ts), batches-AllAtMost fuel size (drop size (t ∷ ts)))

-- The batches of a backfill are the hours in their order, none twice and none left out, each
-- batch within the batch size.
pub batches_lem :
    (size : ℕ) (ts : List Time)
    → 0 < size
    → (flatten (batches (length ts) size ts) ≡ ts) × AllAtMost size (batches (length ts) size ts)
batches_lem size ts pos =
    (flatten-batches (length ts) size ts pos (omega arith), batches-AllAtMost (length ts) size ts)

-- When every batch is done, the cursor is the oldest of all the hours.
pub run_batches-oldest :
    (process : List Time → BatchOutcome) (cursor : Time) (bs : List (List Time))
    → ((b : List Time) → process b ≡ done)
    → run_batches process cursor bs ≡ oldest cursor (flatten bs)
unfolding run_batches flatten
run_batches-oldest process cursor [] all = refl
run_batches-oldest process cursor (b ∷ bs) all =
    rw (all b, run_batches)
      (run_batches-oldest process (oldest cursor b) bs all
        ∙ sym (oldest-append cursor b (flatten bs)))
  where
    oldest-append : (c : Time) (xs ys : List Time) → oldest c (xs ++ ys) ≡ oldest (oldest c xs) ys
    oldest-append c [] ys = refl
    oldest-append c (x ∷ xs) ys = oldest-append x xs ys
