-- ===== src/Ingest/Process.antt =====
-- processHour (pkg/ingest/runner.go): one hour of the archive into the store. What the download and
-- the store's batch statements answer is an argument.
use devtrace.Ingest.Hours.{failed, stored, not_found, Outcome}
use devtrace.Ingest.Notify.{WatchlistEntry}
use devtrace.Ingest.Aggregator.{new_aggregator, pr_observations, add_all, results, Aggregator}
use devtrace.Base.Time.{Time}
use devtrace.Ingest.Queueing.{
  queue_contributors_lem, due_entries, queue_contributors, Queueing, IngestStore,
}
use devtrace.Ingest.Events.{PrEvent, Summary, Event}
use devtrace.Base.{
  sym, ◌∙◌, ap, false, true, ◌∷◌, refl, some, not, ◌≡◌, map, length, none, Bool, ℕ, if◌then◌else◌,
  [], Option, String, List,
}

-- The end of reader.Stream: all events of the hour, ErrArchiveNotFound, any other error.
pub data Archive : Type 0 where
  streamed : List Event → Archive
  missing broken : Archive

-- The row of postgres.HourlySummary.
pub record HourlySummary : Type 0 where
  pub summary : Summary
  pub provider : String
  pub hour : Time
  pub distinct_repos : ℕ

pub record PrEventRow : Type 0 where
  pub provider : String
  pub event : PrEvent

pub record HourStore : Type 0 where
  pub queue : IngestStore
  pub batch_upsert_activity : List HourlySummary → Bool
  pub batch_upsert_pr_events : List PrEventRow → Bool

-- What an hour has written.
pub record HourRows : Type 0 where
  pub activity : List HourlySummary
  pub pr_rows : List PrEventRow
  pub queueing : Option Queueing

abbrev pub no_rows : HourRows
no_rows = record { activity = []; pr_rows = []; queueing = none }

abbrev pub hourly_summary : Time → Summary → HourlySummary
hourly_summary at s = record {
  summary = s;
  provider = "github";
  hour = at;
  distinct_repos = length s.repos;
}

abbrev pub pr_event_row : PrEvent → PrEventRow
pr_event_row r = record { provider = "github"; event = r }

abbrev pub activity_rows : Aggregator → List HourlySummary
activity_rows agg = map (hourly_summary agg.at) (results agg)

-- The rows of the merge graph are not critical: where they fail, the hour goes on.
abbrev pub accepted : HourStore → List PrEventRow → List PrEventRow
accepted store rows = if store.batch_upsert_pr_events rows then rows else []

abbrev pub store_hour :
    HourStore
    → (String → Bool)
    → List (String × List WatchlistEntry)
    → Aggregator
    → HourRows × Outcome
store_hour store tenant_repos targets agg =
    if not (store.batch_upsert_activity (activity_rows agg)) then (no_rows, failed) else (
      record {
        activity = activity_rows agg;
        pr_rows = accepted store (map pr_event_row (pr_observations agg));
        queueing = some (queue_contributors store.queue tenant_repos targets (results agg));
      },
      stored,
    )

unfoldable pub process_hour :
    HourStore
    → (String → Bool)
    → List (String × List WatchlistEntry)
    → Time
    → Archive
    → HourRows × Outcome
process_hour store tenant_repos targets at missing = (no_rows, not_found)
process_hour store tenant_repos targets at broken = (no_rows, failed)
process_hour store tenant_repos targets at (streamed evs) =
    store_hour store tenant_repos targets (add_all (new_aggregator at) evs)

abbrev summary_of : HourlySummary → Summary
summary_of row = row.summary

summaries-activity_rows :
    (at : Time) (ss : List Summary) → map summary_of (map (hourly_summary at) ss) ≡ ss
summaries-activity_rows at [] = refl
summaries-activity_rows at (s ∷ ss) = ap (λ rest. s ∷ rest) (summaries-activity_rows at ss)

-- What an hour from the events `evs` writes: a row for each summary, the observations of the merge
-- graph if the store takes them, and queue entries for the contributors of the written rows.
pub record IsWritten (store : HourStore) (tenant_repos : String → Bool) (at : Time)
    (evs : List Event) (rows : HourRows) : Type 0 where
  pub all_rows : rows.activity ≡ activity_rows (add_all (new_aggregator at) evs)
  pub observed :
      let prs = map pr_event_row (pr_observations (add_all (new_aggregator at) evs)) in
      (store.batch_upsert_pr_events prs ≡ true → rows.pr_rows ≡ prs)
      × (store.batch_upsert_pr_events prs ≡ false → rows.pr_rows ≡ [])
  pub queued :
      (q : Queueing) × (rows.queueing ≡ some q)
      × (q.enqueued ≡ due_entries store.queue tenant_repos (map summary_of rows.activity))

stored_hour :
    (store : HourStore) (tenant_repos : String → Bool)
    (targets : List (String × List WatchlistEntry)) (at : Time) (evs : List Event)
    → store.batch_upsert_activity (activity_rows (add_all (new_aggregator at) evs)) ≡ true
    → let (rows, outcome) = process_hour store tenant_repos targets at (streamed evs) in
      (outcome ≡ stored) × IsWritten store tenant_repos at evs rows
unfolding process_hour
stored_hour store tenant_repos targets at evs ok =
    let agg = add_all (new_aggregator at) evs in
    rw ok (
      refl,
      record {
        all_rows = refl;
        observed = (λ e. rw e refl, λ e. rw e refl);
        queued = (
          queue_contributors store.queue tenant_repos targets (results agg),
          refl,
          (queue_contributors_lem store.queue tenant_repos targets (results agg)).0
              ∙ ap (λ ss. due_entries store.queue tenant_repos ss)
                  (sym (summaries-activity_rows agg.at (results agg))),
        );
      },
    )

failed_hour :
    (store : HourStore) (tenant_repos : String → Bool)
    (targets : List (String × List WatchlistEntry)) (at : Time) (evs : List Event)
    → store.batch_upsert_activity (activity_rows (add_all (new_aggregator at) evs)) ≡ false
    → process_hour store tenant_repos targets at (streamed evs) ≡ (no_rows, failed)
unfolding process_hour
failed_hour store tenant_repos targets at evs bad = rw bad refl

-- An hour whose archive was read to its end is stored if the store takes the rows of its summaries,
-- whatever becomes of the merge graph, and then all these rows are written, the observations of the
-- merge graph if the store takes them, and the queue gets the entries that are due for the
-- contributors of the written rows. In all other cases nothing is written: the outcome is
-- `not_found` where the archive was missing, and `failed` where it was broken or the store refused
-- the rows.
pub process_hour_lem :
    (store : HourStore) (tenant_repos : String → Bool)
    (targets : List (String × List WatchlistEntry)) (at : Time)
    → ((evs : List Event)
        → let x = process_hour store tenant_repos targets at (streamed evs) in
          let rows = activity_rows (add_all (new_aggregator at) evs) in
          (store.batch_upsert_activity rows ≡ true
            → (x.1 ≡ stored) × IsWritten store tenant_repos at evs x.0)
          × (store.batch_upsert_activity rows ≡ false → x ≡ (no_rows, failed)))
      × (process_hour store tenant_repos targets at missing ≡ (no_rows, not_found))
      × (process_hour store tenant_repos targets at broken ≡ (no_rows, failed))
unfolding process_hour
process_hour_lem store tenant_repos targets at = (
  λ evs. (
    stored_hour store tenant_repos targets at evs,
    failed_hour store tenant_repos targets at evs,
  ),
  refl,
  refl,
)
