-- ===== src/Ingest/ProcessExamples.antt =====
-- The theorem on an hour at a concrete archive.
use devtrace.Ingest.Aggregator.{new_aggregator, add_all}
use devtrace.Ingest.Hours.{failed, not_found, stored}
use devtrace.Base.Time.{hour}
use devtrace.Ingest.Process.{
  broken, IsWritten, process_hour_lem, missing, no_rows, activity_rows, streamed, process_hour,
  HourStore,
}
use devtrace.Ingest.Events.{Event}
use devtrace.Base.{◌≡◌, ◌+◌, [], true, false, ◌*◌, List}

abbrev review : Event
review = record {
  event_type = "PullRequestReviewEvent";
  action = "created";
  actor = "ada";
  repo = "org/one";
  created_at = 5 * hour + 7;
  pr_number = 0;
}

-- The rows of the merge graph are refused.
abbrev hour_store : HourStore
hour_store = record {
  queue = record {
    contributor_exists = λ u. false;
    enqueue_for_scoring = λ q. true;
    insert_notification_event = λ ev. true;
  };
  batch_upsert_activity = λ rows. true;
  batch_upsert_pr_events = λ rows. false;
}

process_hour_lem_example :
    ((evs : List Event)
      → let x = process_hour hour_store (λ org. true) [] (5 * hour) (streamed evs) in
        let rows = activity_rows (add_all (new_aggregator (5 * hour)) evs) in
        (hour_store.batch_upsert_activity rows ≡ true
          → (x.1 ≡ stored) × IsWritten hour_store (λ org. true) (5 * hour) evs x.0)
        × (hour_store.batch_upsert_activity rows ≡ false → x ≡ (no_rows, failed)))
    × (process_hour hour_store (λ org. true) [] (5 * hour) missing ≡ (no_rows, not_found))
    × (process_hour hour_store (λ org. true) [] (5 * hour) broken ≡ (no_rows, failed))
process_hour_lem_example = process_hour_lem hour_store (λ org. true) [] (5 * hour)
