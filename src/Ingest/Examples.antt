-- ===== src/Ingest/Examples.antt =====
-- Tests of the ingest, and its theorems at concrete hours and events.
use devtrace.Plan.Defs.{get_plan, plan_or_free}
use devtrace.Ingest.Queueing.{
  touches_tenant, select, due_entries, queue_contributors_lem, targets_of, queue_contributors,
  IngestStore,
}
use devtrace.Ingest.NotifyExact.{ids, AllOnce}
use devtrace.Ingest.NotifyLaws.{notify_watchlists-due, IsDue, notify_watchlists-AllOnce}
use devtrace.Ingest.Notify.{
  event_for, write_new_contributor_event, notify_one, notify_targets, notify_repos, is_notified,
  build_event_details, owner, notify_watchlists, NotificationEvent, WatchlistEntry,
}
use devtrace.Ingest.Schedule.{LaterRun}
use devtrace.Bot.{is_bot}
use devtrace.Ingest.Hours.{stored, failed, Outcome, descend, ascend, backfill_hours, compute_hours}
use devtrace.Base.Time.{hour, Time}
use devtrace.Ingest.MergeGraph.{first_observation}
use devtrace.Base.Maps.{put, get}
use devtrace.Ingest.Totals.{tally_exact, events_by, tally}
use devtrace.Ingest.Counters.{reviews_given, prs_opened}
use devtrace.Ingest.Aggregator.{count_event, credit, add, add_all, observation, new_aggregator}
use devtrace.Ingest.Events.{Summary, PrEventKey_eq, PrEventKey}
use devtrace.Ingest.Events.{PrEventKey_eq, Event}
use devtrace.Base.{
  none, false, inl, String_eq, true, ◌==◌, Bool, String, length, nat_eq, refl, ◌+◌, some,
  if◌then◌else◌, [], ◌≡◌, ◌∷◌, ◌*◌, get_elem?, List,
}

abbrev opened : Event
opened = record {
  event_type = "PullRequestEvent";
  action = "opened";
  actor = "ada";
  repo = "o/r";
  created_at = 5 * hour + 7;
  pr_number = 12;
}

abbrev merged : Event
merged = record opened { action = "merged"; actor = "mergify[bot]"; created_at = 5 * hour + 9 }

abbrev reviewed : Event
reviewed = record opened {
  event_type = "PullRequestReviewEvent";
  action = "created";
  pr_number = 0;
}

abbrev hour_events : List Event
hour_events = opened ∷ merged ∷ reviewed ∷ record opened { actor = "eve" } ∷ []

abbrev opened_key : PrEventKey
opened_key = record { repo = "o/r"; number = 12; action = "opened" }

counted_reviews : tally reviews_given "ada" (add_all (new_aggregator (5 * hour)) hour_events) ≡ 1
unfolding new_aggregator get add_all add credit count_event is_bot put
counted_reviews = refl

tally_exact_example :
    let a = add_all (new_aggregator (5 * hour)) hour_events in
    (is_bot "ada" ≡ false → tally prs_opened "ada" a ≡ events_by prs_opened "ada" hour_events)
    × (is_bot "ada" ≡ true → get a.summaries "ada" ≡ none)
tally_exact_example = tally_exact prs_opened "ada" (5 * hour) hour_events

first_is_opened : first_observation opened_key hour_events ≡ some (observation opened)
unfolding first_observation is_bot
first_is_opened = refl

abbrev now : Time
now = 100 * hour + 17

caught_up : compute_hours now (95 * hour) 6 24 ≡ 96 * hour ∷ 97 * hour ∷ 98 * hour ∷ []
unfolding compute_hours ascend
caught_up = refl

third : get_elem? (backfill_hours now 1 0) 2 ≡ some (97 * hour)
unfolding backfill_hours descend
third = refl

abbrev flaky : Time → Outcome
flaky t = if nat_eq t (96 * hour) then failed else stored

-- The run after the failure, and one that finds nothing.
abbrev next_runs : List LaterRun
next_runs =
    record { clock = 200 * hour; process = flaky; lookback = 6; catchup_max = 24 }
    ∷ record { clock = 201 * hour; process = λ t. failed; lookback = 6; catchup_max = 24 }
    ∷ []

abbrev five : List Time
five = 9 * hour ∷ 8 * hour ∷ 7 * hour ∷ 6 * hour ∷ 5 * hour ∷ []

abbrev ada : Summary
ada = record {
  username = "ada";
  prs_opened = 1;
  prs_merged = 0;
  prs_closed = 0;
  reviews_given = 2;
  issue_comments = 1;
  issues_opened = 0;
  issues_closed = 0;
  repos = "org/one" ∷ "org/two" ∷ [];
}

abbrev watch : WatchlistEntry
watch = record { id = "w1"; tenant_id = "t1"; target = "org"; source = "user"; plan = "starter" }

abbrev accept : NotificationEvent → Bool
accept ev = true

abbrev watched : List (String × List WatchlistEntry)
watched = ("org", watch ∷ []) ∷ ("org/two", watch ∷ []) ∷ []

-- Both repos and the organisation match; a reviewer's comments are out of Starter's scope.
notified_once :
    notify_watchlists accept (targets_of watched) ada
    ≡ event_for watch ada (record {
      counts =
          ("prs_opened", 1) ∷ ("prs_merged", 0) ∷ ("prs_closed", 0) ∷ ("reviews_given", 2) ∷ [];
      repos = ada.repos;
    })
      ∷ []
unfolding notify_watchlists notify_repos notify_targets notify_one write_new_contributor_event
    build_event_details plan_or_free get_plan owner get
notified_once = refl

notify_watchlists-AllOnce_example :
    AllOnce (ids (notify_watchlists accept (targets_of watched) ada))
notify_watchlists-AllOnce_example = notify_watchlists-AllOnce accept (targets_of watched) ada

owner_of_two : owner "org/two" ≡ "org"
unfolding owner
owner_of_two = refl

watched_org : targets_of watched (owner "org/two") ≡ watch ∷ []
unfolding owner get
watched_org = refl

watch-IsDue : IsDue accept watch ada
unfolding build_event_details plan_or_free get_plan
watch-IsDue = (_, refl, refl)

notify_watchlists-due_example :
    is_notified watch.id (ids (notify_watchlists accept (targets_of watched) ada)) ≡ true
notify_watchlists-due_example =
    notify_watchlists-due accept (targets_of watched) ada "org/two" watch 1 0 refl
      (inl (rw watched_org refl)) watch-IsDue

abbrev open_store : IngestStore
open_store = record {
  contributor_exists = λ u. u == "eve";
  enqueue_for_scoring = λ q. true;
  insert_notification_event = accept;
}

abbrev tenants : String → Bool
tenants org = org == "org"

abbrev elsewhere : Summary
elsewhere = record ada { username = "bob"; repos = "other/one" ∷ [] }

queued_entries :
    (queue_contributors open_store tenants watched
      (ada ∷ elsewhere ∷ record ada { username = "eve" } ∷ [])).enqueued
    ≡ record { username = "ada"; provider = "github"; priority = 1 }
      ∷ record { username = "eve"; provider = "github"; priority = 3 }
      ∷ []
unfolding queue_contributors owner
queued_entries = (queue_contributors_lem open_store tenants watched _).0

queue_contributors_lem_example :
    let r = queue_contributors open_store tenants watched (ada ∷ elsewhere ∷ []) in
    (r.enqueued ≡ due_entries open_store tenants (ada ∷ elsewhere ∷ []))
    × (r.result.queued ≡ length (due_entries open_store tenants (ada ∷ elsewhere ∷ [])))
    × (r.result.skipped_non_tenant + length (select (touches_tenant tenants) (ada ∷ elsewhere ∷ []))
        ≡ length (ada ∷ elsewhere ∷ []))
queue_contributors_lem_example =
    queue_contributors_lem open_store tenants watched (ada ∷ elsewhere ∷ [])
