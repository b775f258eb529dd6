-- ===== src/Watchlist/Events.antt =====
-- The statements on notification events (pkg/data/postgres/watchlist.go). The serial id and the time of a
-- new row, and the functions on texts, are arguments. Which of two rows of the same time
-- comes first is left open for the pages of events, and is the order of the table elsewhere.
--mod Laws
use devtrace.Base.Maps.{get}
use devtrace.Base.{
  ◌+◌, ◌*◌, false, String_eq, ◌-◌, ltb, true, nat_eq, ◌||◌, ◌&&◌, if◌then◌else◌, any, drop, not,
  none, some, map, take, length, ◌==◌, [], ◌∷◌, ◌++◌, Bool, Option, String, List, ℕ,
}
use devtrace.Watchlist.Defs.{
  Tables, Watchlist, EventRow, Details, Detail, is_named, belongs_to, is_event_of,
}
use devtrace.Ingest.Maintenance.{day}
use devtrace.Base.Rows.{filter, count}
use devtrace.Base.Order.{sort_stable}
use devtrace.Base.Time.{Time, before, after, is_zero}

-- postgres.NotificationEvent.
pub record NotificationEvent : Type 0 where
  pub id : ℕ
  pub event_type : String
  pub username : String
  pub target : String
  pub details : Details
  pub created_at : Time
  pub sent_at : Option Time

unfoldable pub insert_notification_event :
    ℕ → Time → String → String → String → Details → Tables → Tables
insert_notification_event id now watchlist_id event_type username details t = record t {
  events =
      t.events
      ++ record {
        id = id;
        watchlist_id = watchlist_id;
        event_type = event_type;
        username = username;
        details = details;
        created_at = now;
        sent_at = none;
      }
        ∷ [];
}

abbrev pub display : EventRow → Watchlist → NotificationEvent
display e w = record {
  id = e.id;
  event_type = e.event_type;
  username = e.username;
  target = w.target;
  details = e.details;
  created_at = e.created_at;
  sent_at = e.sent_at;
}

-- `devtrace_notification_event ne JOIN devtrace_watchlist w ON w.id = ne.watchlist_id` with
-- `w.tenant_id = $1`.
unfoldable pub joined : List Watchlist → String → List EventRow → List NotificationEvent
joined watchlists tenant_id [] = []
joined watchlists tenant_id (e ∷ es) =
    map (display e) (filter (λ w. is_named e.watchlist_id w && belongs_to tenant_id w) watchlists)
    ++ joined watchlists tenant_id es

-- strings.TrimSpace, strings.ToLower and LOWER, `$2` in `LIKE '%' || $1 || '%'` of `$2`, and the
-- order in which the query at an offset lists its rows under `ORDER BY ne.created_at DESC`.
pub record Texts : Type 0 where
  pub trim : String → String
  pub to_lower : String → String
  pub is_like : String → String → Bool
  pub newest_first : ℕ → List NotificationEvent → List NotificationEvent

pub record NotificationEventFilter : Type 0 where
  pub contributor : String
  pub org : String
  pub repo : String
  pub since : Time

abbrev pub texts_of : List (Option String) → List String
texts_of [] = []
texts_of (none ∷ items) = texts_of items
texts_of (some s ∷ items) = s ∷ texts_of items

abbrev pub items_of : Option Detail → List String
items_of none = []
items_of (some (Detail.texts items)) = texts_of items
items_of (some (Detail.number n)) = []
items_of (some (Detail.text s)) = []
items_of (some Detail.another) = []

abbrev pub admits : Texts → String → List String → Bool
admits ops asked values =
    let pattern = ops.to_lower (ops.trim asked) in
    pattern == "" || any (λ v. ops.is_like pattern (ops.to_lower v)) values

-- The filter clause.
unfoldable pub passes : Texts → NotificationEventFilter → NotificationEvent → Bool
passes ops f e =
    admits ops f.contributor (e.username ∷ [])
    && admits ops f.org (e.target ∷ [])
    && admits ops f.repo (items_of (get e.details "repos"))
    && (is_zero f.since || not (before e.created_at f.since))

abbrev pub is_newer : NotificationEvent → NotificationEvent → Bool
is_newer d e = after d.created_at e.created_at

-- The rows of the filter clause, in the order of the table.
unfoldable pub matching : Texts → String → NotificationEventFilter → Tables → List NotificationEvent
matching ops tenant_id f t = filter (passes ops f) (joined t.watchlists tenant_id t.events)

-- The page and the total.
unfoldable pub get_notification_events :
    Texts → String → NotificationEventFilter → ℕ → ℕ → Tables → List NotificationEvent × ℕ
get_notification_events ops tenant_id f limit offset t =
    let total = length (matching ops tenant_id f t) in
    if nat_eq total 0
    then ([], 0)
    else (take limit (drop offset (ops.newest_first offset (matching ops tenant_id f t))), total)

abbrev pub is_unsent : NotificationEvent → Bool
is_unsent e = elim e.sent_at [ none ↦ true | some s ↦ false ]

unfoldable pub get_unsent_events_for_digest : String → ℕ → Tables → List NotificationEvent
get_unsent_events_for_digest tenant_id limit t =
    take limit (sort_stable is_newer (filter is_unsent (joined t.watchlists tenant_id t.events)))

unfoldable pub unsent_event_count : String → Tables → ℕ
unsent_event_count tenant_id t = count is_unsent (joined t.watchlists tenant_id t.events)

abbrev pub marked_sent : List Watchlist → String → Time → EventRow → EventRow
marked_sent watchlists tenant_id now e = elim e.sent_at [
  | none ↦ if is_event_of watchlists tenant_id e then record e { sent_at = some now } else e
  | some s ↦ e
]

unfoldable pub mark_all_events_sent : String → Time → Tables → Tables
mark_all_events_sent tenant_id now t = record t {
  events = map (marked_sent t.watchlists tenant_id now) t.events;
}

abbrev pub later_of : Option Time → Option Time → Option Time
later_of none t = t
later_of (some s) none = some s
later_of (some s) (some t) = if after t s then some t else some s

abbrev pub latest : List NotificationEvent → Option Time
latest [] = none
latest (e ∷ es) = later_of e.sent_at (latest es)

unfoldable pub last_digest_sent_at : String → Tables → Option Time
last_digest_sent_at tenant_id t = latest (joined t.watchlists tenant_id t.events)

-- The rows that the age pass keeps: `created_at < NOW() - $2 * INTERVAL '1 day'` goes.
abbrev pub is_fresh : List Watchlist → String → ℕ → Time → EventRow → Bool
is_fresh watchlists tenant_id retention_days now e =
    not (is_event_of watchlists tenant_id e && before e.created_at (now - retention_days * day))

abbrev pub is_newer_row : EventRow → EventRow → Bool
is_newer_row d e = after d.created_at e.created_at

-- `ORDER BY ne.created_at DESC OFFSET $2`
abbrev pub beyond : List Watchlist → String → ℕ → List EventRow → List EventRow
beyond watchlists tenant_id max_events events =
    drop max_events (sort_stable is_newer_row (filter (is_event_of watchlists tenant_id) events))

abbrev pub has_row : List EventRow → EventRow → Bool
has_row rows e = any (λ r. nat_eq r.id e.id) rows

unfoldable pub prune_by_age : String → ℕ → Time → Tables → Tables
prune_by_age tenant_id retention_days now t =
    if ltb 0 retention_days
    then record t { events = filter (is_fresh t.watchlists tenant_id retention_days now) t.events }
    else t

unfoldable pub prune_by_cap : String → ℕ → Tables → Tables
prune_by_cap tenant_id max_events t =
    let gone = beyond t.watchlists tenant_id max_events t.events in
    if ltb 0 max_events
    then record t { events = filter (λ e. not (has_row gone e)) t.events }
    else t

-- The tables and how many rows were deleted; a number of days or a cap of 0 or less skips its pass.
unfoldable pub prune_notification_events : String → ℕ → ℕ → Time → Tables → Tables × ℕ
unfolding prune_by_age prune_by_cap
prune_notification_events tenant_id retention_days max_events now t =
    let aged = prune_by_age tenant_id retention_days now t in
    let capped = prune_by_cap tenant_id max_events aged in
    (capped, (length t.events - length aged.events) + (length aged.events - length capped.events))
