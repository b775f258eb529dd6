-- ===== src/Server/Events.antt =====
-- The activity table of the dashboard (pkg/server/handler_events.go). strconv.Atoi of the page, none for
-- an error or a negative number, the parsed time and the length of a text in bytes with its cut and its decimal digits are arguments.
use devtrace.Base.{
  none, map, ◌/◌, ltb, ◌*◌, ◌+◌, if◌then◌else◌, ◌-◌, max, Bool, some, List, Option, String, ℕ,
}
use devtrace.Tenant.Defs.{Tenant}
use devtrace.Watchlist.Defs.{Tables}
use devtrace.Watchlist.Events.{
  Texts, NotificationEvent, NotificationEventFilter, get_notification_events,
}
use devtrace.Watchlist.Summary.{repo_summary, repo_tooltip, detail_summary}
use devtrace.Base.Time.{Time}

abbrev pub events_per_page : ℕ
events_per_page = 10

abbrev pub max_filter_len : ℕ
max_filter_len = 64

-- The values of a query: the texts, what the page reads as, and what `since` reads as by RFC 3339 and
-- as a date.
pub record Query : Type 0 where
  pub contributor : String
  pub org : String
  pub repo : String
  pub since_rfc3339 : Option Time
  pub since_date : Option Time
  pub page : Option ℕ

abbrev pub first_time : Option Time → Option Time → Time
first_time (some t) u = t
first_time none (some u) = u
first_time none none = 0

abbrev pub page_or_first : Option ℕ → ℕ
page_or_first none = 1
page_or_first (some p) = if ltb 0 p then p else 1

-- `cut n` of a text is its first n bytes.
unfoldable pub parse_event_filter :
    (String → String) → (ℕ → String → String) → Query → NotificationEventFilter × ℕ
parse_event_filter trim cut q = (
  record {
    contributor = cut max_filter_len (trim q.contributor);
    org = cut max_filter_len (trim q.org);
    repo = cut max_filter_len (trim q.repo);
    since = first_time q.since_rfc3339 q.since_date;
  },
  page_or_first q.page,
)

pub record EventDto : Type 0 where
  pub event_type : String
  pub username : String
  pub target : String
  pub repo_summary : String
  pub repo_tooltip : String
  pub detail_summary : String
  pub created_at : Time

abbrev pub dto : (ℕ → String) → NotificationEvent → EventDto
dto decimal e = record {
  event_type = e.event_type;
  username = e.username;
  target = e.target;
  repo_summary = repo_summary decimal e;
  repo_tooltip = repo_tooltip e;
  detail_summary = detail_summary decimal e;
  created_at = e.created_at;
}

pub record EventsResponse : Type 0 where
  pub events : List EventDto
  pub page : ℕ
  pub total : ℕ
  pub total_pages : ℕ
  pub has_prev : Bool
  pub has_next : Bool

abbrev pub pages_of : ℕ → ℕ
pages_of total = max 1 ((total + events_per_page - 1) / events_per_page)

unfoldable pub fetch_events :
    Texts
    → (ℕ → String)
    → String
    → NotificationEventFilter
    → ℕ
    → Tables
    → EventsResponse × List NotificationEvent
fetch_events ops decimal tenant_id f page t =
    let found =
      get_notification_events ops tenant_id f events_per_page ((page - 1) * events_per_page) t in
    let total_pages = pages_of found.1 in
    (
      record {
        events = map (dto decimal) found.0;
        page = page;
        total = found.1;
        total_pages = total_pages;
        has_prev = ltb 1 page;
        has_next = ltb page total_pages;
      },
      found.0,
    )

pub data EventsReply : Type 0 where
  events_unauthorized events_failed : EventsReply
  events_found : EventsResponse → EventsReply

unfoldable pub dashboard_events_handler :
    Texts
    → (ℕ → String)
    → (ℕ → String → String)
    → Option Tenant
    → Query
    → Bool
    → Tables
    → EventsReply
dashboard_events_handler ops decimal cut none q can_read t = events_unauthorized
dashboard_events_handler ops decimal cut (some tn) q can_read t =
    let asked = parse_event_filter ops.trim cut q in
    if can_read
    then events_found (fetch_events ops decimal tn.id asked.0 asked.1 t).0
    else events_failed
