-- ===== src/Watchlist/Defs.antt =====
-- The tables of watchlists and of notification events (pkg/data/postgres/watchlist.go).
use devtrace.Base.Time.{Time}
use devtrace.Base.{Bool, String, Option, ℕ, List, ◌==◌, ◌&&◌, String_eq, any}

pub record Watchlist : Type 0 where
  pub id : String
  pub tenant_id : String
  pub target : String
  pub source : String
  pub notify_email : Bool
  pub created_at : Time

-- A value of the details of an event, as JSON decodes it; a number is its integer part.
pub data Detail : Type 0 where
  number : ℕ → Detail
  text : String → Detail
  texts : List (Option String) → Detail
  another : Detail

abbrev pub Details : Type 0
Details = List (String × Detail)

-- A row of devtrace_notification_event.
pub record EventRow : Type 0 where
  pub id : ℕ
  pub watchlist_id : String
  pub event_type : String
  pub username : String
  pub details : Details
  pub created_at : Time
  pub sent_at : Option Time

pub record Tables : Type 0 where
  pub watchlists : List Watchlist
  pub events : List EventRow

abbrev pub manual : String
manual = "manual"

abbrev pub implicit : String
implicit = "implicit"

abbrev pub belongs_to : String → Watchlist → Bool
belongs_to tenant_id w = w.tenant_id == tenant_id

abbrev pub is_named : String → Watchlist → Bool
is_named id w = w.id == id

-- `watchlist_id IN (SELECT id FROM devtrace_watchlist WHERE tenant_id = $1)`
abbrev pub is_event_of : List Watchlist → String → EventRow → Bool
is_event_of watchlists tenant_id e =
    any (λ w. is_named e.watchlist_id w && belongs_to tenant_id w) watchlists
