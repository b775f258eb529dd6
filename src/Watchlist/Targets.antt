-- ===== src/Watchlist/Targets.antt =====
-- The statements that join watchlists with tenants, activity and reputation
-- (pkg/data/postgres/watchlist.go). The id of a tenant is the id of one row.
use devtrace.Base.{
  false, true, ◌*◌, none, not, ◌-◌, ◌||◌, if◌then◌else◌, some, ◌++◌, String_eq, ◌&&◌, any, [], ◌∷◌,
  map, ◌==◌, String, Option, List, Bool,
}
use devtrace.Tenant.Defs.{Tenant}
use devtrace.Ingest.Notify.{WatchlistEntry, before_slash}
use devtrace.Watchlist.Defs.{Tables, Watchlist, EventRow, belongs_to, is_named}
use devtrace.Base.Rows.{filter}
use devtrace.Base.Time.{Time, after}
use devtrace.Base.Maps.{get, put}
use devtrace.Ingest.Maintenance.{ActiveTenant, day}

abbrev pub is_active : Tenant → Bool
is_active tn = tn.status == "active"

unfoldable pub list_active_tenants : List Tenant → List ActiveTenant
list_active_tenants tenants =
    map (λ (tn : Tenant). record { id = tn.id; plan = tn.plan }) (filter is_active tenants)

abbrev pub entry : Watchlist → Tenant → WatchlistEntry
entry w tn = record {
  id = w.id;
  tenant_id = w.tenant_id;
  target = w.target;
  source = w.source;
  plan = tn.plan;
}

-- The active tenants of a watchlist, one at most.
abbrev pub entries_of : List Tenant → Watchlist → List WatchlistEntry
entries_of tenants w =
    map (entry w) (filter (λ (tn : Tenant). tn.id == w.tenant_id && is_active tn) tenants)

abbrev pub all_entries : List Tenant → List Watchlist → List WatchlistEntry
all_entries tenants [] = []
all_entries tenants (w ∷ ws) = entries_of tenants w ++ all_entries tenants ws

abbrev pub or_empty : Option (List WatchlistEntry) → List WatchlistEntry
or_empty none = []
or_empty (some es) = es

-- `result[e.Target] = append(result[e.Target], e)`
abbrev pub grouped :
    List WatchlistEntry → List (String × List WatchlistEntry) → List (String × List WatchlistEntry)
grouped [] m = m
grouped (e ∷ es) m = grouped es (put m e.target (or_empty (get m e.target) ++ e ∷ []))

unfoldable pub get_all_watchlist_targets :
    List Tenant → Tables → List (String × List WatchlistEntry)
get_all_watchlist_targets tenants t = grouped (all_entries tenants t.watchlists) []

-- A row of devtrace_reputation.
pub record Reputation : Type 0 where
  pub username : String
  pub provider : String
  pub grade : String

-- The grade, or "" if there is no row.
unfoldable pub get_current_grade : String → String → List Reputation → String
get_current_grade username provider [] = ""
get_current_grade username provider (r ∷ rows) =
    let rest = get_current_grade username provider rows in
    if r.username == username && r.provider == provider then r.grade else rest

-- A row of devtrace_contributor_activity.
pub record Activity : Type 0 where
  pub username : String
  pub provider : String
  pub hour : Time
  pub repos : List String

-- split_part(r, '/', 1)
abbrev pub first_part : String → String
first_part repo = elim (before_slash repo) [ none ↦ repo | some o ↦ o ]

abbrev pub is_about : String → String → Bool
is_about target repo = repo == target || first_part repo == target

abbrev pub is_recent_activity : String → String → Time → Activity → Bool
is_recent_activity username provider now a =
    a.username == username && a.provider == provider && after a.hour (now - 90 * day)

abbrev pub touches : String → String → Time → List Activity → Watchlist → Bool
touches username provider now rows w =
    any (λ a. is_recent_activity username provider now a && any (is_about w.target) a.repos) rows

unfoldable pub get_watchlists_for_contributor :
    String → String → Time → List Activity → List Tenant → Tables → List WatchlistEntry
get_watchlists_for_contributor username provider now rows tenants t =
    all_entries tenants (filter (touches username provider now rows) t.watchlists)

-- postgres.DigestTarget; `Ingest.Digest` reads its tenant's id as bytes.
pub record DigestTarget : Type 0 where
  pub tenant_id : String
  pub email : String
  pub username : String
  pub plan : String

abbrev pub waits_for : Watchlist → EventRow → Bool
waits_for w e = is_named e.watchlist_id w && elim e.sent_at [ none ↦ true | some s ↦ false ]

-- A watchlist of the tenant with its mail on and an unsent event.
abbrev pub has_mail : Tables → String → Bool
has_mail t tenant_id =
    any (λ w. belongs_to tenant_id w && w.notify_email && any (waits_for w) t.events) t.watchlists

unfoldable pub get_tenants_with_unsent_events : List Tenant → Tables → List DigestTarget
get_tenants_with_unsent_events tenants t =
    map
      (λ (tn : Tenant). record {
        tenant_id = tn.id;
        email = tn.email;
        username = tn.username;
        plan = tn.plan;
      })
      (filter (λ tn. is_active tn && not (tn.email == "") && has_mail t tn.id) tenants)
