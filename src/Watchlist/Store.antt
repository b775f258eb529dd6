-- ===== src/Watchlist/Store.antt =====
-- The statements on the table of watchlists (pkg/data/postgres/watchlist.go). The id and the time of a
-- new row, which the database makes, are arguments. An error of the database is no case here: it
-- leaves the tables as they are.
use devtrace.Watchlist.Defs.{Tables, Watchlist, EventRow, is_named, belongs_to, manual, implicit}
use devtrace.Base.Rows.{filter, count}
use devtrace.Base.Order.{sort_stable}
use devtrace.Base.Time.{Time}
use devtrace.Base.{
  Bool, not, any, map, true, false, ◌&&◌, ◌||◌, ◌==◌, String_eq, if◌then◌else◌, String, ℕ, List, [],
  ◌∷◌, ltb, ◌++◌,
}

-- `ON CONFLICT (tenant_id, target) DO NOTHING`
abbrev pub conflicts : String → String → Watchlist → Bool
conflicts tenant_id target w = w.tenant_id == tenant_id && w.target == target

unfoldable pub create_watchlist : String → Time → String → String → String → Tables → Tables
create_watchlist id now tenant_id target source t =
    if any (conflicts tenant_id target) t.watchlists then t else record t {
      watchlists =
          t.watchlists
          ++ record {
            id = id;
            tenant_id = tenant_id;
            target = target;
            source = source;
            notify_email = true;
            created_at = now;
          }
            ∷ [];
    }

-- `WHERE id = $1 AND tenant_id = $2 AND source = 'manual'`
abbrev pub is_deletable : String → String → Watchlist → Bool
is_deletable id tenant_id w = is_named id w && belongs_to tenant_id w && w.source == manual

abbrev pub is_left : List Watchlist → EventRow → Bool
is_left watchlists e = any (is_named e.watchlist_id) watchlists

-- The tables and whether a row was deleted; if none was, an error is returned. The events of a
-- deleted watchlist go with it (ON DELETE CASCADE).
unfoldable pub delete_watchlist : String → String → Tables → Tables × Bool
delete_watchlist id tenant_id t =
    let kept = filter (λ w. not (is_deletable id tenant_id w)) t.watchlists in
    if any (is_deletable id tenant_id) t.watchlists
    then (record { watchlists = kept; events = filter (is_left kept) t.events }, true)
    else (t, false)

abbrev pub toggled : String → String → Watchlist → Watchlist
toggled id tenant_id w =
    if is_named id w && belongs_to tenant_id w
    then record w { notify_email = not w.notify_email }
    else w

unfoldable pub toggle_watchlist_email : String → String → Tables → Tables
toggle_watchlist_email id tenant_id t = record t {
  watchlists = map (toggled id tenant_id) t.watchlists;
}

abbrev pub silenced : String → Watchlist → Watchlist
silenced tenant_id w = if belongs_to tenant_id w then record w { notify_email = false } else w

unfoldable pub disable_watchlist_emails : String → Tables → Tables
disable_watchlist_emails tenant_id t = record t {
  watchlists = map (silenced tenant_id) t.watchlists;
}

unfoldable pub ensure_implicit_watchlist : String → Time → String → String → Tables → Tables
unfolding create_watchlist
ensure_implicit_watchlist id now tenant_id target_login t =
    create_watchlist id now tenant_id target_login implicit t

abbrev pub is_manual_of : String → Watchlist → Bool
is_manual_of tenant_id w = belongs_to tenant_id w && w.source == manual

unfoldable pub watchlist_manual_count : String → Tables → ℕ
watchlist_manual_count tenant_id t = count (is_manual_of tenant_id) t.watchlists

-- `ORDER BY source ASC, created_at ASC`; the order of texts is an argument.
abbrev pub listed_before : (String → String → Bool) → Watchlist → Watchlist → Bool
listed_before less v w =
    less v.source w.source || v.source == w.source && ltb v.created_at w.created_at

unfoldable pub list_watchlists : (String → String → Bool) → String → Tables → List Watchlist
list_watchlists less tenant_id t =
    sort_stable (listed_before less) (filter (belongs_to tenant_id) t.watchlists)
