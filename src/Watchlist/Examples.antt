-- ===== src/Watchlist/Examples.antt =====
-- Tests of the tables of watchlists and events, and the theorems at concrete inputs.
use devtrace.Base.{
  false, ◌*◌, ◌-◌, none, ◌≤◌, some, ◌<◌, refl, [], String, List, not, ◌≡◌, map, ◌∷◌, ℕ, true,
}
use devtrace.Watchlist.Defs.{Tables, Watchlist, EventRow, Detail}
use devtrace.Watchlist.Store.{delete_watchlist}
use devtrace.Watchlist.Events.{
  joined, prune_notification_events, get_unsent_events_for_digest, mark_all_events_sent,
  unsent_event_count, NotificationEvent,
}
use devtrace.Watchlist.Summary.{event_type_new_contributor}
use devtrace.Watchlist.Prune.{prune_notification_events-newest, own}
use devtrace.Watchlist.PruneBounds.{KeepsNewest}
use devtrace.Watchlist.Isolation.{
  Call, create, delete, toggle_email, disable_emails, perform_all, perform_all-view, view,
}
use devtrace.Base.Rows.{filter, count, All}
use devtrace.Base.Order.{sort_stable}
use devtrace.Base.Time.{before}
use devtrace.Ingest.Maintenance.{day}

abbrev pub kube : Watchlist
kube = record {
  id = "w1";
  tenant_id = "t1";
  target = "kubernetes";
  source = "manual";
  notify_email = true;
  created_at = 1;
}

abbrev pub golang : Watchlist
golang = record {
  id = "w2";
  tenant_id = "t2";
  target = "golang";
  source = "manual";
  notify_email = true;
  created_at = 2;
}

abbrev pub opened_prs : ℕ → String → ℕ → EventRow
opened_prs id watchlist_id time = record {
  id = id;
  watchlist_id = watchlist_id;
  event_type = event_type_new_contributor;
  username = "grace";
  details =
      ("prs_opened", Detail.number 2)
      ∷ ("reviews_given", Detail.number 1)
      ∷ ("repos", Detail.texts (some "kubernetes/kubectl" ∷ some "kubernetes/test" ∷ []))
      ∷ [];
  created_at = time;
  sent_at = none;
}

abbrev pub two_tenants : Tables
two_tenants = record {
  watchlists = kube ∷ golang ∷ [];
  events = opened_prs 1 "w1" 10 ∷ opened_prs 2 "w2" 20 ∷ opened_prs 3 "w1" 30 ∷ [];
}

newest_first :
    map (λ (e : NotificationEvent). e.id) (get_unsent_events_for_digest "t1" 5 two_tenants)
    ≡ 3 ∷ 1 ∷ []
unfolding get_unsent_events_for_digest sort_stable filter joined
newest_first = refl

nothing_unsent : unsent_event_count "t1" (mark_all_events_sent "t1" 40 two_tenants) ≡ 0
unfolding unsent_event_count mark_all_events_sent count filter joined
nothing_unsent = refl

others_unsent : unsent_event_count "t2" (mark_all_events_sent "t1" 40 two_tenants) ≡ 1
unfolding unsent_event_count mark_all_events_sent count filter joined
others_unsent = refl

cascades : (delete_watchlist "w1" "t1" two_tenants).0.events ≡ opened_prs 2 "w2" 20 ∷ []
unfolding delete_watchlist filter
cascades = refl

prune_notification_events-newest_example :
    KeepsNewest two_tenants.watchlists "t1" two_tenants.events
      (prune_notification_events "t1" 30 1 100 two_tenants).0.events
    × (filter
          (λ e. not (own two_tenants "t1" e))
          (prune_notification_events "t1" 30 1 100 two_tenants).0.events
        ≡ filter (λ e. not (own two_tenants "t1" e)) two_tenants.events)
    × (0 < 1
        → count
            (own two_tenants "t1")
            (prune_notification_events "t1" 30 1 100 two_tenants).0.events
          ≤ 1)
    × (0 < 30
        → All
            (λ e. before e.created_at (100 - 30 * day) ≡ false)
            (filter
              (own two_tenants "t1")
              (prune_notification_events "t1" 30 1 100 two_tenants).0.events))
prune_notification_events-newest_example =
    prune_notification_events-newest "t1" 30 1 100 two_tenants (
      ((λ e. refl), ((λ e. cc), ((λ e. cc), tt))),
      (
        ((λ e. cc), ((λ e. refl), ((λ e. cc), tt))),
        (((λ e. cc), ((λ e. cc), ((λ e. refl), tt))), tt),
      ),
    )

abbrev meddling : List (String × Call)
meddling =
    ("t2", delete "w1")
    ∷ ("t3", create "w3" 50 "kubernetes" "manual")
    ∷ ("t2", toggle_email "w1")
    ∷ ("t2", disable_emails)
    ∷ []

perform_all-view_example : view "t1" (perform_all meddling two_tenants) ≡ view "t1" two_tenants
perform_all-view_example =
    perform_all-view "t1" meddling two_tenants (refl, (refl, (refl, (refl, tt))))
