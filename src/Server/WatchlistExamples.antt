-- ===== src/Server/WatchlistExamples.antt =====
-- Tests of the handlers of watchlists and of the activity table, and the theorems at concrete inputs.
use devtrace.Base.Order.{sort_stable}
use devtrace.Base.{
  ◌≢◌, not, any, [], max, refl, String_eq, ◌∷◌, Bool, ◌≤◌, false, ℕ, ◌==◌, true, String, some, ◌≡◌,
}
use devtrace.Tenant.Defs.{Tenant}
use devtrace.Plan.Defs.{plan_or_free}
use devtrace.Watchlist.Store.{watchlist_manual_count, conflicts}
use devtrace.Watchlist.Events.{is_newer, Texts, NotificationEventFilter}
use devtrace.Watchlist.Targets.{DigestTarget, get_tenants_with_unsent_events}
use devtrace.Watchlist.Examples.{two_tenants}
use devtrace.Server.Samples.{free_tenant}
use devtrace.Server.Watchlists.{
  is_target, add_watchlist_handler, digest_unsubscribe_handler, unsubscribed, to_settings,
}
use devtrace.Server.WatchlistLaws.{
  add_watchlist_handler-limit, digest_unsubscribe_handler-targets, IsUnique,
}
use devtrace.Base.Rows.{filter}

targets :
    (is_target "kubernetes/kubectl" ≡ true)
    × (is_target "a" ≡ true)
    × (is_target "kubernetes-" ≡ false)
    × (is_target "a/" ≡ false)
    × (is_target "a/b/c" ≡ false)
    × (is_target "" ≡ false)
unfolding is_target
targets = (refl, refl, refl, refl, refl, refl)

add_watchlist_handler-limit_example :
    (watchlist_manual_count "t1"
        (add_watchlist_handler (some free_tenant) "golang" "w3" 9 true true two_tenants).1
      ≤ max (plan_or_free "free").max_watchlists (watchlist_manual_count "t1" two_tenants))
    × IsUnique
        (add_watchlist_handler
          (some free_tenant)
          "golang"
          "w3"
          9
          true
          true
          two_tenants).1.watchlists
    × ((add_watchlist_handler (some free_tenant) "golang" "w3" 9 true true two_tenants).0
          ≡ to_settings "watchlist_added"
        → (is_target "golang" ≡ true)
          × (any
                (conflicts "t1" "golang")
                (add_watchlist_handler
                  (some free_tenant)
                  "golang"
                  "w3"
                  9
                  true
                  true
                  two_tenants).1.watchlists
              ≡ true))
add_watchlist_handler-limit_example =
    add_watchlist_handler-limit free_tenant "golang" "w3" 9 true true two_tenants (refl, (refl, tt))

abbrev mailed : Tenant
mailed = record free_tenant { email = "ada@example.org" }

abbrev is_t1 : String → String → String → Bool
is_t1 secret tenant_id token = token == "ok"

digest_unsubscribe_handler-targets_example :
    ((digest_unsubscribe_handler is_t1 "s" "t1" "ok" true two_tenants).0 ≡ unsubscribed
      → (is_t1 "s" "t1" "ok" ≡ true)
        × (get_tenants_with_unsent_events
              (mailed ∷ [])
              (digest_unsubscribe_handler is_t1 "s" "t1" "ok" true two_tenants).1
            ≡ filter
                (λ (d : DigestTarget). not (d.tenant_id == "t1"))
                (get_tenants_with_unsent_events (mailed ∷ []) two_tenants)))
    × ((digest_unsubscribe_handler is_t1 "s" "t1" "ok" true two_tenants).0 ≢ unsubscribed
        → (digest_unsubscribe_handler is_t1 "s" "t1" "ok" true two_tenants).1 ≡ two_tenants)
digest_unsubscribe_handler-targets_example =
    digest_unsubscribe_handler-targets is_t1 "s" "t1" "ok" true (mailed ∷ []) two_tenants

-- Texts as they are, where only equal texts are alike, and rows of the same time in the order of the
-- table.
abbrev plain : Texts
plain = record {
  trim = λ s. s;
  to_lower = λ s. s;
  is_like = λ p s. p == s;
  newest_first = λ offset es. sort_stable is_newer es;
}

abbrev everything : NotificationEventFilter
everything = record { contributor = ""; org = ""; repo = ""; since = 0 }

abbrev digits : ℕ → String
digits n = "2"
