-- ===== src/Server/WatchlistLaws.antt =====
-- What the handlers of watchlists keep (pkg/server/handler_watchlist.go, pkg/data/postgres/watchlist.go).
use devtrace.Base.{
  String_eq, ◌&&◌, ap, not, map, ◌==◌, ◌≢◌, ◌<◌, leb, max, inr, refl, eq_iff, ◌||◌, some, true, ◌+◌,
  inl, arith, ◌++◌, [], Bool, ◌≤◌, Bool-cases, false, any, ◌∷◌, ◌≡◌, String, List,
}
use devtrace.Plan.Defs.{plan_or_free}
use devtrace.Tenant.Defs.{Tenant}
use devtrace.Watchlist.Defs.{Tables, Watchlist, EventRow, manual}
use devtrace.Watchlist.Store.{
  create_watchlist, disable_watchlist_emails, watchlist_manual_count, conflicts, is_manual_of,
  silenced,
}
use devtrace.Watchlist.Targets.{DigestTarget, get_tenants_with_unsent_events, has_mail}
use devtrace.Server.Watchlists.{
  to_sign_in, refuses, Answer, add_watchlist_handler, digest_unsubscribe_handler, is_target,
  to_settings, unsubscribed,
}
use devtrace.Base.Rows.{count-append, count-le-length, filter}
use devtrace.Base.Time.{Time}

-- No two watchlists of a tenant have one target.
abbrev pub IsUnique : List Watchlist → Type 0
IsUnique [] = Unit
IsUnique (w ∷ ws) = (any (conflicts w.tenant_id w.target) ws ≡ false) × IsUnique ws

any-append :
    (a target : String) (ws vs : List Watchlist)
    → any (conflicts a target) (ws ++ vs)
      ≡ (any (conflicts a target) ws || any (conflicts a target) vs)
any-append a target [] vs = refl
any-append a target (w ∷ ws) vs = ground (arith, any-append a target ws vs)

conflicts_sym :
    (v w : Watchlist)
    → conflicts v.tenant_id v.target w ≡ false
    → conflicts w.tenant_id w.target v ≡ false
conflicts_sym v w h = ground (
  arith,
  eq_iff v.tenant_id w.tenant_id,
  eq_iff w.tenant_id v.tenant_id,
  eq_iff v.target w.target,
  eq_iff w.target v.target,
)

IsUnique-snoc :
    (ws : List Watchlist) (v : Watchlist)
    → IsUnique ws
    → any (conflicts v.tenant_id v.target) ws ≡ false
    → IsUnique (ws ++ v ∷ [])
IsUnique-snoc [] v u free = (refl, tt)
IsUnique-snoc (w ∷ ws) v u free =
    let apart = conflicts_sym v w (ground (arith, free)) in
    (
      rw (any-append w.tenant_id w.target ws (v ∷ [])) (rw u.0 (rw apart refl)),
      IsUnique-snoc ws v u.1 (ground (arith, free)),
    )

after_create-IsUnique :
    (id tenant_id target source : String) (now : Time) (t : Tables)
    → IsUnique t.watchlists
    → IsUnique (create_watchlist id now tenant_id target source t).watchlists
unfolding create_watchlist
after_create-IsUnique id tenant_id target source now t u =
    elim (Bool-cases (any (conflicts tenant_id target) t.watchlists)) [
      | inl clash ↦ rw clash u
      | inr free ↦ rw free (IsUnique-snoc t.watchlists _ u free)
    ]

after_create-count :
    (id tenant_id target source : String) (now : Time) (t : Tables)
    → watchlist_manual_count tenant_id (create_watchlist id now tenant_id target source t)
      ≤ watchlist_manual_count tenant_id t + 1
unfolding create_watchlist watchlist_manual_count
after_create-count id tenant_id target source now t =
    elim (Bool-cases (any (conflicts tenant_id target) t.watchlists)) [
      | inl clash ↦ rw clash (omega arith)
      | inr free ↦
          let w : Watchlist = record {
            id = id;
            tenant_id = tenant_id;
            target = target;
            source = source;
            notify_email = true;
            created_at = now;
          } in
          let few = count-le-length (is_manual_of tenant_id) (w ∷ []) in
          rw free (omega (arith, count-append (is_manual_of tenant_id) t.watchlists (w ∷ []), few))
    ]

after_create-watched :
    (id tenant_id target source : String) (now : Time) (t : Tables)
    → any
        (conflicts tenant_id target)
        (create_watchlist id now tenant_id target source t).watchlists
      ≡ true
unfolding create_watchlist
after_create-watched id tenant_id target source now t =
    elim (Bool-cases (any (conflicts tenant_id target) t.watchlists)) [
      | inl clash ↦ rw clash clash
      | inr free ↦ rw free (
          rw (any-append tenant_id target t.watchlists _)
            (ground (arith, eq_iff tenant_id tenant_id, eq_iff target target)))
    ]

abbrev message_of : Answer → String
message_of to_sign_in = ""
message_of (to_settings m) = m
message_of (refuses status) = ""
message_of unsubscribed = ""

limit_is_no_success : to_settings "watchlist_limit" ≢ to_settings "watchlist_added"
limit_is_no_success e =
    let m : String = "watchlist_limit" in
    let same : (m == "watchlist_added") ≡ true = (eq_iff m "watchlist_added").1 (ap message_of e) in
    cc

-- What a request to add a watchlist keeps: the number of a tenant's manual watchlists goes over the
-- limit of its plan at most if it was over it before; no tenant gets two watchlists of one target; and the
-- message of success means that the target is valid and watched.
pub add_watchlist_handler-limit :
    (tn : Tenant) (target id : String) (now : Time) (can_count can_store : Bool) (t : Tables)
    → IsUnique t.watchlists
    → let r = add_watchlist_handler (some tn) target id now can_count can_store t in
      (watchlist_manual_count tn.id r.1
        ≤ max (plan_or_free tn.plan).max_watchlists (watchlist_manual_count tn.id t))
      × IsUnique r.1.watchlists
      × (r.0 ≡ to_settings "watchlist_added"
          → (is_target target ≡ true) × (any (conflicts tn.id target) r.1.watchlists ≡ true))
unfolding add_watchlist_handler
add_watchlist_handler-limit tn target id now can_count can_store t u =
    elim (Bool-cases (is_target target)) [
      | inr bad ↦ rw bad (omega arith, u, λ e. cc)
      | inl good ↦ rw good (elim (Bool-cases can_count) [
        | inr down ↦ rw down (omega arith, u, λ e. cc)
        | inl up ↦
            rw up
              (elim (Bool-cases
                (leb (plan_or_free tn.plan).max_watchlists (watchlist_manual_count tn.id t))) [
                  | inl full ↦ rw full (omega arith, u, λ e. absurd (limit_is_no_success e))
                  | inr room ↦ rw room (elim (Bool-cases can_store) [
                    | inr broken ↦ rw broken (omega arith, u, λ e. cc)
                    | inl works ↦
                        let one = after_create-count id tn.id target manual now t in
                        let below : watchlist_manual_count tn.id t
                            < (plan_or_free tn.plan).max_watchlists =
                          ground (arith, room) in
                        rw works (
                          omega (arith, one, below),
                          after_create-IsUnique id tn.id target manual now t u,
                          λ e. (refl, after_create-watched id tn.id target manual now t),
                        )
                  ])
                ])
      ])
    ]

-- The mail that is due to a tenant after another or the same tenant turned its mail off.
has_mail-silenced :
    (off tenant_id : String) (ws : List Watchlist) (events : List EventRow)
    → has_mail (record { watchlists = map (silenced off) ws; events = events }) tenant_id
      ≡ (not (tenant_id == off) && has_mail (record { watchlists = ws; events = events }) tenant_id)
has_mail-silenced off tenant_id [] events = ground arith
has_mail-silenced off tenant_id (w ∷ ws) events = ground (
  arith,
  eq_iff tenant_id off,
  eq_iff w.tenant_id off,
  eq_iff w.tenant_id tenant_id,
  has_mail-silenced off tenant_id ws events,
)

targets-silenced :
    (off : String) (tenants : List Tenant) (t : Tables)
    → get_tenants_with_unsent_events tenants (disable_watchlist_emails off t)
      ≡ filter
          (λ (d : DigestTarget). not (d.tenant_id == off))
          (get_tenants_with_unsent_events tenants t)
unfolding get_tenants_with_unsent_events disable_watchlist_emails filter
targets-silenced off [] t = refl
targets-silenced off (tn ∷ tenants) t =
    ground
      (arith, has_mail-silenced off tn.id t.watchlists t.events, targets-silenced off tenants t)

-- Only a link with a token that is valid for its tenant turns mail off. When the page of success is
-- shown, the tenant is no target of the weekly digest any more, and the other targets are the same,
-- in their order; with any other answer nothing has changed.
pub digest_unsubscribe_handler-targets :
    (is_valid : String → String → String → Bool) (secret tenant_id token : String)
    (can_store : Bool) (tenants : List Tenant) (t : Tables)
    → let r = digest_unsubscribe_handler is_valid secret tenant_id token can_store t in
      (r.0 ≡ unsubscribed
        → (is_valid secret tenant_id token ≡ true)
          × (get_tenants_with_unsent_events tenants r.1
              ≡ filter
                  (λ (d : DigestTarget). not (d.tenant_id == tenant_id))
                  (get_tenants_with_unsent_events tenants t)))
      × (r.0 ≢ unsubscribed → r.1 ≡ t)
unfolding digest_unsubscribe_handler
digest_unsubscribe_handler-targets is_valid secret tenant_id token can_store tenants t =
    elim (Bool-cases (tenant_id == "" || token == "" || secret == "")) [
      | inl empty ↦ rw empty (λ e. cc, λ n. refl)
      | inr full ↦ rw full (elim (Bool-cases (is_valid secret tenant_id token)) [
        | inr forged ↦ rw forged (λ e. cc, λ n. refl)
        | inl valid ↦ rw valid (elim (Bool-cases can_store) [
          | inr broken ↦ rw broken (λ e. cc, λ n. refl)
          | inl works ↦
              rw works (λ e. (refl, targets-silenced tenant_id tenants t), λ n. absurd (n refl))
        ])
      ])
    ]
