-- ===== src/Watchlist/Isolation.antt =====
-- The calls that the handlers of watchlists make for a tenant (pkg/server/handler_watchlist.go,
-- pkg/server/handler_webhook.go), and what another tenant sees after them.
use devtrace.Base.{
  not, ◌++◌, String_eq, inr, sym, map, eq_iff, inl, ap, refl, true, Bool-cases, false, ◌∙◌, arith,
  [], ◌==◌, any, ◌≡◌, ◌&&◌, ◌∷◌, List, String,
}
use devtrace.Watchlist.Defs.{Tables, Watchlist, EventRow, belongs_to, is_named}
use devtrace.Watchlist.Store.{
  conflicts, create_watchlist, delete_watchlist, toggle_watchlist_email, disable_watchlist_emails,
  toggled, silenced, is_deletable, is_left,
}
use devtrace.Watchlist.Events.{joined, NotificationEvent}
use devtrace.Base.Rows.{All-of_each, filter-filter, filter, All}
use mathlib.Core.List.{append-nil}
use devtrace.Base.Time.{Time}

pub data Call : Type 0 where
  -- The id and the time of the row, the target and the source.
  create : String → Time → String → String → Call
  delete toggle_email : String → Call
  disable_emails : Call

unfoldable pub perform : String → Call → Tables → Tables
perform tenant_id (create id now target source) t =
    create_watchlist id now tenant_id target source t
perform tenant_id (delete id) t = (delete_watchlist id tenant_id t).0
perform tenant_id (toggle_email id) t = toggle_watchlist_email id tenant_id t
perform tenant_id disable_emails t = disable_watchlist_emails tenant_id t

-- The calls of several tenants, interleaved.
unfoldable pub perform_all : List (String × Call) → Tables → Tables
perform_all [] t = t
perform_all (c ∷ calls) t = perform_all calls (perform c.0 c.1 t)

-- What a tenant's pages show: its watchlists, and the events joined to them.
abbrev pub view : String → Tables → List Watchlist × List NotificationEvent
view tenant_id t =
    (filter (belongs_to tenant_id) t.watchlists, joined t.watchlists tenant_id t.events)

filter-and :
    (id b : String) (ws : List Watchlist)
    → filter (λ w. is_named id w && belongs_to b w) ws
      ≡ filter (is_named id) (filter (belongs_to b) ws)
unfolding filter
filter-and id b [] = refl
filter-and id b (w ∷ ws) = ground (arith, filter-and id b ws)

-- The joined events depend on the tenant's own watchlists only.
joined-own :
    (b : String) (ws vs : List Watchlist) (es : List EventRow)
    → filter (belongs_to b) ws ≡ filter (belongs_to b) vs
    → joined ws b es ≡ joined vs b es
unfolding joined
joined-own b ws vs [] same = refl
joined-own b ws vs (e ∷ es) same =
    let here : filter (λ w. is_named e.watchlist_id w && belongs_to b w) ws
        ≡ filter (λ w. is_named e.watchlist_id w && belongs_to b w) vs =
      filter-and e.watchlist_id b ws
      ∙ ap (filter (is_named e.watchlist_id)) same
      ∙ sym (filter-and e.watchlist_id b vs) in
    rw here (rw (joined-own b ws vs es same) refl)

unnamed :
    (id b : String) (ws : List Watchlist)
    → any (is_named id) ws ≡ false
    → filter (λ w. is_named id w && belongs_to b w) ws ≡ []
unfolding filter
unnamed id b [] h = refl
unnamed id b (w ∷ ws) h = ground (arith, unnamed id b ws)

-- Events of no watchlist are seen by nobody.
joined-left :
    (b : String) (ws : List Watchlist) (es : List EventRow)
    → joined ws b (filter (is_left ws) es) ≡ joined ws b es
unfolding joined filter
joined-left b ws [] = refl
joined-left b ws (e ∷ es) = elim (Bool-cases (is_left ws e)) [
  | inl left ↦ rw left (rw (joined-left b ws es) refl)
  | inr orphan ↦ rw orphan (rw (unnamed e.watchlist_id b ws orphan) (joined-left b ws es))
]

other_tenant :
    (a b : String) (w : Watchlist)
    → (a == b) ≡ false
    → belongs_to b w ≡ true
    → belongs_to a w ≡ false
other_tenant a b w apart h = ground (arith, eq_iff w.tenant_id b, eq_iff w.tenant_id a, eq_iff a b)

map-other :
    (a b : String) (f : Watchlist → Watchlist) (ws : List Watchlist)
    → ((w : Watchlist) → belongs_to b w ≡ true → f w ≡ w)
    → ((w : Watchlist) → belongs_to b (f w) ≡ belongs_to b w)
    → filter (belongs_to b) (map f ws) ≡ filter (belongs_to b) ws
unfolding filter
map-other a b f [] keeps owner = refl
map-other a b f (w ∷ ws) keeps owner = elim (Bool-cases (belongs_to b w)) [
  | inl own ↦ rw (owner w) (rw own (rw (keeps w own) (rw (map-other a b f ws keeps owner) refl)))
  | inr other ↦ rw (owner w) (rw other (map-other a b f ws keeps owner))
]

-- New events and watchlists: what stays to be shown of the parts.
same_view :
    (b : String) (ws vs : List Watchlist) (es : List EventRow)
    → filter (belongs_to b) vs ≡ filter (belongs_to b) ws
    → view b (record { watchlists = vs; events = es })
      ≡ view b (record { watchlists = ws; events = es })
same_view b ws vs es same = rw same (rw (joined-own b vs ws es same) refl)

filter-append :
    (b : String) (ws vs : List Watchlist)
    → filter (belongs_to b) (ws ++ vs) ≡ filter (belongs_to b) ws ++ filter (belongs_to b) vs
unfolding filter
filter-append b [] vs = refl
filter-append b (w ∷ ws) vs = ground (arith, filter-append b ws vs)

not_deletable :
    (a b id : String) (w : Watchlist)
    → (a == b) ≡ false
    → belongs_to b w ≡ true
    → not (is_deletable id a w) ≡ true
not_deletable a b id w apart h = let away = other_tenant a b w apart h in ground (arith, away)

after_create :
    (a b id target source : String) (now : Time) (t : Tables)
    → (a == b) ≡ false
    → view b (create_watchlist id now a target source t) ≡ view b t
unfolding create_watchlist filter
after_create a b id target source now t apart =
    elim (Bool-cases (any (conflicts a target) t.watchlists)) [
      | inl clash ↦ rw clash refl
      | inr free ↦ rw free (
          same_view b t.watchlists _ t.events
            (rw (filter-append b t.watchlists) (rw (filter, apart) (append-nil _))))
    ]

after_delete :
    (a b id : String) (t : Tables)
    → (a == b) ≡ false
    → view b (delete_watchlist id a t).0 ≡ view b t
unfolding delete_watchlist
after_delete a b id t apart =
    let kept = filter (λ w. not (is_deletable id a w)) t.watchlists in
    let same : filter (belongs_to b) kept ≡ filter (belongs_to b) t.watchlists =
      filter-filter (belongs_to b) (λ w. not (is_deletable id a w)) t.watchlists
        (All-of_each (λ w. belongs_to b w ≡ true → not (is_deletable id a w) ≡ true) t.watchlists
          (λ w h. not_deletable a b id w apart h)) in
    elim (Bool-cases (any (is_deletable id a) t.watchlists)) [
      | inl found ↦ rw found (
          rw same (
            rw (joined-left b kept t.events)
              (rw (joined-own b kept t.watchlists t.events same) refl)))
      | inr missing ↦ rw missing refl
    ]

after_toggle :
    (a b id : String) (t : Tables)
    → (a == b) ≡ false
    → view b (toggle_watchlist_email id a t) ≡ view b t
unfolding toggle_watchlist_email
after_toggle a b id t apart = same_view b t.watchlists _ t.events (
    map-other a b (toggled id a) t.watchlists
      (λ w h. let away = other_tenant a b w apart h in ground (arith, away)) (λ w. ground arith))

after_disable :
    (a b : String) (t : Tables)
    → (a == b) ≡ false
    → view b (disable_watchlist_emails a t) ≡ view b t
unfolding disable_watchlist_emails
after_disable a b t apart = same_view b t.watchlists _ t.events (
    map-other a b (silenced a) t.watchlists
      (λ w h. let away = other_tenant a b w apart h in ground (arith, away)) (λ w. ground arith))

perform-view :
    (a b : String) (c : Call) (t : Tables) → (a == b) ≡ false → view b (perform a c t) ≡ view b t
unfolding perform
perform-view a b (create id now target source) t apart =
    after_create a b id target source now t apart
perform-view a b (delete id) t apart = after_delete a b id t apart
perform-view a b (toggle_email id) t apart = after_toggle a b id t apart
perform-view a b disable_emails t apart = after_disable a b t apart

-- Whatever calls other tenants make, with whatever ids and targets, a tenant's watchlists and the
-- events that its pages show stay as they are.
pub perform_all-view :
    (b : String) (calls : List (String × Call)) (t : Tables)
    → All (λ (c : String × Call). (c.0 == b) ≡ false) calls
    → view b (perform_all calls t) ≡ view b t
unfolding perform_all
perform_all-view b [] t others = refl
perform_all-view b (c ∷ calls) t others =
    perform_all-view b calls (perform c.0 c.1 t) others.1 ∙ perform-view c.0 b c.1 t others.0
