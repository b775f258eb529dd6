-- ===== src/Ingest/NotifyExact.antt =====
-- The set of watchlists that notifyWatchlists (pkg/ingest/runner.go) keeps is that of its events.
use devtrace.Ingest.Events.{Summary}
use devtrace.Ingest.Notify.{
  event_for, build_event_details, EventDetails, owner, WatchlistEntry, is_notified, notify_repos,
  notify_targets, notify_one, write_new_contributor_event, Notified, NotificationEvent,
}
use devtrace.Base.{
  sym, none, if◌then◌else◌, ◌∙◌, inr, inl, Option-cases, eq_iff, refl, Bool-cases, some, ap, arith,
  [], ◌||◌, false, Bool, ◌≡◌, ◌++◌, ◌∷◌, map, String, List,
}

abbrev pub ids : List NotificationEvent → List String
ids evs = map (λ e. e.watchlist_id) evs

-- No id stands twice.
abbrev pub AllOnce : List String → Type 0
AllOnce [] = Unit {0}
AllOnce (i ∷ is) = (is_notified i is ≡ false) × AllOnce is

pub is_notified-append :
    (i : String) (is js : List String)
    → is_notified i (is ++ js) ≡ (is_notified i is || is_notified i js)
is_notified-append i [] js = refl
is_notified-append i (k ∷ is) js = ground (arith, is_notified-append i is js)

AllOnce-append :
    (i : String) (is : List String) → is_notified i is ≡ false → AllOnce is → AllOnce (is ++ i ∷ [])
AllOnce-append i [] f h = (refl, tt)
AllOnce-append i (k ∷ is) f h = (
  ground (arith, is_notified-append k is (i ∷ []), eq_iff k i, eq_iff i k, f, h),
  AllOnce-append i is (ground (arith, f)) h.1,
)

ids-append :
    (evs : List NotificationEvent) (ev : NotificationEvent)
    → ids (evs ++ ev ∷ []) ≡ ids evs ++ ev.watchlist_id ∷ []
ids-append [] ev = refl
ids-append (e ∷ evs) ev = ap (λ is. e.watchlist_id ∷ is) (ids-append evs ev)

-- The set is the ids of the events, each once.
pub record IsExact (n : Notified) : Type 0 where
  pub same : ids n.events ≡ n.notified
  pub once : AllOnce n.notified

pub write-id :
    (insert : NotificationEvent → Bool) (wl : WatchlistEntry) (s : Summary) (ev : NotificationEvent)
    → write_new_contributor_event insert wl s ≡ some ev
    → ev.watchlist_id ≡ wl.id
unfolding write_new_contributor_event
write-id insert wl s ev e = elim (Option-cases (build_event_details wl.plan s)) [
  | inl none_found ↦ absurd (let e' = rw (none_found, write_new_contributor_event) at e in cc)
  | inr (d, found) ↦ by_found d (rw (found, write_new_contributor_event) at e)
]
  where
    by_found :
        (d : EventDetails)
        → (if insert (event_for wl s d) then some (event_for wl s d) else none) ≡ some ev
        → ev.watchlist_id ≡ wl.id
    by_found d e' = elim (Bool-cases (insert (event_for wl s d))) [
      | inl ok ↦
          (let e'' = rw ok at e' in
            sym (ap (λ o. elim o [ none ↦ wl.id | some x ↦ x.watchlist_id ]) e''))
      | inr bad ↦ absurd (let e'' = rw bad at e' in cc)
    ]

notify_one-IsExact :
    (insert : NotificationEvent → Bool) (s : Summary) (wl : WatchlistEntry) (n : Notified)
    → IsExact n
    → IsExact (notify_one insert s wl n)
unfolding notify_one
notify_one-IsExact insert s wl n v = elim (Bool-cases (is_notified wl.id n.notified)) [
  | inl dup ↦ rw dup v
  | inr fresh ↦ rw fresh (elim (Option-cases (write_new_contributor_event insert wl s)) [
    | inl nothing ↦ rw nothing v
    | inr (ev, written) ↦ rw written (record {
      same = ids-append n.events ev ∙ ap (λ is. is ++ ev.watchlist_id ∷ []) v.same;
      once =
          AllOnce-append ev.watchlist_id n.notified (rw (write-id insert wl s ev written) fresh)
            v.once;
    })
  ])
]

notify_targets-IsExact :
    (insert : NotificationEvent → Bool) (s : Summary) (wls : List WatchlistEntry) (n : Notified)
    → IsExact n
    → IsExact (notify_targets insert s wls n)
unfolding notify_targets
notify_targets-IsExact insert s [] n v = v
notify_targets-IsExact insert s (wl ∷ wls) n v =
    notify_targets-IsExact insert s wls (notify_one insert s wl n)
      (notify_one-IsExact insert s wl n v)

pub notify_repos-IsExact :
    (insert : NotificationEvent → Bool) (targets : String → List WatchlistEntry) (s : Summary)
    (repos : List String) (n : Notified)
    → IsExact n
    → IsExact (notify_repos insert targets s repos n)
unfolding notify_repos
notify_repos-IsExact insert targets s [] n v = v
notify_repos-IsExact insert targets s (r ∷ rs) n v = notify_repos-IsExact insert targets s rs _ (
    notify_targets-IsExact insert s (targets r) _
      (notify_targets-IsExact insert s (targets (owner r)) n v))
