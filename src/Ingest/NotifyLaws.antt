-- ===== src/Ingest/NotifyLaws.antt =====
-- A new contributor is notified to every watchlist that asks for it, and to none twice.
use devtrace.Ingest.NotifyExact.{ids, AllOnce, is_notified-append, notify_repos-IsExact}
use devtrace.Ingest.Events.{Summary}
use devtrace.Ingest.Notify.{
  event_for, build_event_details, EventDetails, owner, WatchlistEntry, is_notified,
  notify_watchlists, notify_repos, notify_targets, notify_one, write_new_contributor_event,
  Notified, NotificationEvent,
}
use devtrace.Base.{
  zero, suc, get_elem?, ℕ, ◌⊎◌, inr, inl, Option-cases, eq_iff, true, refl, Bool-cases, some, arith,
  [], Bool, ◌≡◌, ◌∷◌, String, List,
}

-- For one contributor no watchlist gets two events, however many of the contributor's repos and
-- organisations it matches.
pub notify_watchlists-AllOnce :
    (insert : NotificationEvent → Bool) (targets : String → List WatchlistEntry) (s : Summary)
    → AllOnce (ids (notify_watchlists insert targets s))
unfolding notify_watchlists
notify_watchlists-AllOnce insert targets s =
    let v =
      notify_repos-IsExact insert targets s s.repos (record { events = []; notified = [] })
        (record { same = refl; once = tt }) in
    rw v.same v.once

is_notified-notify_one :
    (insert : NotificationEvent → Bool) (s : Summary) (wl : WatchlistEntry) (n : Notified)
    (i : String)
    → is_notified i n.notified ≡ true
    → is_notified i (notify_one insert s wl n).notified ≡ true
unfolding notify_one
is_notified-notify_one insert s wl n i h = elim (Bool-cases (is_notified wl.id n.notified)) [
  | inl dup ↦ rw dup h
  | inr fresh ↦ rw fresh (elim (Option-cases (write_new_contributor_event insert wl s)) [
    | inl nothing ↦ rw nothing h
    | inr (ev, written) ↦
        rw (written, is_notified-append i n.notified (ev.watchlist_id ∷ []), h) refl
  ])
]

is_notified-notify_targets :
    (insert : NotificationEvent → Bool) (s : Summary) (wls : List WatchlistEntry) (n : Notified)
    (i : String)
    → is_notified i n.notified ≡ true
    → is_notified i (notify_targets insert s wls n).notified ≡ true
unfolding notify_targets
is_notified-notify_targets insert s [] n i h = h
is_notified-notify_targets insert s (wl ∷ wls) n i h =
    is_notified-notify_targets insert s wls _ i (is_notified-notify_one insert s wl n i h)

is_notified-notify_repos :
    (insert : NotificationEvent → Bool) (targets : String → List WatchlistEntry) (s : Summary)
    (repos : List String) (n : Notified) (i : String)
    → is_notified i n.notified ≡ true
    → is_notified i (notify_repos insert targets s repos n).notified ≡ true
unfolding notify_repos
is_notified-notify_repos insert targets s [] n i h = h
is_notified-notify_repos insert targets s (r ∷ rs) n i h =
    is_notified-notify_repos insert targets s rs _ i (
      is_notified-notify_targets insert s (targets r) _ i
        (is_notified-notify_targets insert s (targets (owner r)) n i h))

-- What an entry needs for its event.
abbrev pub IsDue : (NotificationEvent → Bool) → WatchlistEntry → Summary → Type 0
IsDue insert wl s =
    (d : EventDetails) × (build_event_details wl.plan s ≡ some d)
    × (insert (event_for wl s d) ≡ true)

write_due :
    (insert : NotificationEvent → Bool) (s : Summary) (wl : WatchlistEntry) (d : EventDetails)
    → build_event_details wl.plan s ≡ some d
    → insert (event_for wl s d) ≡ true
    → write_new_contributor_event insert wl s ≡ some (event_for wl s d)
unfolding write_new_contributor_event
write_due insert s wl d found ok = rw (write_new_contributor_event, found, ok) refl

notify_one-due :
    (insert : NotificationEvent → Bool) (s : Summary) (wl : WatchlistEntry) (n : Notified)
    → IsDue insert wl s
    → is_notified wl.id (notify_one insert s wl n).notified ≡ true
unfolding notify_one
notify_one-due insert s wl n (d, found, ok) = elim (Bool-cases (is_notified wl.id n.notified)) [
  | inl dup ↦ rw dup dup
  | inr fresh ↦
      rw (fresh, write_due insert s wl d found ok, is_notified-append wl.id n.notified (wl.id ∷ []))
        (ground (arith, eq_iff wl.id wl.id))
]

notify_targets-due :
    (insert : NotificationEvent → Bool) (s : Summary) (wls : List WatchlistEntry)
    (wl : WatchlistEntry) (i : ℕ) (n : Notified)
    → get_elem? wls i ≡ some wl
    → IsDue insert wl s
    → is_notified wl.id (notify_targets insert s wls n).notified ≡ true
unfolding notify_targets
notify_targets-due insert s [] wl i n m due = cc
notify_targets-due insert s (w ∷ wls) wl zero n m due =
    let e : w ≡ wl = ground arith in
    is_notified-notify_targets insert s wls _ wl.id (rw e (notify_one-due insert s wl n due))
notify_targets-due insert s (w ∷ wls) wl (suc i) n m due =
    notify_targets-due insert s wls wl i _ m due

notify_repos-due :
    (insert : NotificationEvent → Bool) (targets : String → List WatchlistEntry) (s : Summary)
    (repos : List String) (repo : String) (wl : WatchlistEntry) (j i : ℕ) (n : Notified)
    → get_elem? repos j ≡ some repo
    → (get_elem? (targets (owner repo)) i ≡ some wl) ⊎ (get_elem? (targets repo) i ≡ some wl)
    → IsDue insert wl s
    → is_notified wl.id (notify_repos insert targets s repos n).notified ≡ true
unfolding notify_repos
notify_repos-due insert targets s [] repo wl j i n m t due = cc
notify_repos-due insert targets s (r ∷ rs) repo wl (suc j) i n m t due =
    notify_repos-due insert targets s rs repo wl j i _ m t due
notify_repos-due insert targets s (r ∷ rs) repo wl zero i n m t due =
    let e : r ≡ repo = ground arith in
    rw e (
      is_notified-notify_repos insert targets s rs _ wl.id (elim t [
        | inl org ↦
            is_notified-notify_targets insert s (targets repo) _ wl.id
              (notify_targets-due insert s (targets (owner repo)) wl i n org due)
        | inr own ↦ notify_targets-due insert s (targets repo) wl i _ own due
      ]))

-- A watchlist of an organisation or a repo that the contributor was active in gets its event,
-- where the plan's scope shows something and the database takes the event.
pub notify_watchlists-due :
    (insert : NotificationEvent → Bool) (targets : String → List WatchlistEntry) (s : Summary)
    (repo : String) (wl : WatchlistEntry) (j i : ℕ)
    → get_elem? s.repos j ≡ some repo
    → (get_elem? (targets (owner repo)) i ≡ some wl) ⊎ (get_elem? (targets repo) i ≡ some wl)
    → IsDue insert wl s
    → is_notified wl.id (ids (notify_watchlists insert targets s)) ≡ true
unfolding notify_watchlists
notify_watchlists-due insert targets s repo wl j i m t due =
    let v =
      notify_repos-IsExact insert targets s s.repos (record { events = []; notified = [] })
        (record { same = refl; once = tt }) in
    rw v.same (notify_repos-due insert targets s s.repos repo wl j i _ m t due)
