-- ===== src/Ingest/Queueing.antt =====
-- queueContributors (pkg/ingest/runner.go): who is put on the scoring queue after an hour.
use devtrace.Base.Maps.{get}
use devtrace.Ingest.Notify.{notify_watchlists, owner, WatchlistEntry, NotificationEvent}
use devtrace.Ingest.Events.{Summary}
use devtrace.Scorer.Drain.{QueueEntry}
use mathlib.Core.List.{append-nil, append_assoc}
use devtrace.Base.{
  false, true, refl, true, ap, length-append, inl, ◌∙◌, inr, sym, Bool-cases, arith, length, ltb,
  none, ◌+◌, ◌&&◌, String_eq, some, ◌≡◌, ◌++◌, not, [], map, ◌∷◌, if◌then◌else◌, any, Bool, Option,
  ℕ, String, List,
}

-- What the database answers: a failed ContributorExists reads as false; `true` is no error.
pub record IngestStore : Type 0 where
  pub contributor_exists : String → Bool
  pub enqueue_for_scoring : QueueEntry → Bool
  pub insert_notification_event : NotificationEvent → Bool

pub record QueueResult : Type 0 where
  pub queued : ℕ
  pub skipped_non_tenant : ℕ

-- The rows written so far and the result.
pub record Queueing : Type 0 where
  pub enqueued : List QueueEntry
  pub events : List NotificationEvent
  pub result : QueueResult

abbrev pub list_or_empty : Option (List WatchlistEntry) → List WatchlistEntry
list_or_empty none = []
list_or_empty (some wls) = wls

abbrev pub targets_of : List (String × List WatchlistEntry) → String → List WatchlistEntry
targets_of targets key = list_or_empty (get targets key)

abbrev pub touches_tenant : (String → Bool) → Summary → Bool
touches_tenant tenant_repos s = any (λ repo. tenant_repos (owner repo)) s.repos

abbrev pub entry_of : IngestStore → Summary → QueueEntry
entry_of store s = record {
  username = s.username;
  provider = "github";
  priority = if not (store.contributor_exists s.username) then 1 else 3;
}

abbrev pub with_notifications :
    IngestStore → List (String × List WatchlistEntry) → Summary → Queueing → Queueing
with_notifications store targets s q =
    if not (store.contributor_exists s.username) && ltb 0 (length targets)
    then record q {
      events = q.events ++ notify_watchlists store.insert_notification_event (targets_of targets) s;
    }
    else q

abbrev pub enqueue_one : IngestStore → Summary → Queueing → Queueing
enqueue_one store s q =
    if store.enqueue_for_scoring (entry_of store s)
    then record q {
      enqueued = q.enqueued ++ entry_of store s ∷ [];
      result = record q.result { queued = q.result.queued + 1 };
    }
    else q

unfoldable pub queue_one :
    IngestStore
    → (String → Bool)
    → List (String × List WatchlistEntry)
    → Summary
    → Queueing
    → Queueing
queue_one store tenant_repos targets s q =
    let r = with_notifications store targets s q in
    if not (touches_tenant tenant_repos s)
    then record r {
      result = record r.result { skipped_non_tenant = r.result.skipped_non_tenant + 1 };
    }
    else enqueue_one store s r

unfoldable pub queue_from :
    IngestStore
    → (String → Bool)
    → List (String × List WatchlistEntry)
    → List Summary
    → Queueing
    → Queueing
queue_from store tenant_repos targets [] q = q
queue_from store tenant_repos targets (s ∷ ss) q =
    queue_from store tenant_repos targets ss (queue_one store tenant_repos targets s q)

unfoldable pub queue_contributors :
    IngestStore → (String → Bool) → List (String × List WatchlistEntry) → List Summary → Queueing
queue_contributors store tenant_repos targets ss =
    queue_from store tenant_repos targets ss (record {
      enqueued = [];
      events = [];
      result = record { queued = 0; skipped_non_tenant = 0 };
    })

abbrev pub select {ℓ} : {A : Type ℓ} → (A → Bool) → List A → List A
select f [] = []
select f (x ∷ xs) = let rest = select f xs in if f x then x ∷ rest else rest

-- A contributor's entry at the priority 1 of those that the store does not know, or else 3.
abbrev pub ranked_entry : String → Bool → QueueEntry
ranked_entry username true = record { username = username; provider = "github"; priority = 3 }
ranked_entry username false = record { username = username; provider = "github"; priority = 1 }

abbrev pub due_entry : IngestStore → Summary → QueueEntry
due_entry store s = ranked_entry s.username (store.contributor_exists s.username)

due_entry-entry_of : (store : IngestStore) (s : Summary) → entry_of store s ≡ due_entry store s
due_entry-entry_of store s = elim (Bool-cases (store.contributor_exists s.username)) [
  | inl known ↦ rw known refl
  | inr new ↦ rw new refl
]

-- The queue entries of the summaries that touch a tenant, in order, as far as the queue takes them.
abbrev pub due_entries : IngestStore → (String → Bool) → List Summary → List QueueEntry
due_entries store tenant_repos ss =
    select store.enqueue_for_scoring
      (map (due_entry store) (select (touches_tenant tenant_repos) ss))

abbrev IsDone : IngestStore → (String → Bool) → List Summary → Queueing → Queueing → Type 0
IsDone store tenant_repos ss q r =
    (r.enqueued ≡ q.enqueued ++ due_entries store tenant_repos ss)
    × (r.result.queued ≡ q.result.queued + length (due_entries store tenant_repos ss))
    × (r.result.skipped_non_tenant + length (select (touches_tenant tenant_repos) ss)
        ≡ q.result.skipped_non_tenant + length ss)

enqueued-with_notifications :
    (store : IngestStore) (targets : List (String × List WatchlistEntry)) (s : Summary)
    (q : Queueing)
    → ((with_notifications store targets s q).enqueued ≡ q.enqueued)
      × ((with_notifications store targets s q).result ≡ q.result)
enqueued-with_notifications store targets s q = (ground arith, ground arith)

queue_one-IsDone :
    (store : IngestStore) (tenant_repos : String → Bool)
    (targets : List (String × List WatchlistEntry)) (s : Summary) (q : Queueing)
    → IsDone store tenant_repos (s ∷ []) q (queue_one store tenant_repos targets s q)
unfolding queue_one
queue_one-IsDone store tenant_repos targets s q =
    let (same, result) = enqueued-with_notifications store targets s q in
    elim (Bool-cases (touches_tenant tenant_repos s)) [
      | inr out ↦
          rw out
            (same ∙ sym (append-nil q.enqueued), ground (arith, result), ground (arith, result))
      | inl touches ↦
          rw (touches, ← due_entry-entry_of store s)
            (elim (Bool-cases (store.enqueue_for_scoring (entry_of store s))) [
              | inl ok ↦ rw ok (
                ap (λ es. es ++ entry_of store s ∷ []) same,
                ground (arith, result),
                ground (arith, result),
              )
              | inr refused ↦ rw refused (
                same ∙ sym (append-nil q.enqueued),
                ground (arith, result),
                ground (arith, result),
              )
            ])
    ]

due_entries-cons :
    (store : IngestStore) (tenant_repos : String → Bool) (s : Summary) (ss : List Summary)
    → due_entries store tenant_repos (s ∷ ss)
      ≡ due_entries store tenant_repos (s ∷ []) ++ due_entries store tenant_repos ss
due_entries-cons store tenant_repos s ss = ground arith

queue_from-IsDone :
    (store : IngestStore) (tenant_repos : String → Bool)
    (targets : List (String × List WatchlistEntry)) (ss : List Summary) (q : Queueing)
    → IsDone store tenant_repos ss q (queue_from store tenant_repos targets ss q)
unfolding queue_from
queue_from-IsDone store tenant_repos targets [] q =
    (sym (append-nil q.enqueued), omega arith, omega arith)
queue_from-IsDone store tenant_repos targets (s ∷ ss) q =
    let (es, n, k) = queue_one-IsDone store tenant_repos targets s q in
    let (es', n', k') =
      queue_from-IsDone store tenant_repos targets ss (queue_one store tenant_repos targets s q) in
    let split = due_entries-cons store tenant_repos s ss in
    (
      es' ∙ rw (es, split) (append_assoc q.enqueued _ _),
      rw split (
          omega (
            arith,
            n,
            n',
            length-append (due_entries store tenant_repos (s ∷ []))
                (due_entries store tenant_repos ss),
          )),
      ground (arith, k, k'),
    )

-- An hour puts on the queue exactly the contributors who touched a repo of a tenant, in order, as
-- far as the queue takes them, the new ones at priority 1 and the known ones at 3; the result
-- counts them, and every other contributor as skipped, whatever watchlists are notified.
pub queue_contributors_lem :
    (store : IngestStore) (tenant_repos : String → Bool)
    (targets : List (String × List WatchlistEntry)) (ss : List Summary)
    → let r = queue_contributors store tenant_repos targets ss in
      (r.enqueued ≡ due_entries store tenant_repos ss)
      × (r.result.queued ≡ length (due_entries store tenant_repos ss))
      × (r.result.skipped_non_tenant + length (select (touches_tenant tenant_repos) ss) ≡ length ss)
unfolding queue_contributors
queue_contributors_lem store tenant_repos targets ss =
    let (es, n, k) = queue_from-IsDone store tenant_repos targets ss (record {
      enqueued = [];
      events = [];
      result = record { queued = 0; skipped_non_tenant = 0 };
    }) in
    (es, omega (arith, n), omega (arith, k))
