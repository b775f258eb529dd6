-- ===== src/Scorer/Queue.antt =====
-- The scoring queue (pkg/data/postgres/queue.go): the statements on its table, one row for each
-- login and provider. An entry's priority 1 is the highest. Rows that are locked by another
-- consumer do not show, and the order in which equal rows come is open in SQL.
use devtrace.Base.Time.{Time}
use devtrace.Scorer.Drain.{QueueEntry}
use devtrace.Base.{
  refl, eq_iff, true, inr, inl, Bool-cases, arith, ◌+◌, zero, nat_eq, String_eq, ◌≡◌, suc, ◌||◌,
  if◌then◌else◌, min, ◌&&◌, [], none, some, ltb, length, ◌∷◌, ◌==◌, Option, Bool, ℕ, String, List,
}

pub record QueueRow : Type 0 where
  pub entry : QueueEntry
  pub queued_at : Time

abbrev pub is_row_of : String → String → QueueRow → Bool
is_row_of username provider r = r.entry.username == username && r.entry.provider == provider

-- `ON CONFLICT … DO UPDATE`
abbrev pub upgrade : ℕ → Time → QueueRow → QueueRow
upgrade priority now r = record {
  entry = record r.entry { priority = min r.entry.priority priority };
  queued_at = if ltb priority r.entry.priority then now else r.queued_at;
}

unfoldable pub enqueue_for_scoring : List QueueRow → String → String → ℕ → Time → List QueueRow
enqueue_for_scoring [] username provider priority now =
    record {
      entry = record { username = username; provider = provider; priority = priority };
      queued_at = now;
    }
    ∷ []
enqueue_for_scoring (r ∷ rs) username provider priority now =
    let rest = enqueue_for_scoring rs username provider priority now in
    if is_row_of username provider r then upgrade priority now r ∷ rs else r ∷ rest

unfoldable pub remove_from_queue : List QueueRow → String → String → List QueueRow
remove_from_queue [] username provider = []
remove_from_queue (r ∷ rs) username provider =
    let rest = remove_from_queue rs username provider in
    if is_row_of username provider r then rest else r ∷ rest

unfoldable pub purge_non_tenant_queue : List QueueRow → List QueueRow × ℕ
purge_non_tenant_queue [] = ([], 0)
purge_non_tenant_queue (r ∷ rs) =
    let (rest, n) = purge_non_tenant_queue rs in
    if nat_eq r.entry.priority 2 then (rest, n + 1) else (r ∷ rest, n)

abbrev pub queue_depth : List QueueRow → ℕ
queue_depth q = length q

-- `ORDER BY priority ASC, queued_at ASC`
abbrev pub comes_before : QueueRow → QueueRow → Bool
comes_before r s =
    ltb r.entry.priority s.entry.priority
    || nat_eq r.entry.priority s.entry.priority && ltb r.queued_at s.queued_at

abbrev pub first_of : QueueRow → Option QueueRow → QueueRow
first_of r none = r
first_of r (some s) = if comes_before s r then s else r

unfoldable pub first_row : List QueueRow → Option QueueRow
first_row [] = none
first_row (r ∷ rs) = some (first_of r (first_row rs))

-- `LIMIT $1`, row by row.
unfoldable pub dequeue_for_scoring : ℕ → List QueueRow → List QueueRow × List QueueRow
unfolding first_row remove_from_queue
dequeue_for_scoring zero q = ([], q)
dequeue_for_scoring (suc limit) q = elim (first_row q) [
  | none ↦ ([], q)
  | some r ↦
      (let (rows, rest) =
          dequeue_for_scoring limit (remove_from_queue q r.entry.username r.entry.provider) in
        (r ∷ rows, rest))
]

-- The priority of a login's row.
abbrev pub priority_of : List QueueRow → String → String → Option ℕ
priority_of [] username provider = none
priority_of (r ∷ rs) username provider =
    let rest = priority_of rs username provider in
    if is_row_of username provider r then some r.entry.priority else rest

abbrev pub min_with : ℕ → Option ℕ → ℕ
min_with p none = p
min_with p (some q) = min q p

same_row :
    (u p v w : String) (r : QueueRow)
    → is_row_of u p r ≡ true
    → is_row_of v w r ≡ (u == v && p == w)
same_row u p v w r own =
    let name : r.entry.username ≡ u = (eq_iff r.entry.username u).0 (ground (arith, own)) in
    let provider : r.entry.provider ≡ p = (eq_iff r.entry.provider p).0 (ground (arith, own)) in
    rw (name, provider) refl

same_key :
    (u p v w : String) (r : QueueRow)
    → (u == v && p == w) ≡ true
    → is_row_of v w r ≡ is_row_of u p r
same_key u p v w r e =
    let name : u ≡ v = (eq_iff u v).0 (ground (arith, e)) in
    let provider : p ≡ w = (eq_iff p w).0 (ground (arith, e)) in rw (name, provider) refl

-- After an enqueue the login's row has the higher of the old and the new priority, or the new one
-- where there was no row; the rows of other logins keep theirs; and the depth grows by one exactly
-- where there was no row.
pub enqueue_for_scoring_lem :
    (q : List QueueRow) (u p v w : String) (n : ℕ) (now : Time)
    → (priority_of (enqueue_for_scoring q u p n now) v w
        ≡ (if u == v && p == w then some (min_with n (priority_of q u p)) else priority_of q v w))
      × (queue_depth (enqueue_for_scoring q u p n now)
          ≡ elim (priority_of q u p) [ none ↦ queue_depth q + 1 | some k ↦ queue_depth q ])
unfolding enqueue_for_scoring
enqueue_for_scoring_lem [] u p v w n now = (ground arith, ground arith)
enqueue_for_scoring_lem (r ∷ rs) u p v w n now =
    let (ih, ihd) = enqueue_for_scoring_lem rs u p v w n now in
    elim (Bool-cases (is_row_of u p r)) [
      | inl own ↦ rw own (
        rw (same_row u p v w r own) (elim (Bool-cases (u == v && p == w)) [
          | inl hit ↦ rw hit refl
          | inr miss ↦ rw miss refl
        ]),
        refl,
      )
      | inr other ↦ rw other (
        elim (Bool-cases (u == v && p == w)) [
          | inl hit ↦ rw (hit, same_key u p v w r hit, other, ih, hit) refl
          | inr miss ↦ rw (miss, ih, miss) refl
        ],
        deeper (priority_of rs u p) ihd,
      )
    ]
  where
    deeper :
        (o : Option ℕ)
        → queue_depth (enqueue_for_scoring rs u p n now)
          ≡ elim o [ none ↦ queue_depth rs + 1 | some k ↦ queue_depth rs ]
        → suc (queue_depth (enqueue_for_scoring rs u p n now))
          ≡ elim o [ none ↦ suc (queue_depth rs) + 1 | some k ↦ suc (queue_depth rs) ]
    deeper none e = omega (arith, e)
    deeper (some k) e = omega (arith, e)
