-- ===== src/Scorer/DrainLaws.antt =====
-- What holds of a batch in every order of its moves.
use devtrace.Scorer.DrainInvariant.{
  IsSound, IsTracked, start-IsSound, start-IsTracked, move-IsSound, move-IsTracked,
}
use mathlib.Core.List.{Mem, mem-cons_self, mem-cons_of_mem}
use devtrace.Base.{
  some, get_elem?, nat_eq, inr, Bool-cases, zero, refl, suc, [], true, ◌⊎◌, ◌<◌, inl, replicate,
  arith, ◌≢◌, false, ◌≡◌, ◌∷◌, get_or, length, List, ℕ, Bool,
}
use devtrace.Scorer.Drain.{
  is_over, QueueEntry, requeued, requeue_unscored, moves, cancels, checks, no_tokens, is_running,
  Move, start, Batch, Drain, move,
}

moves_both :
    (b : Batch) (s : Drain) (ms : List Move) (k : ℕ)
    → IsSound b s
    → IsTracked b s k
    → IsSound b (moves b s ms) × IsTracked b (moves b s ms) k
unfolding moves
moves_both b s [] k v t = (v, t)
moves_both b s (m ∷ ms) k v t =
    moves_both b (move b s m) ms k (move-IsSound b s m v) (move-IsTracked b s m k v t)

-- In every order of the moves of a batch: no more goroutines run than the concurrency allows, the
-- spawned entries are never more than the batch, and every one of them is either running or
-- counted once, as scored, as an error or as skipped.
pub moves-IsSound : (b : Batch) (ms : List Move) → IsSound b (moves b (start b) ms)
moves-IsSound b ms = (moves_both b (start b) ms 0 (start-IsSound b) (start-IsTracked b 0)).0

Mem-requeue_unscored :
    (ok : QueueEntry → Bool) (qs : List QueueEntry) (settled : List Bool) (i : ℕ) (q : QueueEntry)
    → ok q ≡ true
    → length settled ≡ length qs
    → get_elem? qs i ≡ some q
    → get_or settled i false ≡ false
    → Mem q (requeue_unscored ok qs settled)
unfolding requeue_unscored
Mem-requeue_unscored ok [] settled i q k l e f = cc
Mem-requeue_unscored ok (x ∷ qs) [] i q k l e f = absurd (omega arith)
Mem-requeue_unscored ok (x ∷ qs) (true ∷ settled) zero q k l e f = cc
Mem-requeue_unscored ok (x ∷ qs) (false ∷ settled) zero q k l e f =
    (let same : x ≡ q = ground arith in rw (same, k) mem-cons_self)
Mem-requeue_unscored ok (x ∷ qs) (true ∷ settled) (suc i) q k l e f =
    Mem-requeue_unscored ok qs settled i q k (omega arith) e f
Mem-requeue_unscored ok (x ∷ qs) (false ∷ settled) (suc i) q k l e f =
    let there = Mem-requeue_unscored ok qs settled i q k (omega arith) e f in
    elim (Bool-cases (ok x)) [
      | inl taken ↦ rw taken (mem-cons_of_mem x there)
      | inr refused ↦ rw refused there
    ]

get_elem?-length {ℓ} :
    {A : Type ℓ} (xs : List A) (i : ℕ) (a : A) → get_elem? xs i ≡ some a → i < length xs
get_elem?-length [] i a e = cc
get_elem?-length (x ∷ xs) zero a e = omega arith
get_elem?-length (x ∷ xs) (suc i) a e = omega (arith, get_elem?-length xs i a e)

not_running : (i : ℕ) (js : List ℕ) → nat_eq (length js) 0 ≡ true → is_running i js ≡ false
not_running i [] h = refl
not_running i (j ∷ js) h = absurd (ground arith)

-- A batch that is over, and neither cancelled nor dry, has settled every entry.
finished :
    (b : Batch) (s : Drain) (i : ℕ)
    → i < length b.queued
    → IsSound b s
    → IsTracked b s i
    → is_over s ≡ true
    → s.cancelled ≡ false
    → get_or s.settled i false ≡ false
    → s.dry ≡ false
    → ⊥
finished b s i lt v t over on open' wet =
    ground (arith, not_running i s.running, v.reason, t.accounted)

-- When a batch is over and the context was not cancelled, each dequeued entry was scored to a
-- decision of its own, which was not a dry pool, or it is handed back to the queue, or the queue
-- refuses it; whatever the order of the moves.
pub drain-no_loss :
    (b : Batch) (ms : List Move) (i : ℕ) (q : QueueEntry)
    → get_elem? b.queued i ≡ some q
    → let s = moves b (start b) ms in
      is_over s ≡ true
      → s.cancelled ≡ false
      → ((get_or s.settled i false ≡ true) × (i < s.next) × (b.outcome i ≢ no_tokens))
        ⊎ Mem q (requeued b s)
        ⊎ (b.can_enqueue q ≡ false)
unfolding requeued
drain-no_loss b ms i q e over on =
    let s = moves b (start b) ms in
    let (v, t) = moves_both b (start b) ms i (start-IsSound b) (start-IsTracked b i) in
    elim (Bool-cases (get_or s.settled i false)) [
      | inl done ↦ inl (done, ground (arith, t.honest), ground (arith, t.honest))
      | inr open' ↦ inr (elim (Bool-cases s.dry) [
        | inl dry ↦ elim (Bool-cases (b.can_enqueue q)) [
          | inl taken ↦ inl (
              rw dry (
                Mem-requeue_unscored b.can_enqueue b.queued s.settled i q taken v.settled_length e
                  open'))
          | inr refused ↦ inr refused
        ]
        | inr wet ↦ absurd (finished b s i (get_elem?-length b.queued i q e) v t over on open' wet)
      ])
    ]

-- A batch whose context is cancelled before its first entry is over at once, has scored nothing,
-- and hands none of its dequeued entries back.
pub drain-cancelled :
    (b : Batch)
    → let s = moves b (start b) (cancels ∷ checks ∷ []) in
      (is_over s ≡ true) × (s.settled ≡ replicate (length b.queued) false) × (requeued b s ≡ [])
unfolding moves start requeued
drain-cancelled b = (refl, refl, refl)
