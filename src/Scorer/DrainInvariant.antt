-- ===== src/Scorer/DrainInvariant.antt =====
-- What the moves of drainQueue (pkg/background/scorer.go) keep.
use devtrace.Base.{
  get_or-set_ne, ◌∙◌, sym, get_or-set_self, set, nat_eq, inr, Bool-cases, length-set, zero, refl,
  suc, length-replicate, [], true, ◌⊎◌, ◌≤◌, ◌<◌, inl, replicate, arith, ◌+◌, ◌≢◌, false, ◌≡◌, ◌∷◌,
  get_or, length, List, ℕ,
}
use devtrace.Scorer.Drain.{
  cancels, acquires, checks, no_tokens, ends, Outcome, remove, is_running, Move, conclude, start,
  Batch, Drain, move,
}

abbrev pub AllBelow : ℕ → List ℕ → Type 0
AllBelow n [] = Unit {0}
AllBelow n (j ∷ js) = (j < n) × AllBelow n js

-- The loop's variables and the semaphore.
pub record IsSound (b : Batch) (s : Drain) : Type 0 where
  pub settled_length : length s.settled ≡ length b.queued
  pub next_le : s.next ≤ length b.queued
  pub checked_lt : (s.checked ≡ false) ⊎ (s.next < length b.queued)
  pub below : AllBelow s.next s.running
  pub bounded : length s.running ≤ b.concurrency
  pub counted : s.scored_count + s.err_count + s.skipped_count + length s.running ≡ s.next
  pub reason :
      (s.stopped ≡ false) ⊎ (s.cancelled ≡ true) ⊎ (s.dry ≡ true) ⊎ (s.next ≡ length b.queued)

-- The state of the entry `i`.
pub record IsTracked (b : Batch) (s : Drain) (i : ℕ) : Type 0 where
  pub honest : (get_or s.settled i false ≡ false) ⊎ ((i < s.next) × (b.outcome i ≢ no_tokens))
  pub accounted :
      (s.next ≤ i)
      ⊎ (is_running i s.running ≡ true)
      ⊎ (get_or s.settled i false ≡ true)
      ⊎ (s.dry ≡ true)

pub length-remove :
    (i : ℕ) (js : List ℕ) → is_running i js ≡ true → length (remove i js) + 1 ≡ length js
length-remove i [] h = cc
length-remove i (j ∷ js) h = ground (arith, length-remove i js)

pub is_running-remove_ne :
    (i k : ℕ) (js : List ℕ) → i ≢ k → is_running k (remove i js) ≡ is_running k js
is_running-remove_ne i k [] ne = refl
is_running-remove_ne i k (j ∷ js) ne = ground (arith, is_running-remove_ne i k js)

AllBelow-remove : (n i : ℕ) (js : List ℕ) → AllBelow n js → AllBelow n (remove i js)
AllBelow-remove n i [] h = tt
AllBelow-remove n i (j ∷ js) h = ground (arith, AllBelow-remove n i js)

AllBelow-suc : (n : ℕ) (js : List ℕ) → AllBelow n js → AllBelow (n + 1) js
AllBelow-suc n [] h = tt
AllBelow-suc n (j ∷ js) h = (omega arith, AllBelow-suc n js h.1)

below_of_running : (n i : ℕ) (js : List ℕ) → AllBelow n js → is_running i js ≡ true → i < n
below_of_running n i [] h r = cc
below_of_running n i (j ∷ js) h r = ground (arith, below_of_running n i js)

pub start-IsSound : (b : Batch) → IsSound b (start b)
unfolding start
start-IsSound b = ground (arith, length-replicate (length b.queued) false)

get_or-fresh : (n i : ℕ) → get_or (replicate n false) i false ≡ false
get_or-fresh zero i = refl
get_or-fresh (suc n) zero = refl
get_or-fresh (suc n) (suc i) = get_or-fresh n i

pub start-IsTracked : (b : Batch) (i : ℕ) → IsTracked b (start b) i
unfolding start
start-IsTracked b i = record {
  honest = inl (get_or-fresh (length b.queued) i);
  accounted = inl (omega arith);
}

conclude-IsSound :
    (b : Batch) (i : ℕ) (o : Outcome) (s : Drain)
    → IsSound b s
    → is_running i s.running ≡ true
    → IsSound b (conclude b i o (record s { running = remove i s.running }))
unfolding conclude
conclude-IsSound b i no_tokens s v r =
    ground (arith, length-remove i s.running r, AllBelow-remove s.next i s.running v.below)
conclude-IsSound b i _ s v r = ground (
  arith,
  length-remove i s.running r,
  AllBelow-remove s.next i s.running v.below,
  length-set s.settled i true,
)

pub move-IsSound : (b : Batch) (s : Drain) (m : Move) → IsSound b s → IsSound b (move b s m)
unfolding move
move-IsSound b s checks v = ground arith
move-IsSound b s acquires v = ground (arith, AllBelow-suc s.next s.running v.below)
move-IsSound b s cancels v = ground arith
move-IsSound b s (ends i) v = elim (Bool-cases (is_running i s.running)) [
  | inl r ↦ rw r (conclude-IsSound b i (b.outcome i) s v r)
  | inr idle ↦ rw idle v
]

conclude-IsTracked :
    (b : Batch) (i k : ℕ) (o : Outcome) (s : Drain)
    → b.outcome i ≡ o
    → IsSound b s
    → is_running i s.running ≡ true
    → IsTracked b s k
    → IsTracked b (conclude b i o (record s { running = remove i s.running })) k
unfolding conclude
conclude-IsTracked b i k no_tokens s e v r t = record {
  honest = t.honest;
  accounted = ground arith;
}
conclude-IsTracked b i k o s e v r t = elim (Bool-cases (nat_eq i k)) [
  | inl same ↦
      (let eq : i ≡ k = ground arith in
        let lt : i < s.next = below_of_running s.next i s.running v.below r in
        let on : get_or (set s.settled i true) i false ≡ true =
          get_or-set_self s.settled i true false (omega (arith, v)) in
        rw (← eq)
          (record { honest = inr (lt, λ d. cc (sym e ∙ d)); accounted = inr (inr (inl on)) }))
  | inr differs ↦
      (let ne : i ≢ k = ground arith in
        ground (
          arith,
          t,
          is_running-remove_ne i k s.running ne,
          get_or-set_ne s.settled i k true false ne,
        ))
]

pub move-IsTracked :
    (b : Batch) (s : Drain) (m : Move) (k : ℕ)
    → IsSound b s
    → IsTracked b s k
    → IsTracked b (move b s m) k
unfolding move
move-IsTracked b s checks k v t = ground arith
move-IsTracked b s acquires k v t = ground arith
move-IsTracked b s cancels k v t = ground arith
move-IsTracked b s (ends i) k v t = elim (Bool-cases (is_running i s.running)) [
  | inl r ↦ rw r (conclude-IsTracked b i k (b.outcome i) s refl v r t)
  | inr idle ↦ rw idle t
]
