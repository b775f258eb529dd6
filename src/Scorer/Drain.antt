-- ===== src/Scorer/Drain.antt =====
-- drainQueue and requeueUnscored (pkg/background/scorer.go). The loop and its goroutines are moves
-- of one state, in the order in which they happen: the check at the head of the loop, the
-- acquisition of the semaphore with the spawn, the end of a goroutine, and the cancellation of the
-- context. What scoreContributor returns for an entry is a parameter.
use devtrace.Base.{
  ltb, not, length, set, replicate, nat_eq, ◌||◌, ◌+◌, ◌∷◌, any, [], ◌&&◌, if◌then◌else◌, true,
  false, List, ℕ, Bool, String,
}

pub record QueueEntry : Type 0 where
  pub username : String
  pub provider : String
  pub priority : ℕ

-- The result of scoreContributor: nil, ErrNoTokens, an error that isTerminalError, any other.
pub data Outcome : Type 0 where
  scored no_tokens terminal failed : Outcome

pub record Batch : Type 0 where
  pub queued : List QueueEntry
  pub concurrency : ℕ
  pub outcome : ℕ → Outcome
  pub has_hints : ℕ → Bool
  -- Whether EnqueueForScoring takes an entry back.
  pub can_enqueue : QueueEntry → Bool

pub record Drain : Type 0 where
  pub next : ℕ
  -- The loop has passed its checks and waits for the semaphore.
  pub checked : Bool
  pub stopped : Bool
  pub cancelled : Bool
  pub dry : Bool
  pub running : List ℕ
  pub settled : List Bool
  pub scored_count : ℕ
  pub err_count : ℕ
  pub skipped_count : ℕ
  pub hints_count : ℕ

pub data Move : Type 0 where
  checks acquires cancels : Move
  ends : ℕ → Move

unfoldable pub start : Batch → Drain
start b = record {
  next = 0;
  checked = false;
  stopped = false;
  cancelled = false;
  dry = false;
  running = [];
  settled = replicate (length b.queued) false;
  scored_count = 0;
  err_count = 0;
  skipped_count = 0;
  hints_count = 0;
}

abbrev pub is_running : ℕ → List ℕ → Bool
is_running i running = any (λ j. nat_eq j i) running

abbrev pub remove : ℕ → List ℕ → List ℕ
remove i [] = []
remove i (j ∷ js) = if nat_eq j i then js else j ∷ remove i js

-- The body of the goroutine of entry `i`, behind scoreContributor.
unfoldable pub conclude : Batch → ℕ → Outcome → Drain → Drain
conclude b i no_tokens s = record s { dry = true; err_count = s.err_count + 1 }
conclude b i terminal s = record s {
  skipped_count = s.skipped_count + 1;
  settled = set s.settled i true;
}
conclude b i failed s = record s { err_count = s.err_count + 1; settled = set s.settled i true }
conclude b i scored s = record s {
  settled = set s.settled i true;
  scored_count = s.scored_count + 1;
  hints_count = s.hints_count + (if b.has_hints i then 1 else 0);
}

-- A move that is not possible leaves the state alone.
unfoldable pub move : Batch → Drain → Move → Drain
unfolding conclude
move b s checks =
    if s.stopped || s.checked
    then s
    else (if s.cancelled || s.dry || nat_eq s.next (length b.queued)
        then record s { stopped = true }
        else record s { checked = true })
move b s acquires =
    if not s.checked
    then s
    else (if s.cancelled
        then record s { stopped = true; checked = false }
        else (if ltb (length s.running) b.concurrency
            then record s { running = s.next ∷ s.running; next = s.next + 1; checked = false }
            else s))
move b s cancels = record s { cancelled = true }
move b s (ends i) =
    if is_running i s.running
    then conclude b i (b.outcome i) (record s { running = remove i s.running })
    else s

unfoldable pub moves : Batch → Drain → List Move → Drain
unfolding move
moves b s [] = s
moves b s (m ∷ ms) = moves b (move b s m) ms

-- `wg.Wait()` behind the loop.
abbrev pub is_over : Drain → Bool
is_over s = s.stopped && nat_eq (length s.running) 0

-- The entries that EnqueueForScoring takes back; its error is only logged.
unfoldable pub requeue_unscored :
    (QueueEntry → Bool) → List QueueEntry → List Bool → List QueueEntry
requeue_unscored can_enqueue [] settled = []
requeue_unscored can_enqueue (q ∷ qs) [] = []
requeue_unscored can_enqueue (q ∷ qs) (done ∷ settled) =
    let rest = requeue_unscored can_enqueue qs settled in
    if done then rest else (if can_enqueue q then q ∷ rest else rest)

unfoldable pub requeued : Batch → Drain → List QueueEntry
requeued b s = if s.dry then requeue_unscored b.can_enqueue b.queued s.settled else []
