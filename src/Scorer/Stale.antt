-- ===== src/Scorer/Stale.antt =====
-- rescoreStale (pkg/background/scorer.go), as moves of one state like drainQueue. The entries are
-- the stale contributors; what scoreContributor returns for one is a parameter.
use devtrace.Scorer.Stats.{record_batch, ScorerStats}
use devtrace.Scorer.Drain.{
  remove, is_running, Outcome, Move, scored, no_tokens, terminal, failed, checks, acquires, cancels,
  ends,
}
use devtrace.Base.{
  length, ltb, not, nat_eq, ◌+◌, ◌||◌, true, ◌∷◌, if◌then◌else◌, [], Bool, false, ℕ, List,
}

pub record StaleBatch : Type 0 where
  pub total : ℕ
  pub concurrency : ℕ
  pub outcome : ℕ → Outcome

pub record Stale : Type 0 where
  pub next : ℕ
  pub checked : Bool
  pub stopped : Bool
  pub cancelled : Bool
  pub dry : Bool
  pub running : List ℕ
  pub scored_count : ℕ
  pub err_count : ℕ
  -- The contributors whose scored_at is bumped.
  pub tombstoned : List ℕ

unfoldable pub start_stale : Stale
start_stale = record {
  next = 0;
  checked = false;
  stopped = false;
  cancelled = false;
  dry = false;
  running = [];
  scored_count = 0;
  err_count = 0;
  tombstoned = [];
}

-- The body of the goroutine of contributor `i`, behind scoreContributor.
unfoldable pub conclude_stale : ℕ → Outcome → Stale → Stale
conclude_stale i no_tokens s = record s { dry = true; err_count = s.err_count + 1 }
conclude_stale i terminal s = record s { tombstoned = i ∷ s.tombstoned }
conclude_stale i failed s = record s { err_count = s.err_count + 1 }
conclude_stale i scored s = record s { scored_count = s.scored_count + 1 }

unfoldable pub move_stale : StaleBatch → Stale → Move → Stale
unfolding conclude_stale
move_stale b s checks =
    if s.stopped || s.checked
    then s
    else (if s.cancelled || s.dry || nat_eq s.next b.total
        then record s { stopped = true }
        else record s { checked = true })
move_stale b s acquires =
    if not s.checked
    then s
    else (if s.cancelled
        then record s { stopped = true; checked = false }
        else (if ltb (length s.running) b.concurrency
            then record s { running = s.next ∷ s.running; next = s.next + 1; checked = false }
            else s))
move_stale b s cancels = record s { cancelled = true }
move_stale b s (ends i) =
    if is_running i s.running
    then conclude_stale i (b.outcome i) (record s { running = remove i s.running })
    else s

unfoldable pub moves_stale : StaleBatch → Stale → List Move → Stale
unfolding move_stale
moves_stale b s [] = s
moves_stale b s (m ∷ ms) = moves_stale b (move_stale b s m) ms

-- What the statistics get: the pass knows no hints.
abbrev pub record_stale : ScorerStats → Stale → ScorerStats
record_stale stats s = record_batch stats s.scored_count s.err_count 0
