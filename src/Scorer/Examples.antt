-- ===== src/Scorer/Examples.antt =====
-- Tests of the scorer, and its theorems at a concrete batch.
use devtrace.Scorer.Queue.{enqueue_for_scoring, dequeue_for_scoring, QueueRow}
use mathlib.Core.List.{Mem}
use devtrace.Base.Time.{minute}
use devtrace.Pool.Quota.{TokenQuota}
use devtrace.Scorer.DrainLaws.{drain-no_loss}
use devtrace.Scorer.Drain.{
  failed, requeue_unscored, ends, is_over, requeued, acquires, scored, no_tokens, start, checks,
  Outcome, QueueEntry, moves, Move, Batch,
}
use devtrace.Base.{
  ◌<◌, get_or, String_eq, map, zero, refl, true, suc, ◌⊎◌, false, [], ◌*◌, ◌≡◌, ◌∷◌, ◌≢◌, ℕ, String,
  List,
}

abbrev entry : String → QueueEntry
entry name = record { username = name; provider = "github"; priority = 5 }

-- The second entry finds the pool dry.
abbrev outcome_at : ℕ → Outcome
outcome_at zero = scored
outcome_at (suc zero) = no_tokens
outcome_at _ = failed

abbrev batch : Batch
batch = record {
  queued = entry "ada" ∷ entry "bob" ∷ entry "eve" ∷ [];
  concurrency = 2;
  outcome = outcome_at;
  has_hints = λ i. true;
  can_enqueue = λ q. true;
}

-- The second goroutine ends first, and the loop stops before the third entry.
abbrev order : List Move
order = checks ∷ acquires ∷ checks ∷ acquires ∷ ends 1 ∷ checks ∷ ends 0 ∷ []

handed_back : requeued batch (moves batch (start batch) order) ≡ entry "bob" ∷ entry "eve" ∷ []
unfolding moves start requeued requeue_unscored
handed_back = refl

finished_order : is_over (moves batch (start batch) order) ≡ true
unfolding moves start
finished_order = refl

not_cancelled : (moves batch (start batch) order).cancelled ≡ false
unfolding moves start
not_cancelled = refl

drain-no_loss_example :
    let s = moves batch (start batch) order in
    ((get_or s.settled 1 false ≡ true) × (1 < s.next) × (outcome_at 1 ≢ no_tokens))
    ⊎ Mem (entry "bob") (requeued batch s)
    ⊎ (batch.can_enqueue (entry "bob") ≡ false)
drain-no_loss_example = drain-no_loss batch order 1 (entry "bob") refl finished_order not_cancelled

abbrev low : TokenQuota
low = record {
  index = 0;
  label = "a";
  installation_id = 7;
  limit = 5000;
  remaining = 400;
  reset = 3 * minute;
  search_limit = 30;
  search_remaining = 20;
  search_reset = minute;
  graphql_limit = 5000;
  graphql_remaining = 5000;
  graphql_reset = minute;
  error = "";
}

abbrev queue : List QueueRow
queue =
    record { entry = record { username = "ada"; provider = "github"; priority = 3 }; queued_at = 9 }
    ∷ record {
      entry = record { username = "bob"; provider = "github"; priority = 1 };
      queued_at = 10;
    }
    ∷ []

-- The upgraded row has the time of its upgrade, so the other one comes first.
upgraded_row_last :
    map
      (λ (r : QueueRow). r.entry.username)
      (dequeue_for_scoring 5 (enqueue_for_scoring queue "ada" "github" 1 20)).0
    ≡ "bob" ∷ "ada" ∷ []
unfolding dequeue_for_scoring enqueue_for_scoring
upgraded_row_last = refl

abbrev ada : String
ada = "ada"

abbrev github : String
github = "github"
