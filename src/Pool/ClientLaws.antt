-- ===== src/Pool/ClientLaws.antt =====
-- What a call through the pool does to the pool, and what its result says.
use devtrace.Pool.Token.{token}
use devtrace.Pool.Reports.{active_count}
use devtrace.Pool.Invariant.{IsValid}
use devtrace.Pool.Defs.{TokenPool}
use devtrace.Pool.Client.{
  err_no_tokens, gave_up, interrupted, all_exhausted, all_invalid, is_rate_limited, call_failed,
  is_auth_failure, error, ok, stop, returned, CallError, Step, Result, Surroundings,
}
use devtrace.Pool.Client.{again}
use devtrace.Base.{String_eq, ◌+◌, ◌<◌, ◌≤◌, ◌⊎◌, true, false, ◌≡◌, String, ℕ}

-- Why a result is returned, with the pool as it is then.
abbrev pub IsExplained : {A : Type 0} → Surroundings A → ℕ → TokenPool → Result A → Type 0
IsExplained env k q (returned x) = (t : String) × (env.call k t ≡ ok x)
IsExplained env k q (call_failed e) =
    (t : String) × (env.call k t ≡ error e)
    × (is_auth_failure e ≡ false)
    × (is_rate_limited e ≡ false)
IsExplained env k q (all_invalid e) =
    (t : String) × (env.call k t ≡ error e)
    × (is_auth_failure e ≡ true)
    × (active_count q (env.clock k).counted_at ≡ 0)
IsExplained env k q (all_exhausted e) =
    (t : String) × (env.call k t ≡ error e)
    × (is_rate_limited e ≡ true)
    × (active_count q (env.clock k).counted_at ≡ 0)
IsExplained env k q interrupted = (env.is_done k ≡ true) ⊎ (env.is_done_in_wait k ≡ true)
IsExplained env k q err_no_tokens =
    (p : TokenPool) × (q ≡ (token p (env.clock k).picked_at).0)
    × ((token p (env.clock k).picked_at).1 ≡ "")
IsExplained env k q gave_up = ⊥

-- The attempt made its call and met a 401 or a rate limit.
abbrev pub IsRetried : {A : Type 0} → Surroundings A → ℕ → Type 0
IsRetried env k =
    (t : String) × (e : CallError) × (env.call k t ≡ error e)
    × ((is_auth_failure e ≡ true) ⊎ (is_rate_limited e ≡ true))

abbrev IsExplainedStep : {A : Type 0} → Surroundings A → ℕ → TokenPool → Step A → Type 0
IsExplainedStep env k q (stop r) = IsExplained env k q r
IsExplainedStep env k q again = IsRetried env k

-- The other users of the pool keep it valid.
abbrev pub KeepsValid : {A : Type 0} → Surroundings A → Type 0
KeepsValid env =
    (j : ℕ) (q : TokenPool)
    → IsValid q
    → IsValid (env.others j q) × IsValid (env.others_in_call j q)

-- The attempts from `k` on and before `j` all met a 401 or a rate limit.
abbrev AllRetried : {A : Type 0} → Surroundings A → ℕ → ℕ → Type 0
AllRetried env k j = (i : ℕ) → k ≤ i → i < j → IsRetried env i

-- A valid pool, and a result that the attempts from `k` on explain: the last one made, with all
-- before it retried, or all of them retried.
abbrev IsSettled : {A : Type 0} → Surroundings A → ℕ → ℕ → TokenPool × Result A → Type 0
IsSettled env left k x =
    IsValid x.0
    × (((x.1 ≡ gave_up) × AllRetried env k (k + left))
        ⊎ ((j : ℕ) × (k ≤ j) × (j < k + left) × IsExplained env j x.0 x.1 × AllRetried env k j))
