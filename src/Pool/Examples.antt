-- ===== src/Pool/Examples.antt =====
-- Tests of the token pool, and its theorems at concrete pools.
use devtrace.Pool.Backoff.{exhaust-backoff}
use devtrace.Pool.Quota.{
  aggregate_graphql_quota, aggregate_search_quota, aggregate_quota, TokenQuota,
}
use devtrace.Pool.Reports.{earliest_reset, active_count}
use devtrace.Pool.Token.{pick, token}
use devtrace.Pool.Selection.{pick-Chosen, Chosen}
use devtrace.Pool.Marks.{find, exhaust}
use devtrace.Base.Time.{Time, minute}
use devtrace.Base.{
  String_eq, eq_iff, ◌+◌, some, refl, false, ◌≢◌, length, ◌≡◌, [], List, arith, ◌∷◌, ◌*◌,
}
use devtrace.Pool.Defs.{new_token_pool_from_entries, set_refresh_ch, PoolEntry, TokenPool}
use devtrace.Pool.Invariant.{
  signals, run-new-IsValid, invalidates, takes, Call, run, exhaust-IsValid, IsValid,
}

abbrev org_entry : PoolEntry
org_entry = record {
  installation_id = 7;
  label = "org";
  token = "tok-org";
  expires_at = 60 * minute;
}

abbrev pat_entry : PoolEntry
pat_entry = record { installation_id = 0; label = "PAT"; token = "tok-pat"; expires_at = 0 }

abbrev pair : TokenPool
pair = record {
  entries = org_entry ∷ pat_entry ∷ [];
  counts = 0 ∷ 0 ∷ [];
  exhausted = false ∷ false ∷ [];
  exhausted_until = 0 ∷ 0 ∷ [];
  current = 0;
  refresh_ch = some (record { capacity = 1; pending = 0 });
  invalidations = [];
}

pair_made :
    set_refresh_ch
      (new_token_pool_from_entries (org_entry ∷ pat_entry ∷ []))
      (record { capacity = 1; pending = 0 })
    ≡ pair
unfolding set_refresh_ch new_token_pool_from_entries
pair_made = refl

pair-IsValid : IsValid pair
pair-IsValid = omega arith

-- Tokens rotate; near the expiry of the first the refresh is signalled, and the token still used.
rotates :
    ((token pair minute).1 ≡ "tok-org")
    × ((token (token pair minute).0 minute).1 ≡ "tok-pat")
    × ((token pair (58 * minute)).1 ≡ "tok-org")
    × ((token pair (58 * minute)).0.refresh_ch ≡ some (record { capacity = 1; pending = 1 }))
unfolding token
rotates = (refl, refl, refl, refl)

both_out : TokenPool
both_out = exhaust (exhaust pair "tok-org" (30 * minute) minute) "tok-pat" (20 * minute) minute

dry_reports :
    ((token both_out (2 * minute)).1 ≡ "")
    × (earliest_reset both_out (2 * minute) ≡ 20 * minute)
    × (active_count both_out (2 * minute) ≡ 0)
    × ((token both_out (20 * minute + 1)).1 ≡ "tok-pat")
unfolding both_out exhaust token earliest_reset active_count
dry_reports = (refl, refl, refl, refl)

both_out-IsValid : IsValid both_out
unfolding both_out
both_out-IsValid =
    exhaust-IsValid _ "tok-pat" (20 * minute) minute
      (exhaust-IsValid pair "tok-org" (30 * minute) minute pair-IsValid)

both_out_length : length both_out.entries ≡ 2
unfolding both_out exhaust
both_out_length = refl

run-new-IsValid_example : IsValid (
    run
      (new_token_pool_from_entries (pat_entry ∷ []))
      ((1, takes) ∷ (2, invalidates "tok-pat") ∷ []))
run-new-IsValid_example =
    run-new-IsValid (pat_entry ∷ []) ((1, takes) ∷ (2, invalidates "tok-pat") ∷ [])

pick-Chosen_example : Chosen pair minute (pick pair minute)
pick-Chosen_example = pick-Chosen pair minute pair-IsValid (omega arith)

abbrev later_calls : List (Time × Call)
later_calls = (2 * minute, takes) ∷ (3 * minute, invalidates "tok-pat") ∷ (4 * minute, signals) ∷ []

exhaust-backoff_example :
    (pick (run (exhaust pair "tok-org" (30 * minute) minute) later_calls) (29 * minute)).1 ≢ some 0
unfolding find
exhaust-backoff_example =
    exhaust-backoff pair "tok-org" 0 (30 * minute) minute (29 * minute) later_calls pair-IsValid
      refl
      (omega arith, ((omega arith, λ e. cc ((eq_iff "tok-pat" "tok-org").1 e)), (omega arith, tt)))
      (omega arith)

abbrev healthy : TokenQuota
healthy = record {
  index = 0;
  label = "org";
  installation_id = 7;
  limit = 5000;
  remaining = 1250;
  reset = 90 * minute;
  search_limit = 30;
  search_remaining = 3;
  search_reset = minute;
  graphql_limit = 5000;
  graphql_remaining = 5000;
  graphql_reset = 0;
  error = "";
}

abbrev failed : TokenQuota
failed = record healthy { error = "decode error"; limit = 0; remaining = 0 }

aggregates :
    (aggregate_quota (healthy ∷ failed ∷ []) ≡ (25, 90 * minute))
    × (aggregate_search_quota (healthy ∷ failed ∷ []) ≡ (10, minute))
    × (aggregate_graphql_quota (failed ∷ []) ≡ (100, 0))
unfolding aggregate_quota aggregate_search_quota aggregate_graphql_quota
aggregates = (refl, refl, refl)
