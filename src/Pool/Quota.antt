-- ===== src/Pool/Quota.antt =====
-- Rate-limit quotas of the tokens: TokenQuota, CheckQuotas and the aggregates over a family. Limits
-- and remainders are counts that GitHub returns, so they are not negative. The HTTP call of
-- checkTokenRateLimit is a parameter.
use devtrace.Base.Time.{Time, is_zero, before}
use devtrace.Base.{
  String_eq, ◌||◌, ◌/◌, ◌&&◌, ◌*◌, [], ◌+◌, nat_eq, not, ◌∷◌, List, if◌then◌else◌, String, ℕ, ◌==◌,
}
use devtrace.Pool.Defs.{TokenPool, PoolEntry}

pub record TokenQuota : Type 0 where
  pub index : ℕ
  pub label : String
  pub installation_id : ℕ
  pub limit : ℕ
  pub remaining : ℕ
  pub reset : Time
  pub search_limit : ℕ
  pub search_remaining : ℕ
  pub search_reset : Time
  pub graphql_limit : ℕ
  pub graphql_remaining : ℕ
  pub graphql_reset : Time
  pub error : String

check_from : (String → TokenQuota) → ℕ → List PoolEntry → List TokenQuota
check_from check_token_rate_limit i [] = []
check_from check_token_rate_limit i (e ∷ es) =
    record (check_token_rate_limit e.token) {
      index = i;
      label = e.label;
      installation_id = e.installation_id;
    }
    ∷ check_from check_token_rate_limit (i + 1) es

-- CheckQuotas: every answer is stamped with its entry's position, label and installation.
unfoldable pub check_quotas : (String → TokenQuota) → TokenPool → List TokenQuota
unfolding check_from
check_quotas check_token_rate_limit p = check_from check_token_rate_limit 0 p.entries

-- What a family's pick function reads of a quota.
pub record Family : Type 0 where
  pub limit : ℕ
  pub remaining : ℕ
  pub reset : Time

abbrev pub core_family : TokenQuota → Family
core_family q = record { limit = q.limit; remaining = q.remaining; reset = q.reset }

abbrev pub search_family : TokenQuota → Family
search_family q = record {
  limit = q.search_limit;
  remaining = q.search_remaining;
  reset = q.search_reset;
}

abbrev pub graphql_family : TokenQuota → Family
graphql_family q = record {
  limit = q.graphql_limit;
  remaining = q.graphql_remaining;
  reset = q.graphql_reset;
}

-- The variables of the loop in `aggregate`.
abbrev pub add_quota : (TokenQuota → Family) → Family → TokenQuota → Family
add_quota pick total q = if not (q.error == "") then total else record {
  limit = total.limit + (pick q).limit;
  remaining = total.remaining + (pick q).remaining;
  reset =
      if not (is_zero (pick q).reset) && (is_zero total.reset || before (pick q).reset total.reset)
      then (pick q).reset
      else total.reset;
}

unfoldable pub totals : (TokenQuota → Family) → Family → List TokenQuota → Family
totals pick total [] = total
totals pick total (q ∷ qs) = totals pick (add_quota pick total q) qs

unfoldable pub aggregate : (TokenQuota → Family) → List TokenQuota → ℕ × Time
unfolding totals
aggregate pick quotas =
    let total = totals pick (record { limit = 0; remaining = 0; reset = 0 }) quotas in
    if nat_eq total.limit 0
    then (100, total.reset)
    else (total.remaining * 100 / total.limit, total.reset)

unfoldable pub aggregate_quota : List TokenQuota → ℕ × Time
unfolding aggregate
aggregate_quota = aggregate core_family

unfoldable pub aggregate_search_quota : List TokenQuota → ℕ × Time
unfolding aggregate
aggregate_search_quota = aggregate search_family

unfoldable pub aggregate_graphql_quota : List TokenQuota → ℕ × Time
unfolding aggregate
aggregate_graphql_quota = aggregate graphql_family
