-- ===== src/Server/TokenLimit.antt =====
-- The limit of API keys.
use devtrace.Middleware.Csrf.{hex_encode}
use devtrace.Bot.{codes}
use devtrace.Plan.Defs.{plan_or_free}
use devtrace.Base.Time.{Time}
use devtrace.Server.TokenApi.{
  is_at_limit, is_token_name, created_or_failed, count_tokens, create_token_handler,
}
use devtrace.Tenant.Tokens.{token_prefix, has_hash, insert_token, ApiToken, create_api_token}
use devtrace.Tenant.Defs.{Tenant}
use devtrace.Base.{
  leb, ◌&&◌, ltb, Bool, none, String_eq, inr, ◌++◌, inl, false, arith, Bool-cases, ◌≡◌,
  if◌then◌else◌, ◌==◌, ◌+◌, ◌<◌, ◌≤◌, some, Option, String, ℕ, List,
}

count_inserted :
    (hash : List ℕ → String) (raw : List ℕ) (id tenant_id name other : String) (now : Time)
    (tokens : List ApiToken)
    → count_tokens other
        (created_or_failed (insert_token hash raw id tenant_id name now tokens) tokens).1
      ≤ count_tokens other tokens + (if tenant_id == other then 1 else 0)
count_inserted hash raw id tenant_id name other now tokens =
    elim (Bool-cases (has_hash (hash raw) tokens)) [
      | inl taken ↦ rw taken (omega arith)
      | inr fresh ↦ rw fresh (omega arith)
    ]

count_created :
    (hash : List ℕ → String) (random : Option (List ℕ)) (id tenant_id name other : String)
    (now : Time) (tokens : List ApiToken)
    → count_tokens other
        (created_or_failed (create_api_token hash random id tenant_id name now tokens) tokens).1
      ≤ count_tokens other tokens + (if tenant_id == other then 1 else 0)
unfolding create_api_token
count_created hash none id tenant_id name other now tokens = omega arith
count_created hash (some raw) id tenant_id name other now tokens =
    count_inserted hash (token_prefix ++ hex_encode raw) id tenant_id name other now tokens

one_at_most : (b : Bool) → (if b then 1 else 0) ≤ 1
one_at_most b = ground arith

zero_if : (b : Bool) → b ≡ false → (if b then 1 else 0) ≤ 0
zero_if b e = ground arith

below_limit : (limit n : ℕ) → 0 < limit → ltb 0 limit && leb limit n ≡ false → n < limit
below_limit limit n h e = ground arith

-- A tenant whose plan limits its keys and that has no more tokens than the limit has no more than
-- the limit after any request for a new one; other tenants have no more tokens than before.
pub create_token_handler-limit :
    (hash : List ℕ → String) (tn : Tenant) (name id other : String) (can_list : Bool)
    (random : Option (List ℕ)) (now : Time) (tokens : List ApiToken)
    → let limit = (plan_or_free tn.plan).max_api_keys in
      let after = (create_token_handler hash (some tn) name id can_list random now tokens).1 in
      0 < limit
      → count_tokens tn.id tokens ≤ limit
      → (count_tokens tn.id after ≤ limit)
        × ((tn.id == other) ≡ false → count_tokens other after ≤ count_tokens other tokens)
unfolding create_token_handler
create_token_handler-limit hash tn name id other can_list random now tokens positive le =
    elim (Bool-cases (is_token_name (codes name))) [
      | inr bad ↦ rw bad (le, λ e. omega arith)
      | inl good ↦ rw good (elim (Bool-cases can_list) [
        | inr down ↦ rw down (le, λ e. omega arith)
        | inl up ↦ rw up (elim (Bool-cases (is_at_limit tn tokens)) [
          | inl full ↦ rw full (le, λ e. omega arith)
          | inr room ↦
              let own = count_created hash random id tn.id name tn.id now tokens in
              let others = count_created hash random id tn.id name other now tokens in
              let below =
                below_limit (plan_or_free tn.plan).max_api_keys (count_tokens tn.id tokens) positive
                  room in
              rw room (
                omega (arith, own, below, one_at_most (tn.id == tn.id)),
                λ e. omega (arith, others, zero_if (tn.id == other) e),
              )
        ])
      ])
    ]
