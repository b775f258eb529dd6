-- ===== src/Tenant/TokenLaws.antt =====
-- Only its owner revokes a token, and validation changes only when a token was last used.
use devtrace.Middleware.Csrf.{hex_encode}
use devtrace.Tenant.Defs.{Tenant}
use devtrace.Tenant.Tokens.{
  token_prefix, revoke_api_token, validate_api_token, create_api_token, has_hash, is_owned,
  use_token, delete_token, owner_of, ApiToken,
}
use devtrace.Base.Time.{Time}
use devtrace.Base.{
  some, ◌++◌, Option, ℕ, eq_iff, String_eq, refl, [], inr, arith, false, inl, none, any, true,
  Bool-cases, ◌≡◌, ◌==◌, ◌∷◌, String, List,
}

owner_of-use_token :
    (h used : String) (now : Time) (tokens : List ApiToken)
    → owner_of h (use_token used now tokens) ≡ owner_of h tokens
owner_of-use_token h used now [] = refl
owner_of-use_token h used now (t ∷ tokens) = elim (Bool-cases (t.token_hash == used)) [
  | inl same ↦ rw (same, owner_of-use_token h used now tokens) refl
  | inr other ↦ rw (other, owner_of-use_token h used now tokens) refl
]

-- No row has the id and another owner.
abbrev pub AreOthers : String → String → List ApiToken → Type 0
AreOthers tenant_id id [] = Unit {0}
AreOthers tenant_id id (t ∷ tokens) =
    ((t.id == id) ≡ true → (t.tenant_id == tenant_id) ≡ false) × AreOthers tenant_id id tokens

delete_token-others :
    (tenant_id id : String) (tokens : List ApiToken)
    → AreOthers tenant_id id tokens
    → (delete_token tenant_id id tokens ≡ tokens) × (any (is_owned tenant_id id) tokens ≡ false)
delete_token-others tenant_id id [] h = (refl, refl)
delete_token-others tenant_id id (t ∷ tokens) (foreign, h) =
    let rest = delete_token-others tenant_id id tokens h in
    let here : is_owned tenant_id id t ≡ false = ground arith in
    rw (here, rest.0, rest.1) (refl, refl)

owner_of-delete_token :
    (tenant_id id h : String) (tokens : List ApiToken)
    → owner_of h tokens ≡ none
    → owner_of h (delete_token tenant_id id tokens) ≡ none
owner_of-delete_token tenant_id id h [] e = refl
owner_of-delete_token tenant_id id h (t ∷ tokens) e =
    ground (arith, owner_of-delete_token tenant_id id h tokens)

owner_of-absent :
    (h : String) (tokens : List ApiToken) → has_hash h tokens ≡ false → owner_of h tokens ≡ none
owner_of-absent h [] e = refl
owner_of-absent h (t ∷ tokens) e = ground (arith, owner_of-absent h tokens)

same_text : (s : String) → (s == s) ≡ true
same_text s = (eq_iff s s).1 refl

-- A created API token gives its tenant, also after any other token was used. Another tenant
-- cannot revoke it: if that tenant has no token of the same id, the table stays as it is and an
-- error is returned. When its owner revokes it, that succeeds and the token gives nobody.
pub api_token-lifetime :
    (hash : List ℕ → String) (tenants : String → Option Tenant) (raw : List ℕ)
    (id tenant_id name stranger : String) (now : Time) (tokens : List ApiToken)
    → has_hash (hash (token_prefix ++ hex_encode raw)) tokens ≡ false
    → (tenant_id == stranger) ≡ false
    → AreOthers stranger id tokens
    → let token = token_prefix ++ hex_encode raw in
      (created : List ApiToken) × (create_api_token hash (some raw) id tenant_id name now tokens
        ≡ some (token, created))
      × ((other : List ℕ) (used later : Time)
          → (validate_api_token hash tenants token later
              (validate_api_token hash tenants other used created).1).0
            ≡ tenants tenant_id)
      × (revoke_api_token stranger id created ≡ (created, false))
      × ((revoke_api_token tenant_id id created).1 ≡ true)
      × ((later : Time)
          → (validate_api_token hash tenants token later
              (revoke_api_token tenant_id id created).0).0
            ≡ none)
unfolding create_api_token validate_api_token revoke_api_token
api_token-lifetime hash tenants raw id tenant_id name stranger now tokens fresh foreign others =
    let token = token_prefix ++ hex_encode raw in
    let row : ApiToken = record {
      id = id;
      tenant_id = tenant_id;
      name = name;
      token_hash = hash token;
      last_used = none;
      created_at = now;
    } in
    let kept = delete_token-others stranger id (row ∷ tokens) (λ e. foreign, others) in
    let absent =
      owner_of-delete_token tenant_id id (hash token) tokens
        (owner_of-absent (hash token) tokens fresh) in
    (
      row ∷ tokens,
      rw fresh refl,
      λ other used later.
          rw
            (
              owner_of-use_token (hash token) (hash other) used (row ∷ tokens),
              same_text (hash token),
            )
            refl,
      rw (kept.0, kept.1) refl,
      rw (same_text id, same_text tenant_id) refl,
      λ later. rw (same_text id, same_text tenant_id, absent) refl,
    )
