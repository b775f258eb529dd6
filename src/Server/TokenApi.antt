-- ===== src/Server/TokenApi.antt =====
-- createTokenHandler (pkg/server/handler_token.go). The name of a request is its code points, none where
-- the body has none; the hash, the id, the random bytes and whether the tokens can be listed are arguments.
use devtrace.Bot.{codes}
use devtrace.Plan.Defs.{plan_or_free}
use devtrace.Base.Time.{Time}
use devtrace.Tenant.Tokens.{create_api_token, ApiToken}
use devtrace.Tenant.Defs.{Tenant}
use devtrace.Server.Names.{is_alnum}
use devtrace.Base.{
  String_eq, [], ◌&&◌, ◌+◌, length, nat_eq, not, ltb, ◌==◌, leb, ◌||◌, none, if◌then◌else◌, false,
  true, some, ◌∷◌, Bool, Option, String, ℕ, List,
}

abbrev pub max_token_name_len : ℕ
max_token_name_len = 64

-- `[a-zA-Z0-9 _.-]*`
abbrev pub are_token_chars : List ℕ → Bool
are_token_chars [] = true
are_token_chars (c ∷ s) =
    (is_alnum c || nat_eq c 32 || nat_eq c b'_' || nat_eq c b'.' || nat_eq c b'-')
    && are_token_chars s

abbrev pub is_token_name : List ℕ → Bool
is_token_name [] = false
is_token_name (c ∷ s) = leb (length (c ∷ s)) max_token_name_len && is_alnum c && are_token_chars s

-- How many tokens a tenant has: the length of ListAPITokens.
abbrev pub count_tokens : String → List ApiToken → ℕ
count_tokens tenant_id [] = 0
count_tokens tenant_id (t ∷ tokens) =
    (if t.tenant_id == tenant_id then 1 else 0) + count_tokens tenant_id tokens

pub data TokenReply : Type 0 where
  token_unauthorized token_bad_request token_limit_reached token_failed : TokenReply
  created : List ℕ → TokenReply

abbrev pub created_or_failed :
    Option (List ℕ × List ApiToken) → List ApiToken → TokenReply × List ApiToken
created_or_failed none tokens = (token_failed, tokens)
created_or_failed (some r) tokens = (created r.0, r.1)

-- `p.MaxAPIKeys > 0 && len(existing) >= p.MaxAPIKeys`
abbrev pub is_at_limit : Tenant → List ApiToken → Bool
is_at_limit tn tokens =
    let limit = (plan_or_free tn.plan).max_api_keys in
    ltb 0 limit && leb limit (count_tokens tn.id tokens)

abbrev pub create_for :
    (List ℕ → String)
    → Tenant
    → List ℕ
    → String
    → String
    → Bool
    → Option (List ℕ)
    → Time
    → List ApiToken
    → TokenReply × List ApiToken
create_for hash tn name_codes name id can_list random now tokens =
    if not (is_token_name name_codes)
    then (token_bad_request, tokens)
    else (if not can_list
        then (token_failed, tokens)
        else (if is_at_limit tn tokens
            then (token_limit_reached, tokens)
            else created_or_failed (create_api_token hash random id tn.id name now tokens) tokens))

unfoldable pub create_token_handler :
    (List ℕ → String)
    → Option Tenant
    → String
    → String
    → Bool
    → Option (List ℕ)
    → Time
    → List ApiToken
    → TokenReply × List ApiToken
create_token_handler hash none name id can_list random now tokens = (token_unauthorized, tokens)
create_token_handler hash (some tn) name id can_list random now tokens =
    create_for hash tn (codes name) name id can_list random now tokens
