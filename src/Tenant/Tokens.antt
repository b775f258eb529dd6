-- ===== src/Tenant/Tokens.antt =====
-- API tokens (pkg/tenant/apitoken.go): the statements on the table of tokens. The id of a new row,
-- the hash and the random bytes are arguments.
use devtrace.Middleware.Csrf.{hex_encode}
use devtrace.Tenant.Sessions.{tenant_of}
use devtrace.Tenant.Defs.{Tenant}
use devtrace.Base.Time.{Time}
use devtrace.Base.{
  ◌&&◌, String_eq, ◌++◌, ◌||◌, any, ◌==◌, none, some, if◌then◌else◌, false, [], Bool, ◌∷◌, Option,
  ℕ, String, List,
}

pub record ApiToken : Type 0 where
  pub id : String
  pub tenant_id : String
  pub name : String
  pub token_hash : String
  pub last_used : Option Time
  pub created_at : Time

-- "dt_"
abbrev pub token_prefix : List ℕ
token_prefix = b'd' ∷ b't' ∷ b'_' ∷ []

abbrev pub has_hash : String → List ApiToken → Bool
has_hash h [] = false
has_hash h (t ∷ tokens) = t.token_hash == h || has_hash h tokens

-- The token and the table; none is an error, a hash that is there already included.
abbrev pub insert_token :
    (List ℕ → String)
    → List ℕ
    → String
    → String
    → String
    → Time
    → List ApiToken
    → Option (List ℕ × List ApiToken)
insert_token hash raw_token id tenant_id name now tokens =
    if has_hash (hash raw_token) tokens
    then none
    else some (
      raw_token,
      record {
        id = id;
        tenant_id = tenant_id;
        name = name;
        token_hash = hash raw_token;
        last_used = none;
        created_at = now;
      }
          ∷ tokens,
    )

unfoldable pub create_api_token :
    (List ℕ → String)
    → Option (List ℕ)
    → String
    → String
    → String
    → Time
    → List ApiToken
    → Option (List ℕ × List ApiToken)
create_api_token hash none id tenant_id name now tokens = none
create_api_token hash (some raw) id tenant_id name now tokens =
    insert_token hash (token_prefix ++ hex_encode raw) id tenant_id name now tokens

-- The UPDATE and what it returns.
abbrev pub use_token : String → Time → List ApiToken → List ApiToken
use_token h now [] = []
use_token h now (t ∷ tokens) =
    (if t.token_hash == h then record t { last_used = some now } else t) ∷ use_token h now tokens

abbrev pub owner_of : String → List ApiToken → Option String
owner_of h [] = none
owner_of h (t ∷ tokens) =
    let rest = owner_of h tokens in if t.token_hash == h then some t.tenant_id else rest

-- The tenant, or none for ErrTokenInvalid, and the table.
unfoldable pub validate_api_token :
    (List ℕ → String)
    → (String → Option Tenant)
    → List ℕ
    → Time
    → List ApiToken
    → Option Tenant × List ApiToken
validate_api_token hash tenants raw_token now tokens =
    (tenant_of tenants (owner_of (hash raw_token) tokens), use_token (hash raw_token) now tokens)

abbrev pub is_owned : String → String → ApiToken → Bool
is_owned tenant_id id t = t.id == id && t.tenant_id == tenant_id

abbrev pub delete_token : String → String → List ApiToken → List ApiToken
delete_token tenant_id id [] = []
delete_token tenant_id id (t ∷ tokens) =
    let rest = delete_token tenant_id id tokens in
    if is_owned tenant_id id t then rest else t ∷ rest

-- The table, and whether a row was deleted; if none was, an error is returned.
unfoldable pub revoke_api_token : String → String → List ApiToken → List ApiToken × Bool
revoke_api_token tenant_id id tokens =
    (delete_token tenant_id id tokens, any (is_owned tenant_id id) tokens)
