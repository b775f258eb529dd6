-- ===== src/Tenant/Examples.antt =====
-- Tests of sessions and tokens, and the theorems at concrete inputs.
use devtrace.Tenant.TokenLaws.{api_token-lifetime}
use devtrace.Tenant.SessionLaws.{session-lifetime}
use devtrace.Base.Time.{after, Time}
use devtrace.Middleware.Csrf.{hex_encode}
use devtrace.Tenant.Tokens.{
  revoke_api_token, validate_api_token, token_prefix, create_api_token, ApiToken,
}
use devtrace.Tenant.Sessions.{destroy_session, validate_session, create_session, Session}
use devtrace.Tenant.Defs.{Tenant}
use devtrace.Base.{
  refl, true, false, ◌++◌, ◌≡◌, String_eq, [], ◌==◌, nat_eq, some, if◌then◌else◌, Option, none, ◌∷◌,
  String, ℕ, List,
}

-- A hash that tells the tokens of these tests apart.
abbrev hash_of : List ℕ → String
hash_of [] = "empty"
hash_of (c ∷ s) = if nat_eq c b'd' then "api" else "session"

abbrev acme : Tenant
acme = record {
  id = "t1";
  github_id = 1;
  username = "ada";
  email = "";
  avatar_url = "";
  name = "";
  company = "";
  location = "";
  bio = "";
  plan = "free";
  status = "active";
  max_contributors = 50;
  tos_accepted_at = none;
  created_at = 1;
  updated_at = 1;
}

abbrev tenants : String → Option Tenant
tenants id = if id == "t1" then some acme else none

session-lifetime_example :
    (created : List Session) × (create_session hash_of (some (17 ∷ [])) "t1" 100 5 []
      ≡ some (hex_encode (17 ∷ []), created))
    × ((token : List ℕ) (later : Time)
        → (validate_session hash_of tenants token later created ≡ (
            if hash_of (hex_encode (17 ∷ [])) == hash_of token
            then (if after 105 later then tenants "t1" else none)
            else validate_session hash_of tenants token later []))
          × (validate_session hash_of tenants token later
                (destroy_session hash_of (hex_encode (17 ∷ [])) created)
              ≡ (if hash_of (hex_encode (17 ∷ [])) == hash_of token
                  then none
                  else validate_session hash_of tenants token later [])))
session-lifetime_example = session-lifetime hash_of tenants (17 ∷ []) "t1" 100 5 [] refl

api_token-lifetime_example :
    (created : List ApiToken) × (create_api_token hash_of (some (17 ∷ [])) "k1" "t1" "ci" 5 []
      ≡ some (token_prefix ++ hex_encode (17 ∷ []), created))
    × ((other : List ℕ) (used later : Time)
        → (validate_api_token hash_of tenants
            (token_prefix ++ hex_encode (17 ∷ []))
            later
            (validate_api_token hash_of tenants other used created).1).0
          ≡ tenants "t1")
    × (revoke_api_token "t2" "k1" created ≡ (created, false))
    × ((revoke_api_token "t1" "k1" created).1 ≡ true)
    × ((later : Time)
        → (validate_api_token hash_of tenants
            (token_prefix ++ hex_encode (17 ∷ []))
            later
            (revoke_api_token "t1" "k1" created).0).0
          ≡ none)
api_token-lifetime_example =
    api_token-lifetime hash_of tenants (17 ∷ []) "k1" "t1" "ci" "t2" 5 [] refl refl tt
