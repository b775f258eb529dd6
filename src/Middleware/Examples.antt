-- ===== src/Middleware/Examples.antt =====
-- The theorems on the middleware at concrete inputs.
use devtrace.Middleware.CsrfLaws.{inject_csrf-round_trip, AreBytes}
use devtrace.Middleware.AuthLaws.{require-IsClear, IsClear}
use devtrace.Tenant.Defs.{Tenant}
use devtrace.Middleware.Csrf.{
  validate_csrf, hex_encode, inject_csrf, valid_csrf_token, allowed, serves_with,
}
use devtrace.Middleware.Auth.{
  require_any_auth, bearer, require_api_token, require_auth, is_admin, require_admin, continues,
  not_found,
}
use devtrace.Base.{
  String_eq, String, ◌==◌, refl, any, if◌then◌else◌, ◌≡◌, [], some, ◌∷◌, arith, replicate, none, ℕ,
  List,
}

abbrev root : Tenant
root = record {
  id = "t9";
  github_id = 9;
  username = "root";
  email = "";
  avatar_url = "";
  name = "";
  company = "";
  location = "";
  bio = "";
  plan = "pro";
  status = "suspended";
  max_contributors = 50;
  tos_accepted_at = none;
  created_at = 1;
  updated_at = 1;
}

suspended_admin_passes : require_admin ("root" ∷ []) (some (some root)) ≡ continues (some root)
unfolding require_admin is_admin
suspended_admin_passes = refl

require-IsClear_example :
    IsClear (require_auth (some (some root)))
    × IsClear (require_api_token (λ token. some root) bearer)
    × IsClear (require_any_auth (λ token. some root) (some (some root)) bearer)
    × (require_admin ("root" ∷ []) (some (some root)) ≡ (
        if any (λ (u : String). u == "root") ("root" ∷ [])
        then continues (some root)
        else not_found))
require-IsClear_example =
    require-IsClear (λ token. some root) (some (some root)) bearer ("root" ∷ []) root

abbrev random_bytes : List ℕ
random_bytes = replicate 32 171

random_bytes-AreBytes : AreBytes random_bytes
random_bytes-AreBytes = ground arith

inject_csrf-round_trip_example :
    (inject_csrf "GET" [] (some random_bytes)
      ≡ serves_with (hex_encode random_bytes) (some (hex_encode random_bytes)))
    × (inject_csrf "GET" (hex_encode random_bytes) none
        ≡ serves_with (hex_encode random_bytes) none)
    × (validate_csrf "POST" (hex_encode random_bytes) (hex_encode random_bytes) ≡ allowed)
    × (validate_csrf "POST" (hex_encode random_bytes) (b'0' ∷ []) ≡ allowed
        → b'0' ∷ [] ≡ hex_encode random_bytes)
unfolding valid_csrf_token
inject_csrf-round_trip_example =
    inject_csrf-round_trip [] random_bytes (b'0' ∷ []) none random_bytes-AreBytes refl refl
