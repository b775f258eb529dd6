-- ===== src/Middleware/Auth.antt =====
-- RequireAuth, RequireAPIToken, RequireAnyAuth (pkg/middleware/auth.go), and IsAdmin and RequireAdmin
-- (pkg/middleware/admin.go). A header is its bytes; what ValidateSession and ValidateAPIToken return
-- for a request is an argument.
use devtrace.Tenant.Defs.{status_suspended}
use devtrace.Tenant.Defs.{Tenant}
use devtrace.Base.{
  String_eq, nat_eq, true, ◌==◌, none, [], any, false, if◌then◌else◌, some, ◌∷◌, String, Option, ℕ,
  Bool, List,
}

pub data Passage : Type 0 where
  -- To the sign-in page, with the error `suspended` or without.
  redirects : Bool → Passage
  unauthorized forbidden not_found : Passage
  -- The handler runs, with the tenant in its context.
  continues : Option Tenant → Passage

abbrev pub bearer : List ℕ
bearer = b'B' ∷ b'e' ∷ b'a' ∷ b'r' ∷ b'e' ∷ b'r' ∷ 32 ∷ []

-- strings.HasPrefix and strings.TrimPrefix
abbrev pub after_prefix : List ℕ → List ℕ → Option (List ℕ)
after_prefix [] s = some s
after_prefix (p ∷ ps) [] = none
after_prefix (p ∷ ps) (c ∷ s) = let rest = after_prefix ps s in if nat_eq p c then rest else none

-- The token; none where it is empty.
abbrev pub token_of : Option (List ℕ) → Option (List ℕ)
token_of none = none
token_of (some []) = none
token_of (some (c ∷ s)) = some (c ∷ s)

unfoldable pub extract_bearer_token : List ℕ → Option (List ℕ)
extract_bearer_token auth = token_of (after_prefix bearer auth)

abbrev pub unless_suspended : Passage → Tenant → Passage
unless_suspended denied tn = if tn.status == status_suspended then denied else continues (some tn)

abbrev pub with_session : Option Tenant → Passage
with_session none = redirects false
with_session (some tn) = unless_suspended (redirects true) tn

-- No cookie is none; a session that is not valid is a tenant none.
unfoldable pub require_auth : Option (Option Tenant) → Passage
require_auth none = redirects false
require_auth (some session) = with_session session

abbrev pub with_token : Option Tenant → Passage
with_token none = unauthorized
with_token (some tn) = unless_suspended forbidden tn

abbrev pub authorized : (List ℕ → Option Tenant) → Option (List ℕ) → Passage
authorized validate none = unauthorized
authorized validate (some token) = with_token (validate token)

unfoldable pub require_api_token : (List ℕ → Option Tenant) → List ℕ → Passage
require_api_token validate auth = authorized validate (extract_bearer_token auth)

abbrev pub session_or_nobody : Option (Option Tenant) → Passage
session_or_nobody none = continues none
session_or_nobody (some none) = continues none
session_or_nobody (some (some tn)) = unless_suspended forbidden tn

abbrev pub token_or_session :
    (List ℕ → Option Tenant) → Option (Option Tenant) → Option (List ℕ) → Passage
token_or_session validate session none = session_or_nobody session
token_or_session validate session (some token) = with_token (validate token)

unfoldable pub require_any_auth :
    (List ℕ → Option Tenant) → Option (Option Tenant) → List ℕ → Passage
require_any_auth validate session auth =
    token_or_session validate session (extract_bearer_token auth)

-- The entries of DEVTRACE_ADMIN_USERS, trimmed.
unfoldable pub is_admin : List String → String → Bool
is_admin admins username = any (λ u. u == username) admins

abbrev pub as_admin : List String → Option Tenant → Passage
as_admin admins none = not_found
as_admin admins (some tn) = if is_admin admins tn.username then continues (some tn) else not_found

unfoldable pub require_admin : List String → Option (Option Tenant) → Passage
require_admin admins none = not_found
require_admin admins (some session) = as_admin admins session
