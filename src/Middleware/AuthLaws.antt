-- ===== src/Middleware/AuthLaws.antt =====
-- Who passes the middleware.
use devtrace.Tenant.Defs.{status_suspended}
use devtrace.Tenant.Defs.{Tenant}
use devtrace.Middleware.Auth.{
  extract_bearer_token, is_admin, require_admin, token_or_session, session_or_nobody, authorized,
  with_token, unless_suspended, require_any_auth, require_api_token, require_auth, Passage,
  redirects, unauthorized, forbidden, not_found, continues,
}
use devtrace.Base.{
  refl, String_eq, any, if◌then◌else◌, inr, false, inl, ◌≡◌, String, true, none, Bool-cases, ◌==◌,
  some, ℕ, Option, List,
}

-- The handler does not run with a suspended tenant.
abbrev pub IsClear : Passage → Type 0
IsClear (redirects suspended) = Unit {0}
IsClear unauthorized = Unit {0}
IsClear forbidden = Unit {0}
IsClear not_found = Unit {0}
IsClear (continues tn) = NotSuspended tn
  where
    NotSuspended : Option Tenant → Type 0
    NotSuspended none = Unit {0}
    NotSuspended (some tn) = (tn.status == status_suspended) ≡ false

unless_suspended-IsClear :
    (denied : Passage) (tn : Tenant) → IsClear denied → IsClear (unless_suspended denied tn)
unless_suspended-IsClear denied tn h = elim (Bool-cases (tn.status == status_suspended)) [
  | inl out ↦ rw out h
  | inr active ↦ rw active active
]

with_token-IsClear : (o : Option Tenant) → IsClear (with_token o)
with_token-IsClear none = tt
with_token-IsClear (some tn) = unless_suspended-IsClear forbidden tn tt

authorized-IsClear :
    (validate : List ℕ → Option Tenant) (token : Option (List ℕ))
    → IsClear (authorized validate token)
authorized-IsClear validate none = tt
authorized-IsClear validate (some token) = with_token-IsClear (validate token)

session-IsClear : (session : Option (Option Tenant)) → IsClear (session_or_nobody session)
session-IsClear none = tt
session-IsClear (some none) = tt
session-IsClear (some (some tn)) = unless_suspended-IsClear forbidden tn tt

token_or_session-IsClear :
    (validate : List ℕ → Option Tenant) (session : Option (Option Tenant)) (token : Option (List ℕ))
    → IsClear (token_or_session validate session token)
token_or_session-IsClear validate session none = session-IsClear session
token_or_session-IsClear validate session (some token) = with_token-IsClear (validate token)

require_auth-IsClear : (session : Option (Option Tenant)) → IsClear (require_auth session)
unfolding require_auth
require_auth-IsClear none = tt
require_auth-IsClear (some none) = tt
require_auth-IsClear (some (some tn)) = unless_suspended-IsClear (redirects true) tn tt

-- Whatever the header and the cookie of a request, a suspended tenant passes none of the three
-- checks of a sign-in; but a suspended tenant who is in the list of admins passes the check of an
-- admin, with the session alone, and one who is not in the list never does.
pub require-IsClear :
    (validate : List ℕ → Option Tenant) (session : Option (Option Tenant)) (auth : List ℕ)
    (admins : List String) (tn : Tenant)
    → IsClear (require_auth session)
      × IsClear (require_api_token validate auth)
      × IsClear (require_any_auth validate session auth)
      × (require_admin admins (some (some tn))
          ≡ (if any (λ u. u == tn.username) admins then continues (some tn) else not_found))
unfolding require_api_token require_any_auth require_admin is_admin
require-IsClear validate session auth admins tn = (
  require_auth-IsClear session,
  authorized-IsClear validate (extract_bearer_token auth),
  token_or_session-IsClear validate session (extract_bearer_token auth),
  refl,
)
