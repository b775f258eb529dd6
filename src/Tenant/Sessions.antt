-- ===== src/Tenant/Sessions.antt =====
-- Sessions (pkg/tenant/session.go): the statements on the table of sessions, whose key is the hash
-- of a token. The hash, the random bytes and the table of tenants are arguments; a token is its
-- bytes.
use devtrace.Middleware.Csrf.{hex_encode}
use devtrace.Tenant.Defs.{Tenant}
use devtrace.Base.Time.{after, Duration, Time}
use devtrace.Base.{
  String_eq, [], ◌&&◌, ◌||◌, ◌+◌, ◌==◌, none, some, if◌then◌else◌, false, ◌∷◌, Option, Bool, ℕ,
  String, List,
}

pub record Session : Type 0 where
  pub id : String
  pub tenant_id : String
  pub expires_at : Time

abbrev pub has_session : String → List Session → Bool
has_session id [] = false
has_session id (s ∷ sessions) = s.id == id || has_session id sessions

abbrev pub insert_session :
    (List ℕ → String)
    → List ℕ
    → String
    → Duration
    → Time
    → List Session
    → Option (List ℕ × List Session)
insert_session hash raw_token tenant_id ttl now sessions =
    if has_session (hash raw_token) sessions
    then none
    else some (
      raw_token,
      record { id = hash raw_token; tenant_id = tenant_id; expires_at = now + ttl } ∷ sessions,
    )

-- The token and the table; none is an error.
unfoldable pub create_session :
    (List ℕ → String)
    → Option (List ℕ)
    → String
    → Duration
    → Time
    → List Session
    → Option (List ℕ × List Session)
create_session hash none tenant_id ttl now sessions = none
create_session hash (some raw) tenant_id ttl now sessions =
    insert_session hash (hex_encode raw) tenant_id ttl now sessions

-- `WHERE s.id = $1 AND s.expires_at > NOW()`
abbrev pub find_session : String → Time → List Session → Option String
find_session id now [] = none
find_session id now (s ∷ sessions) =
    let rest = find_session id now sessions in
    if s.id == id && after s.expires_at now then some s.tenant_id else rest

abbrev pub tenant_of : (String → Option Tenant) → Option String → Option Tenant
tenant_of tenants none = none
tenant_of tenants (some id) = tenants id

unfoldable pub validate_session :
    (List ℕ → String) → (String → Option Tenant) → List ℕ → Time → List Session → Option Tenant
validate_session hash tenants raw_token now sessions =
    tenant_of tenants (find_session (hash raw_token) now sessions)

abbrev pub delete_session : String → List Session → List Session
delete_session id [] = []
delete_session id (s ∷ sessions) =
    let rest = delete_session id sessions in if s.id == id then rest else s ∷ rest

unfoldable pub destroy_session : (List ℕ → String) → List ℕ → List Session → List Session
destroy_session hash raw_token sessions = delete_session (hash raw_token) sessions
