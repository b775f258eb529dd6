-- ===== src/Tenant/SessionLaws.antt =====
-- The life of a session.
use devtrace.Middleware.Csrf.{hex_encode}
use devtrace.Tenant.Defs.{Tenant}
use devtrace.Base.Time.{after, Duration, Time}
use devtrace.Tenant.Sessions.{
  tenant_of, delete_session, find_session, has_session, destroy_session, Session, validate_session,
  create_session,
}
use devtrace.Base.{
  subst, inl, inr, Bool-cases, ◌+◌, some, String_eq, refl, eq_iff, [], arith, ◌∷◌, ◌==◌, none,
  if◌then◌else◌, false, Option, ◌≡◌, ℕ, String, List,
}

find_session-absent :
    (id : String) (now : Time) (sessions : List Session)
    → has_session id sessions ≡ false
    → find_session id now sessions ≡ none
find_session-absent id now [] h = refl
find_session-absent id now (s ∷ sessions) h = ground (arith, find_session-absent id now sessions)

find_session-delete :
    (id other : String) (now : Time) (sessions : List Session)
    → find_session other now (delete_session id sessions)
      ≡ (if id == other then none else find_session other now sessions)
find_session-delete id other now [] = ground arith
find_session-delete id other now (s ∷ sessions) = ground (
  arith,
  find_session-delete id other now sessions,
  eq_iff s.id id,
  eq_iff s.id other,
  eq_iff id other,
)

find_created :
    (tenants : String → Option Tenant) (row : Session) (other : String) (later : Time)
    (sessions : List Session)
    → has_session row.id sessions ≡ false
    → tenant_of tenants (find_session other later (row ∷ sessions)) ≡ (
        if row.id == other
        then (if after row.expires_at later then tenants row.tenant_id else none)
        else tenant_of tenants (find_session other later sessions))
find_created tenants row other later sessions fresh = elim (Bool-cases (row.id == other)) [
  | inr differs ↦ rw differs refl
  | inl same ↦
      let absent : find_session other later sessions ≡ none =
        subst (λ id. find_session id later sessions ≡ none) ((eq_iff row.id other).0 same)
          (find_session-absent row.id later sessions fresh) in
      rw (same, absent)
        (elim (Bool-cases (after row.expires_at later)) [
          | inl live ↦ rw live refl
          | inr expired ↦ rw expired refl
        ])
]

find_destroyed :
    (tenants : String → Option Tenant) (row : Session) (other : String) (later : Time)
    (sessions : List Session)
    → tenant_of tenants (find_session other later (delete_session row.id (row ∷ sessions)))
      ≡ (if row.id == other then none else tenant_of tenants (find_session other later sessions))
find_destroyed tenants row other later sessions =
    rw (find_session-delete row.id other later (row ∷ sessions))
      (elim (Bool-cases (row.id == other)) [
        | inl same ↦ rw same refl
        | inr differs ↦ rw differs refl
      ])

-- A created session gives its tenant with its token until the time to live is over, and nobody
-- after that; a token with another hash gives what it gave before. When the session is destroyed,
-- its token gives nobody at any time, and a token with another hash what it gave before.
pub session-lifetime :
    (hash : List ℕ → String) (tenants : String → Option Tenant) (raw : List ℕ) (tenant_id : String)
    (ttl : Duration) (now : Time) (sessions : List Session)
    → has_session (hash (hex_encode raw)) sessions ≡ false
    → (created : List Session) × (create_session hash (some raw) tenant_id ttl now sessions
        ≡ some (hex_encode raw, created))
      × ((token : List ℕ) (later : Time)
          → (validate_session hash tenants token later created ≡ (
              if hash (hex_encode raw) == hash token
              then (if after (now + ttl) later then tenants tenant_id else none)
              else validate_session hash tenants token later sessions))
            × (validate_session hash tenants token later
                  (destroy_session hash (hex_encode raw) created)
                ≡ (if hash (hex_encode raw) == hash token
                    then none
                    else validate_session hash tenants token later sessions)))
unfolding create_session validate_session destroy_session
session-lifetime hash tenants raw tenant_id ttl now sessions fresh =
    let row : Session = record {
      id = hash (hex_encode raw);
      tenant_id = tenant_id;
      expires_at = now + ttl;
    } in
    (
      row ∷ sessions,
      rw fresh refl,
      λ token later. (
        find_created tenants row (hash token) later sessions fresh,
        find_destroyed tenants row (hash token) later sessions,
      ),
    )
