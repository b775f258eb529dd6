-- ===== src/Tenant/Defs.antt =====
-- A tenant (pkg/tenant/tenant.go).
use devtrace.Base.Time.{Time}
use devtrace.Base.{Option, ℕ, String}

pub record Tenant : Type 0 where
  pub id : String
  pub github_id : ℕ
  pub username : String
  pub email : String
  pub avatar_url : String
  pub name : String
  pub company : String
  pub location : String
  pub bio : String
  pub plan : String
  pub status : String
  pub max_contributors : ℕ
  pub tos_accepted_at : Option Time
  pub created_at : Time
  pub updated_at : Time

abbrev pub status_suspended : String
status_suspended = "suspended"
