-- ===== src/Tenant.antt =====
-- Tenants, their sessions and their API tokens (pkg/tenant).
pub mod Defs
pub mod Sessions
mod SessionLaws
pub mod Tokens
mod TokenLaws
mod Examples
