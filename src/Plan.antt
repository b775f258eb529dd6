-- ===== src/Plan.antt =====
-- The billing tiers (pkg/plan/plan.go).
pub mod Defs
pub mod Tiers
mod Examples
