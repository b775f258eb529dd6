-- ===== src/Compliance.antt =====
-- The SSDF practices of a contributor (pkg/compliance/ssdf.go).
pub mod Ssdf
pub mod SsdfLaws
mod Examples
