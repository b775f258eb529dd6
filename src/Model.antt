-- ===== src/Model.antt =====
-- The data of a response (pkg/model/types.go).
pub mod Enrichment
pub mod Response
