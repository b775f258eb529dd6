-- ===== src/Score.antt =====
-- The score engine (pkg/score).
pub mod Float
pub mod Signals
pub mod Curves
pub mod Compute
pub mod CurveBounds
pub mod Parts
pub mod Bounds
pub mod Grade
pub mod Scope
pub mod Heuristics
pub mod Fixed
mod Examples
