-- ===== src/Scorer.antt =====
-- The background scorer (pkg/background/scorer.go).
pub mod Pause
pub mod Drain
pub mod DrainInvariant
pub mod DrainLaws
pub mod PauseLaws
pub mod Queue
pub mod Contributor
mod ContributorLaws
pub mod Stats
pub mod Stale
pub mod StaleTally
pub mod StaleLaws
mod StaleExamples
mod Examples
