-- ===== src/Pool.antt =====
-- The pool of GitHub API tokens (pkg/github/tokenpool.go).
pub mod Defs
pub mod Token
pub mod Marks
pub mod Reports
pub mod Invariant
pub mod RoundRobin
pub mod Selection
pub mod Held
pub mod Backoff
pub mod Recovery
pub mod Refresh
pub mod Quota
pub mod QuotaBounds
pub mod Client
pub mod ClientLaws
mod ClientExamples
mod Examples
