-- ===== src/RateLimit.antt =====
-- The rate limits of the HTTP server (pkg/server/ratelimit.go).
pub mod Defs
pub mod Middleware
pub mod Window
pub mod Admission
mod Examples
