-- ===== src/Server.antt =====
-- The HTTP server (pkg/server).
pub mod Names
pub mod ScoreApi
pub mod ScoreApiLaws
mod QuotaLaws
pub mod TokenApi
mod TokenLimit
pub mod Watchlists
pub mod WatchlistLaws
pub mod Events
pub mod EventPages
pub mod Samples
mod Examples
mod WatchlistExamples
