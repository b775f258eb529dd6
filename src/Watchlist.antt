-- ===== src/Watchlist.antt =====
-- Watchlists and their notification events (pkg/data/postgres/watchlist.go).
pub mod Defs
pub mod Store
pub mod Events
pub mod PruneLaws
pub mod RowIds
pub mod PruneBounds
pub mod Prune
pub mod Isolation
pub mod Targets
pub mod Summary
pub mod Examples
