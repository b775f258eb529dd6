-- ===== src/Ingest.antt =====
-- The ingestion of GH Archive (pkg/ingest).
pub mod Events
pub mod Aggregator
pub mod Counters
pub mod Totals
pub mod MergeGraph
pub mod Hours
pub mod Cursor
pub mod Schedule
pub mod Notify
pub mod Maintenance
pub mod Digest
mod UpkeepLaws
mod UpkeepExamples
pub mod NotifyExact
pub mod NotifyLaws
pub mod Queueing
pub mod Process
mod ProcessExamples
mod Examples
