-- ===== src/Service.antt =====
-- The score service (pkg/service).
pub mod Gate
pub mod Feature
pub mod GateLaws
pub mod Narrative
pub mod Enrich
pub mod Samples
mod Examples
pub mod Flow
mod FlowLaws
pub mod Repo
mod RepoLaws
pub mod Lookups
pub mod StackOverflow
pub mod Ossf
pub mod Npm
pub mod CrossVcs
pub mod Owned
pub mod LookupLaws
mod CrossVcsLaws
pub mod Cache
mod CacheLaws
