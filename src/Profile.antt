-- ===== src/Profile.antt =====
-- The summary of a contributor's own repos (pkg/profile/repos.go).
pub mod Repos
pub mod ReposLaws
mod Examples
