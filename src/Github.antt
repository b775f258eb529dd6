-- ===== src/Github.antt =====
-- What is read of GitHub's answers (pkg/github/fetch.go).
pub mod Stats
pub mod Account
pub mod Signals
pub mod SignalsLaws
pub mod CountsLaws
pub mod Credits
pub mod Repos
pub mod ReposLaws
mod Examples
