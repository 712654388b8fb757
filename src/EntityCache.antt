-- ===== src/EntityCache.antt =====
-- The entity cache: massbit/src/components/store.rs.
pub mod Op
pub mod State
pub mod Ops
pub mod Modifications
pub mod Handler
pub mod Exit
pub mod Extension
pub mod Lookup
pub mod Decide
pub mod Commit
pub mod CommitLoop
pub mod Grouping
pub mod Fetch
pub mod FetchLoop
pub mod Result
