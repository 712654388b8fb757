-- ===== src/LfuCache.antt =====
-- The least-frequently-used cache: massbit/src/util/lfu_cache.rs.
pub mod Queue
pub mod Types
pub mod Ops
pub mod Access
pub mod Invariant
pub mod Removal
pub mod Eviction
pub mod Period
pub mod ListQueue
pub mod Extension
