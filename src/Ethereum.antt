-- ===== src/Ethereum.antt =====
-- The Ethereum chain's trigger filters: chain/ethereum/src/adapter.rs.
pub mod Types
pub mod LogFilter
pub mod CallFilter
pub mod BlockFilter
pub mod Matching
pub mod Growth
pub mod Validation
pub mod Handlers
pub mod Completeness
pub mod TriggerFilter
pub mod Trigger
pub mod Extension
pub mod Requests
pub mod Topics
pub mod ShortCalls
