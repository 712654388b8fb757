-- ===== src/BlockStream.antt =====
-- The stream of blocks with triggers: massbit/src/blockchain/polling_block_stream.rs.
pub mod Types
pub mod Polling
pub mod Scans
pub mod Order
pub mod Errors
