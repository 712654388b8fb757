-- ===== src/Indexer.antt =====
-- How an indexer processes a block: its state in massbit/src/components/indexer/instance.rs, and its
-- hosts and the loop over the created data sources in manager/src/indexer.
pub mod BlockState
pub mod Handlers
pub mod Runtime
pub mod Instance
pub mod Manager
pub mod Run
