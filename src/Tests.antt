-- ===== src/Tests.antt =====
-- Runs of the definitions, and the properties at concrete inputs.
mod Lfu
mod MemoryStore
mod Entities
mod Blocks
mod Indexing
mod Filters
mod Triggers
mod Runtime
mod Memory
mod Codec
mod Heap
