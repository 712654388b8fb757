-- ===== src/Wasm.antt =====
-- The host side of a WASM module: runtime/wasm/src.
pub mod Memory
pub mod Arena
pub mod Heap
