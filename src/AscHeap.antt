-- ===== src/AscHeap.antt =====
-- Objects in the AssemblyScript heap: massbit/src/runtime/asc_ptr.rs.
pub mod Bytes
pub mod Words
pub mod Ptr
pub mod Header
pub mod Placed
