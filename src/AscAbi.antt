-- ===== src/AscAbi.antt =====
-- The AssemblyScript classes of runtime/wasm/src/asc_abi, as they lie in the memory of a module.
pub mod Elements
pub mod ArrayBuffer
pub mod TypedArray
pub mod Array
pub mod RoundTrip
pub mod AscString
pub mod Derive
pub mod Structs
pub mod Utf16
pub mod Vectors
pub mod Scalars
pub mod StoreValue
