-- ===== src/Lib.antt =====
-- A model of the core of Massbit's indexers: how a block is processed against a cache of entities, and how
-- blocks with their triggers are found.
--
-- An indexer reads blocks with triggers from a block stream, runs the handlers of its data sources on
-- the triggers, and writes the changed entities to a store. The handlers work on a block state
-- (massbit/src/components/indexer/instance.rs), which holds an entity cache
-- (massbit/src/components/store.rs) in front of the store. The entity cache accumulates one operation
-- for each entity, in two maps, of which one is for the handler that runs, and holds what it has read
-- of the store in a weighted LFU cache (massbit/src/util/lfu_cache.rs). At the end of a block
-- `as_modifications` turns the operations into the modifications that the store needs.
--
-- The files:
--   Prelude: shared names. Prelude/HashMap is `std::collections::HashMap` as an association list with
--     one entry for each key, and Prelude/Outcome a computation that may fail with an error or panic.
--     A failed `assert!`, `unwrap` or `expect` is a panic, and so is an integer that overflows, but for
--     those named below, or an unsigned difference below 0, as in a build with overflow checks.
--   Data: massbit/src/data/store/mod.rs. Data/Value has `Value` and `ValueType`, Data/Entity the
--     operations of `Entity`, Data/Conversions the conversions of values.
--   LfuCache: massbit/src/util/lfu_cache.rs. The crate `priority_queue` is the parameter
--     LfuCache/Queue, with what the cache relies on as its laws; LfuCache/ListQueue fills it with a
--     list. LfuCache/Ops has the operations, by their names. The loop of `evict_with_period` runs on
--     fuel, the number of entries, since each round pops one.
--   EntityCache: massbit/src/components/store.rs. EntityCache/Op is `EntityOp`, EntityCache/State the
--     keys, modifications and the state, EntityCache/Ops the operations, and EntityCache/Modifications
--     `as_modifications`, cut into its loops. The store is a parameter with the two reads that the cache
--     calls; EntityCache/Fetch says what a store that serves given entities answers. A loop over a
--     `HashMap` takes the order of the model's list, and the statements hold for every such order.
--   Indexer: massbit/src/components/indexer/instance.rs. Indexer/BlockState has the operations of
--     `BlockState`; Indexer/Handlers runs whole handlers, as lists of what they do.
--     Indexer/Instance has the operations of `IndexerInstance` of manager/src/indexer/instance.rs, and
--     Indexer/Manager `process_block` of manager/src/indexer/instance_manager.rs with what it calls.
--     Both are over the record Indexer/Runtime, with the traits of hosts and chains that the code is
--     generic in. The store is read as it is while the block is processed, and the transaction that
--     is made at the end is part of the result. The loop over the created data sources has fuel, the
--     rounds that it may run, since a handler may create data sources without end; as many as the
--     data sources are nested deep are enough. Indexer/Run has `run_indexer` over a list of the events
--     of its streams; of the map of running instances it has whether the indexer is in it.
--   BlockStream: massbit/src/blockchain/polling_block_stream.rs. BlockStream/Polling is the state
--     machine of `poll_next`, which takes the answers that the futures give in one call as a list.
--     `f64` is a parameter; block numbers are those from 0 on.
--   BlockPtr: the conversions of massbit/src/blockchain/types.rs.
--   Ethereum: chain/ethereum/src/adapter.rs, chain/ethereum/src/data_source.rs and
--     chain/ethereum/src/trigger.rs. The filters for logs, calls and blocks that data sources ask for, the
--     handlers that a data source has for a trigger, and the order of triggers. Addresses, hashes and
--     `keccak256` are parameters, in Ethereum/Types.
--   AscHeap: massbit/src/runtime/asc_ptr.rs over the trait of massbit/src/runtime/asc_heap.rs, which is a
--     record of operations with the laws that its implementors keep. AscHeap/Placed says where an
--     allocated object lies and what is read there, AscHeap/Words has the bytes of the unsigned types
--     (massbit/src/runtime/mod.rs).
--   AscAbi: the AssemblyScript classes of runtime/wasm/src/asc_abi over such a heap. ArrayBuffer,
--     TypedArray, Array and AscString have a module V004 for v0_0_4.rs, V005 for v0_0_5.rs, and the wrapper
--     of class.rs as their parent. An element type is known by its size, and its values by their bits.
--     AscAbi/Derive is the derived conversion of structs (runtime/derive/src/lib.rs), AscAbi/Vectors the
--     arrays as objects, AscAbi/Utf16, AscAbi/Scalars and AscAbi/StoreValue the conversions of texts,
--     scalars and store values (runtime/wasm/src/to_from). A struct is known by the types of its
--     fields: an unsigned type or a pointer of some bytes, a `bool`, or a derived enum, whose
--     conversion may fail. AscAbi/Derive/Errors is about its errors. num_bigint and bigdecimal are
--     the parameter `Codec`, and with them `BigDecimal::new` and `normalized`
--     (massbit/src/data/store/scalar.rs), which are made of their operations: their law is that a
--     normalized decimal is what its digits and exponent make. `get_value` runs on the depth of
--     lists that is allowed, since the objects of a heap may be nested without end; a value is read
--     with any depth above its own.
--   Wasm: the arenas of runtime/wasm/src/module/mod.rs. Wasm/Memory is the parameter for wasmtime's linear
--     memory and the allocator of the module, Wasm/Arena has `raw_new` and `get`, and Wasm/Heap fills the
--     record of AscHeap with them.
--   TimedCache: massbit/src/util/timed_cache.rs. The lock is held for each operation as a whole, so that
--     an operation is one step.
--   Tests: runs of the definitions, and the properties at concrete inputs.
--
-- Not modelled: the SQL of the relational store, the clients and services of the chains, the Wasm host
-- functions, the registrar and configuration of the manager, the APIs, the command-line tools and
-- analytics, which are input and output, or are left out; logging; stable hashes; and of a `Vec`
-- and a `HashMap` the capacity, on which the estimates of weights depend, so that the weights are
-- parameters of the caches. The sum of the weights of an LFU cache (a usize) and the frequencies of its
-- entries (a u64) are taken not to overflow.
pub mod Prelude
pub mod Data
pub mod LfuCache
pub mod EntityCache
pub mod Indexer
pub mod BlockStream
pub mod BlockPtr
pub mod Ethereum
pub mod AscHeap
pub mod AscAbi
pub mod Wasm
pub mod TimedCache
mod Tests
