-- ===== src/Wasm/Arena.antt =====
-- The arenas of `WasmInstanceContext` in runtime/wasm/src/module/mod.rs: its implementation of the trait
-- `AscHeap` over the memory of the module.
pub mod Room
pub mod Bounds
use test_ci_for_massbitproto.Prelude.{
  ℕ, ◌%◌, ltb, leb, not, if◌then◌else◌, List, length, none, some,
}
use test_ci_for_massbitproto.Prelude.Int.{ℤ, pos, le_int, add_i32, sub_i32, i32_of_size}
use test_ci_for_massbitproto.Prelude.Outcome.{Outcome, done, failed, panic, ◌>>=◌, unwrap}
use test_ci_for_massbitproto.AscHeap.Bytes.{two_32}
use test_ci_for_massbitproto.AscHeap.Ptr.{version_le, legacy_version}
use test_ci_for_massbitproto.Wasm.Memory.{WasmMemory, usize_of}

abbrev pub min_arena_size : ℕ
min_arena_size = 10000

-- `size.max(MIN_ARENA_SIZE)`
unfoldable pub arena_size_for : ℕ → ℕ
arena_size_for size = if leb size min_arena_size then min_arena_size else size

module _ (M : WasmMemory) where
  -- the fields of `WasmInstanceContext` that the heap uses
  pub record Context : Type 0 where
    pub memory : M.State
    pub arena_start_ptr : ℤ
    pub arena_free_size : ℤ

  -- as `from_instance` and `from_caller` make it
  unfoldable pub new_context : M.State → Context
  new_context memory = record { memory = memory; arena_start_ptr = pos 0; arena_free_size = pos 0 }

  -- the arena of `arena_size` bytes that the allocator gave at `start`
  unfoldable pub arena_at : ℕ → ℤ → M.State → Outcome Context
  arena_at arena_size start memory =
      if version_le M.version legacy_version
      then done
          (record { memory = memory; arena_start_ptr = start; arena_free_size = pos arena_size })
      else (do
        start' ← add_i32 start 12
        free ← sub_i32 (pos arena_size) 12
        done (record { memory = memory; arena_start_ptr = start'; arena_free_size = free }))

  -- a new arena for an object of `size` bytes
  unfoldable pub new_arena : ℕ → Context → Outcome Context
  new_arena size ctx = do
    (start, memory) ← M.allocate (arena_size_for size) ctx.memory
    arena_at (arena_size_for size) start memory

  -- the write at the start of the free bytes
  unfoldable pub write_bytes : List ℕ → ℕ → Context → Outcome (ℕ × Context)
  write_bytes bytes size ctx = do
    memory ← unwrap (M.write (usize_of ctx.arena_start_ptr) bytes ctx.memory)
    start ← add_i32 ctx.arena_start_ptr size
    free ← sub_i32 ctx.arena_free_size size
    done (
      usize_of ctx.arena_start_ptr % two_32,
      record { memory = memory; arena_start_ptr = start; arena_free_size = free },
    )

  unfoldable pub raw_new : List ℕ → Context → Outcome (ℕ × Context)
  raw_new bytes ctx = do
    size ← i32_of_size (length bytes)
    ctx' ← if not (le_int (pos size) ctx.arena_free_size) then new_arena size ctx else done ctx
    write_bytes bytes size ctx'

  unfoldable pub get : ℕ → ℕ → Context → Outcome (List ℕ)
  get offset size ctx = elim (M.read offset size ctx.memory) [
    | none ↦ failed "Heap access out of bounds. Offset: {} Size: {}"
    | some bytes ↦ done bytes
  ]

  unfoldable pub asc_type_id : ℕ → Context → Outcome (ℕ × Context)
  asc_type_id type_id_index ctx = if version_le M.version legacy_version then panic else (do
    (type_id, memory) ← M.id_of_type type_id_index ctx.memory
    done (type_id, record ctx { memory = memory }))
