-- ===== src/Wasm/Memory.antt =====
-- What runtime/wasm/src/module/mod.rs uses of wasmtime and of the AssemblyScript allocator of the
-- module, which are not part of the repository: the linear memory and the exported functions.
use test_ci_for_massbitproto.Prelude.{
  ℕ, ◌+◌, ◌-◌, ◌%◌, ◌≤◌, ◌<◌, false, Option, some, List, ◌⊎◌, ◌≡◌, length,
}
use test_ci_for_massbitproto.Prelude.Int.{ℤ, pos, negsuc}
use test_ci_for_massbitproto.Prelude.Outcome.{Outcome, done}
use test_ci_for_massbitproto.AscHeap.Bytes.{take, drop, two_32}
use test_ci_for_massbitproto.AscHeap.Ptr.{Version, version_le, legacy_version}

-- the address that an `i32` stands for in a module
abbrev pub address : ℤ → ℕ
address (pos a) = a
address (negsuc a) = two_32 - a - 1

-- `i as usize` on a machine of 64 bits, for an `i32`, whose `a` is below 2 ^ 31
abbrev pub usize_of : ℤ → ℕ
usize_of (pos a) = a
usize_of (negsuc a) = 18446744073709551615 - a % 2147483648

-- `read` and `write` are `Memory::read` and `Memory::write`, which fail beyond the end. `allocate` is
-- the function of that name of the module: it reserves `reserved n` bytes that were not taken. `Taken`:
-- the address belongs to a block that was handed out. After version 0.0.4 a block has 4 bytes of header
-- and a multiple of 16 bytes with it, so that 12 bytes are left after a multiple of 16.
pub record WasmMemory : Type 1 where
  pub State : Type 0
  pub version : Version
  pub read : ℕ → ℕ → State → Option (List ℕ)
  pub write : ℕ → List ℕ → State → Option State
  pub allocate : ℕ → State → Outcome (ℤ × State)
  pub id_of_type : ℕ → State → Outcome (ℕ × State)
  pub reserved : ℕ → ℕ
  pub Taken : State → ℕ → Type 0
  pub read_part :
      (p k o n : ℕ) (bytes : List ℕ) (m : State)
      → read p k m ≡ some bytes
      → o + n ≤ k
      → read (p + o) n m ≡ some (take n (drop o bytes))
  pub write_fits :
      (p : ℕ) (bytes : List ℕ) (m m' : State)
      → write p bytes m ≡ some m'
      → p + length bytes ≤ two_32
  pub read-write :
      (p : ℕ) (bytes : List ℕ) (m m' : State)
      → write p bytes m ≡ some m'
      → read p (length bytes) m' ≡ some bytes
  pub read-write_apart :
      (p q n : ℕ) (bytes : List ℕ) (m m' : State)
      → write p bytes m ≡ some m'
      → ((i : ℕ) → i < n → (q + i < p) ⊎ (p + length bytes ≤ q + i))
      → read q n m' ≡ read q n m
  pub Taken-write :
      (p : ℕ) (bytes : List ℕ) (m m' : State)
      → write p bytes m ≡ some m'
      → (a : ℕ) → Taken m a
      → Taken m' a
  pub reserved-le : (n : ℕ) → n ≤ reserved n
  pub reserved_aligned :
      (n : ℕ) → version_le version legacy_version ≡ false → n % 16 ≡ 0 → n + 12 ≤ reserved n
  pub allocate_fits :
      (n : ℕ) (m m' : State) (p : ℤ) → allocate n m ≡ done (p, m') → address p + reserved n ≤ two_32
  pub allocate_fresh :
      (n : ℕ) (m m' : State) (p : ℤ)
      → allocate n m ≡ done (p, m')
      → (a : ℕ) → address p ≤ a
      → a < address p + reserved n
      → ¬ Taken m a × Taken m' a
  pub allocate_keeps :
      (n : ℕ) (m m' : State) (p : ℤ)
      → allocate n m ≡ done (p, m')
      → ((a : ℕ) → Taken m a → Taken m' a)
        × ((q k : ℕ) (bytes : List ℕ)
            → read q k m ≡ some bytes
            → ((i : ℕ) → i < k → Taken m (q + i))
            → read q k m' ≡ some bytes)
  pub id_of_type_keeps :
      (index : ℕ) (m m' : State) (id : ℕ)
      → id_of_type index m ≡ done (id, m')
      → ((a : ℕ) → Taken m a → Taken m' a)
        × ((q k : ℕ) (bytes : List ℕ)
            → read q k m ≡ some bytes
            → ((i : ℕ) → i < k → Taken m (q + i))
            → read q k m' ≡ some bytes)
