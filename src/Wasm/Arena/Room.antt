-- ===== src/Wasm/Arena/Room.antt =====
-- The arena of runtime/wasm/src/module/mod.rs has room for the object that it is asked for.
use test_ci_for_massbitproto.Prelude.{
  ℕ, ◌+◌, ◌≤◌, ◌<◌, List, length, ◌⊎◌, inl, inr, ◌≡◌, subst, sym, some, arith,
}
use native.Mathlib.Decide.{dec_lt}
use test_ci_for_massbitproto.Prelude.Int.{ℤ, pos, negsuc, pos_part}
use test_ci_for_massbitproto.Prelude.Outcome.{done, bind_inversion}
use test_ci_for_massbitproto.AscHeap.Bytes.{two_32}
use test_ci_for_massbitproto.AscHeap.Ptr.{IsAligned}
use test_ci_for_massbitproto.Wasm.Memory.{WasmMemory, address}
use test_ci_for_massbitproto.Wasm.Arena.{Context, arena_size_for, arena_at, new_arena}

module _ (M : WasmMemory) where
  -- the first address of the arena, and the number of its free bytes
  abbrev pub start_of : Context M → ℕ
  start_of ctx = address ctx.arena_start_ptr

  -- the `size` bytes from the start of the arena, and all its free bytes, are taken
  abbrev pub HasRoom : ℕ → Context M → Type 0
  HasRoom size ctx =
      (a : ℕ)
      → start_of ctx ≤ a
      → (a < start_of ctx + size) ⊎ (a < start_of ctx + pos_part ctx.arena_free_size)
      → M.Taken ctx.memory a

  -- bytes that the memory holds, and that a write of `size` bytes into the arena leaves alone
  pub record IsApart (size p : ℕ) (bytes : List ℕ) (ctx : Context M) : Type 0 where
    pub held : M.read p (length bytes) ctx.memory ≡ some bytes
    pub taken : (i : ℕ) → i < length bytes → M.Taken ctx.memory (p + i)
    pub apart :
        (i : ℕ)
        → i < length bytes
        → (p + i < start_of ctx)
          ⊎ ((start_of ctx + size ≤ p + i) × (start_of ctx + pos_part ctx.arena_free_size ≤ p + i))

  arena_at-memory :
      (n : ℕ) (p : ℤ) (memory : M.State) (ctx : Context M)
      → arena_at M n p memory ≡ done ctx
      → ctx.memory ≡ memory
  unfolding arena_at
  arena_at-memory n (pos a) memory ctx h = ground arith
  arena_at-memory n (negsuc a) memory ctx h = ground arith

  -- An arena lies in the block that the allocator reserved, also behind the 12 bytes that are left out.
  arena_at_within :
      (size n : ℕ) (p : ℤ) (memory : M.State) (ctx : Context M)
      → IsAligned M.version n
      → size ≤ n
      → 10000 ≤ n
      → address p + M.reserved n ≤ two_32
      → arena_at M n p memory ≡ done ctx
      → (address p ≤ start_of ctx)
        × (start_of ctx + size ≤ address p + M.reserved n)
        × (start_of ctx + pos_part ctx.arena_free_size ≤ address p + M.reserved n)
  unfolding arena_at
  arena_at_within size n (pos a) memory ctx (inl legacy) fits large below h =
      ground (arith, M.reserved-le n)
  arena_at_within size n (pos a) memory ctx (inr multiple) fits large below h =
      ground (arith, M.reserved-le n, M.reserved_aligned n)
  arena_at_within size n (negsuc a) memory ctx (inl legacy) fits large below h =
      ground (arith, M.reserved-le n)
  arena_at_within size n (negsuc a) memory ctx (inr multiple) fits large below h =
      ground (arith, M.reserved-le n, M.reserved_aligned n)

  arena_size_lem :
      (size : ℕ)
      → (size ≤ arena_size_for size)
        × (10000 ≤ arena_size_for size)
        × (IsAligned M.version size → IsAligned M.version (arena_size_for size))
  unfolding arena_size_for
  arena_size_lem size = (ground arith, ground arith, aligned)
    where
      aligned : IsAligned M.version size → IsAligned M.version (arena_size_for size)
      aligned (inl legacy) = inl legacy
      aligned (inr multiple) = inr (ground arith)

  -- a block that the allocator reserved, with the arena in it
  record InBlock (size : ℕ) (ctx ctx' : Context M) : Type 0 where
    n : ℕ
    p : ℤ
    allocated : M.allocate n ctx.memory ≡ done (p, ctx'.memory)
    low : address p ≤ start_of ctx'
    high : start_of ctx' + size ≤ address p + M.reserved n
    high_free : start_of ctx' + pos_part ctx'.arena_free_size ≤ address p + M.reserved n

  new_arena-InBlock :
      (size : ℕ) (ctx ctx' : Context M)
      → IsAligned M.version size
      → new_arena M size ctx ≡ done ctx'
      → InBlock size ctx ctx'
  unfolding new_arena
  new_arena-InBlock size ctx ctx' aligned h =
      let n = arena_size_for size in
      let (fits, large, keeps) = arena_size_lem size in
      let ((p, memory), allocated, placed) =
        bind_inversion (M.allocate n ctx.memory) (λ (r : ℤ × M.State). arena_at M n r.0 r.1) ctx'
          h in
      let (low, high, high_free) =
        arena_at_within size n p memory ctx' (keeps aligned) fits large
          (M.allocate_fits n ctx.memory memory p allocated) placed in
      record {
        n = n;
        p = p;
        allocated =
            subst (λ (m : M.State). M.allocate n ctx.memory ≡ done (p, m))
              (sym (arena_at-memory n p memory ctx' placed)) allocated;
        low = low;
        high = high;
        high_free = high_free;
      }

  module _ {size : ℕ} {ctx ctx' : Context M} (b : InBlock size ctx ctx') where
    InBlock-HasRoom : HasRoom size ctx'
    InBlock-HasRoom a above below =
        (M.allocate_fresh b.n ctx.memory ctx'.memory b.p b.allocated a (omega (arith, b.low))
          (omega (arith, b.high, b.high_free))).1

    -- An address that was taken is outside the block.
    outside :
        (a : ℕ)
        → M.Taken ctx.memory a
        → (a < start_of ctx')
          ⊎ ((start_of ctx' + size ≤ a) × (start_of ctx' + pos_part ctx'.arena_free_size ≤ a))
    outside a taken = elim (dec_lt a (start_of ctx')) [
      | yes below ↦ inl below
      | no above ↦ elim (dec_lt a (address b.p + M.reserved b.n)) [
        | yes inside ↦ absurd (
            (M.allocate_fresh b.n ctx.memory ctx'.memory b.p b.allocated a (omega (arith, b.low))
                inside).0
              taken)
        | no past ↦ inr (omega (arith, b.high), omega (arith, b.high_free))
      ]
    ]

    InBlock-IsApart : (q : ℕ) (old : List ℕ) (k : ℕ) → IsApart k q old ctx → IsApart size q old ctx'
    InBlock-IsApart q old k s =
        let (taken_kept, read_kept) = M.allocate_keeps b.n ctx.memory ctx'.memory b.p b.allocated in
        record {
          held = read_kept q (length old) old s.held s.taken;
          taken = λ i h. taken_kept (q + i) (s.taken i h);
          apart = λ i h. outside (q + i) (s.taken i h);
        }

  -- A new arena has room, and leaves alone what was held.
  pub new_arena_room :
      (size : ℕ) (ctx ctx' : Context M)
      → IsAligned M.version size
      → new_arena M size ctx ≡ done ctx'
      → HasRoom size ctx'
        × ((q : ℕ) (old : List ℕ) (k : ℕ) → IsApart k q old ctx → IsApart size q old ctx')
  new_arena_room size ctx ctx' aligned h =
      let b = new_arena-InBlock size ctx ctx' aligned h in (InBlock-HasRoom b, InBlock-IsApart b)
