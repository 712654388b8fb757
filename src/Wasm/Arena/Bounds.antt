-- ===== src/Wasm/Arena/Bounds.antt =====
-- `raw_new` and `get` of runtime/wasm/src/module/mod.rs keep what was written.
use test_ci_for_massbitproto.Prelude.{
  ℕ, ◌+◌, ◌-◌, ◌%◌, ◌≤◌, if◌then◌else◌, List, length, inl, inr, ◌≡◌, subst, subst₂, sym, some, ap,
  ◌∙◌, arith, true, not, none, Option, Bool-cases,
}
use test_ci_for_massbitproto.Prelude.Int.{
  ℤ, pos, negsuc, pos_part, le_int, add_i32, sub_i32, i32_of_size,
}
use test_ci_for_massbitproto.Prelude.Outcome.{done, unwrap, bind_inversion, done-injective}
use test_ci_for_massbitproto.AscHeap.Bytes.{two_32}
use test_ci_for_massbitproto.AscHeap.Ptr.{IsAligned}
use test_ci_for_massbitproto.Wasm.Memory.{WasmMemory, address, usize_of}
use test_ci_for_massbitproto.Wasm.Arena.{Context, new_arena, write_bytes, raw_new}
use test_ci_for_massbitproto.Wasm.Arena.Room.{start_of, HasRoom, IsApart, new_arena_room}

unwrap_inversion : {A : Type 0} (o : Option A) (a : A) → unwrap o ≡ done a → o ≡ some a
unwrap_inversion none a h = absurd (ground (arith, h))
unwrap_inversion (some b) a h = ap some (done-injective h)

add_i32_lem :
    (s : ℤ) (n : ℕ) (s' : ℤ)
    → usize_of s + n ≤ two_32
    → add_i32 s n ≡ done s'
    → (usize_of s ≡ address s) × (usize_of s % two_32 ≡ address s) × (address s' ≡ address s + n)
add_i32_lem (pos a) n s' fits h = ground (arith, h)
add_i32_lem (negsuc a) n s' fits h = absurd (omega (arith, fits))

sub_i32_lem : (f : ℤ) (n : ℕ) (f' : ℤ) → sub_i32 f n ≡ done f' → pos_part f' ≡ pos_part f - n
sub_i32_lem (pos a) n f' h = ground (arith, h)
sub_i32_lem (negsuc a) n f' h = ground (arith, h)

module _ (M : WasmMemory) where
  -- the free bytes of the arena are taken
  abbrev pub IsSound : Context M → Type 0
  IsSound ctx = HasRoom M 0 ctx

  -- the memory holds the bytes, outside the free bytes of the arena
  abbrev pub Holds : ℕ → List ℕ → Context M → Type 0
  Holds p bytes ctx = IsApart M 0 p bytes ctx

  -- what a write into the arena does, with the number that it returns
  record IsWritten (bytes : List ℕ) (ctx : Context M) (ptr : ℕ) (ctx' : Context M) : Type 0 where
    written : M.write (start_of M ctx) bytes ctx.memory ≡ some ctx'.memory
    ptr_start : ptr ≡ start_of M ctx
    start' : start_of M ctx' ≡ start_of M ctx + length bytes
    free' : pos_part ctx'.arena_free_size ≡ pos_part ctx.arena_free_size - length bytes

  write_bytes-IsWritten :
      (bytes : List ℕ) (ctx : Context M) (ptr : ℕ) (ctx' : Context M)
      → write_bytes M bytes (length bytes) ctx ≡ done (ptr, ctx')
      → IsWritten bytes ctx ptr ctx'
  unfolding write_bytes
  write_bytes-IsWritten bytes ctx ptr ctx' h =
      let n = length bytes in
      let (memory, written, rest) =
        bind_inversion (unwrap (M.write (usize_of ctx.arena_start_ptr) bytes ctx.memory)) _
          (ptr, ctx') h in
      let (start, started, rest') =
        bind_inversion (add_i32 ctx.arena_start_ptr n) _ (ptr, ctx') rest in
      let (free, freed, last) =
        bind_inversion (sub_i32 ctx.arena_free_size n) _ (ptr, ctx') rest' in
      let stored = unwrap_inversion _ memory written in
      let (at, low, next) =
        add_i32_lem ctx.arena_start_ptr n start
          (M.write_fits (usize_of ctx.arena_start_ptr) bytes ctx.memory memory stored) started in
      let e = done-injective last in
      record {
        written =
            subst₂ (λ (p : ℕ) (m : M.State). M.write p bytes ctx.memory ≡ some m) at
              (ap (λ (r : ℕ × Context M). r.1.memory) e) stored;
        ptr_start = sym (ap (λ (r : ℕ × Context M). r.0) e) ∙ low;
        start' = ap (λ (r : ℕ × Context M). address r.1.arena_start_ptr) (sym e) ∙ next;
        free' =
            ap (λ (r : ℕ × Context M). pos_part r.1.arena_free_size) (sym e)
            ∙ sub_i32_lem ctx.arena_free_size n free freed;
      }

  module _ {bytes : List ℕ} {ctx : Context M} {ptr : ℕ} {ctx' : Context M}
      (w : IsWritten bytes ctx ptr ctx') (room : HasRoom M (length bytes) ctx) where
    write_bytes-IsSound : IsSound ctx'
    write_bytes-IsSound a above below =
        M.Taken-write _ bytes ctx.memory ctx'.memory w.written a
          (room a (omega (arith, w.start')) (ground (arith, w.start', w.free')))

    write_bytes-Holds : Holds ptr bytes ctx'
    write_bytes-Holds = record {
      held =
          subst (λ p. M.read p (length bytes) ctx'.memory ≡ some bytes) (sym w.ptr_start)
            (M.read-write _ bytes ctx.memory ctx'.memory w.written);
      taken = λ i h.
          M.Taken-write _ bytes ctx.memory ctx'.memory w.written (ptr + i)
            (room (ptr + i) (omega (arith, w.ptr_start)) (inl (omega (arith, w.ptr_start))));
      apart = λ i h. inl (omega (arith, w.ptr_start, w.start'));
    }

    write_bytes_keeps :
        (q : ℕ) (old : List ℕ) → IsApart M (length bytes) q old ctx → Holds q old ctx'
    write_bytes_keeps q old s = record {
      held =
          M.read-write_apart _ q (length old) bytes ctx.memory ctx'.memory w.written
            (λ i h. ground (arith, s.apart i h))
          ∙ s.held;
      taken = λ i h. M.Taken-write _ bytes ctx.memory ctx'.memory w.written (q + i) (s.taken i h);
      apart = λ i h. ground (arith, s.apart i h, w.start', w.free');
    }

  -- what the heap keeps from one state to the next
  abbrev pub Keeps : Context M → Context M → Type 0
  Keeps ctx ctx' = (q : ℕ) (old : List ℕ) → Holds q old ctx → Holds q old ctx'

  -- An object that fits into the free bytes has room.
  fitting-HasRoom :
      (size : ℕ) (ctx : Context M)
      → le_int (pos size) ctx.arena_free_size ≡ true
      → IsSound ctx
      → HasRoom M size ctx × ((q : ℕ) (old : List ℕ) → Holds q old ctx → IsApart M size q old ctx)
  fitting-HasRoom size ctx fits sound =
      let small : size ≤ pos_part ctx.arena_free_size = le_pos_part size ctx.arena_free_size fits in
      (
        λ a above below. sound a above (inr (ground (arith, small))),
        λ q old s. record {
          held = s.held;
          taken = s.taken;
          apart = λ i h. ground (arith, s.apart i h, small);
        },
      )
    where
      le_pos_part : (n : ℕ) (f : ℤ) → le_int (pos n) f ≡ true → n ≤ pos_part f
      le_pos_part n (pos f) h = ground (arith, h)
      le_pos_part n (negsuc f) h = absurd (ground (arith, h))

  written_after :
      (bytes : List ℕ) (ctx ctx₁ ctx' : Context M) (ptr : ℕ)
      → HasRoom M (length bytes) ctx₁
      → ((q : ℕ) (old : List ℕ) → Holds q old ctx → IsApart M (length bytes) q old ctx₁)
      → write_bytes M bytes (length bytes) ctx₁ ≡ done (ptr, ctx')
      → IsSound ctx' × Holds ptr bytes ctx' × Keeps ctx ctx'
  written_after bytes ctx ctx₁ ctx' ptr room apart h =
      let w = write_bytes-IsWritten bytes ctx₁ ptr ctx' h in
      (
        write_bytes-IsSound w room,
        write_bytes-Holds w room,
        λ q old s. write_bytes_keeps w room q old (apart q old s),
      )

  i32_of_size_lem : (n m : ℕ) → i32_of_size n ≡ done m → m ≡ n
  i32_of_size_lem n m h = ground (arith, h)

  -- Where the free bytes of the arena lie in blocks of the allocator, and the bytes to write are a
  -- multiple of 16 or the version is at most 0.0.4, `raw_new`, where it returns, has written the bytes
  -- at the pointer that it returns, inside the blocks of the allocator and outside the free bytes that
  -- are left; these lie in blocks again, and everything that was held in blocks outside the free bytes
  -- is still held.
  pub raw_new-Holds :
      (bytes : List ℕ) (ctx ctx' : Context M) (ptr : ℕ)
      → IsSound ctx
      → IsAligned M.version (length bytes)
      → raw_new M bytes ctx ≡ done (ptr, ctx')
      → IsSound ctx' × Holds ptr bytes ctx' × Keeps ctx ctx'
  unfolding raw_new
  raw_new-Holds bytes ctx ctx' ptr sound aligned h =
      let (size, sized, rest) = bind_inversion (i32_of_size (length bytes)) _ (ptr, ctx') h in
      let e = i32_of_size_lem (length bytes) size sized in
      let (ctx₁, arena, writes) =
        bind_inversion
          (if not (le_int (pos size) ctx.arena_free_size) then new_arena M size ctx else done ctx)
          (λ (c : Context M). write_bytes M bytes size c) (ptr, ctx') rest in
      let writes' = subst (λ n. write_bytes M bytes n ctx₁ ≡ done (ptr, ctx')) e writes in
      after ctx₁
        (subst
          (λ n.
            (if not (le_int (pos n) ctx.arena_free_size) then new_arena M n ctx else done ctx)
            ≡ done ctx₁)
          e arena)
        writes'
    where
      after :
          (ctx₁ : Context M)
          → (if not (le_int (pos (length bytes)) ctx.arena_free_size)
              then new_arena M (length bytes) ctx
              else done ctx)
            ≡ done ctx₁
          → write_bytes M bytes (length bytes) ctx₁ ≡ done (ptr, ctx')
          → IsSound ctx' × Holds ptr bytes ctx' × Keeps ctx ctx'
      after ctx₁ arena writes =
          elim (Bool-cases (le_int (pos (length bytes)) ctx.arena_free_size)) [
            | inl fits ↦
                let same = done-injective (rw fits at arena) in
                let (room, apart) = fitting-HasRoom (length bytes) ctx fits sound in
                written_after bytes ctx ctx ctx' ptr room apart (
                  subst (λ c. write_bytes M bytes (length bytes) c ≡ done (ptr, ctx')) (sym same)
                    writes)
            | inr full ↦
                let (room, apart) =
                  new_arena_room M (length bytes) ctx ctx₁ aligned (rw full at arena) in
                written_after bytes ctx ctx₁ ctx' ptr room (λ q old s. apart q old 0 s) writes
          ]
