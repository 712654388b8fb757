-- ===== src/Wasm/Heap.antt =====
-- `impl AscHeap for WasmInstanceContext` of runtime/wasm/src/module/mod.rs keeps the laws of the trait.
use test_ci_for_massbitproto.Prelude.{
  ℕ, ◌+◌, ◌≤◌, ◌<◌, List, length, inl, inr, ◌≡◌, some, arith, ap, subst, Bool-cases,
}
use test_ci_for_massbitproto.Prelude.Outcome.{done, bind_inversion, done-injective}
use test_ci_for_massbitproto.AscHeap.Bytes.{take, drop}
use test_ci_for_massbitproto.AscHeap.Ptr.{version_le, legacy_version, AscHeap}
use test_ci_for_massbitproto.Wasm.Memory.{WasmMemory}
use test_ci_for_massbitproto.Wasm.Arena.{Context, new_context, raw_new, get, asc_type_id}
use test_ci_for_massbitproto.Wasm.Arena.Bounds.{IsSound, Holds, Keeps, raw_new-Holds}

module _ (M : WasmMemory) where
  pub get-Holds :
      (ptr : ℕ) (bytes : List ℕ) (ctx : Context M) (offset size : ℕ)
      → Holds M ptr bytes ctx
      → offset + size ≤ length bytes
      → get M (ptr + offset) size ctx ≡ done (take size (drop offset bytes))
  unfolding get
  get-Holds ptr bytes ctx offset size s fits =
      ground (arith, M.read_part ptr (length bytes) offset size bytes ctx.memory s.held fits)

  -- another memory with the same arena, in which everything taken is kept
  other_memory-Holds :
      (ctx : Context M) (memory : M.State)
      → ((a : ℕ) → M.Taken ctx.memory a → M.Taken memory a)
      → ((q k : ℕ) (bytes : List ℕ)
          → M.read q k ctx.memory ≡ some bytes
          → ((i : ℕ) → i < k → M.Taken ctx.memory (q + i))
          → M.read q k memory ≡ some bytes)
      → IsSound M ctx
      → IsSound M (record ctx { memory = memory }) × Keeps M ctx (record ctx { memory = memory })
  other_memory-Holds ctx memory taken read sound = (
    λ a above below. taken a (sound a above below),
    λ q old s. record {
      held = read q (length old) old s.held s.taken;
      taken = λ i h. taken (q + i) (s.taken i h);
      apart = s.apart;
    },
  )

  pub asc_type_id-Holds :
      (index : ℕ) (ctx ctx' : Context M) (id : ℕ)
      → IsSound M ctx
      → asc_type_id M index ctx ≡ done (id, ctx')
      → IsSound M ctx' × Keeps M ctx ctx'
  unfolding asc_type_id
  asc_type_id-Holds index ctx ctx' id sound h =
      elim (Bool-cases (version_le M.version legacy_version)) [
        | inl legacy ↦ absurd (ground (arith, rw legacy at h))
        | inr current ↦
            let ((id', memory), called, last) =
              bind_inversion (M.id_of_type index ctx.memory) _ (id, ctx') (rw current at h) in
            let (taken, read) = M.id_of_type_keeps index ctx.memory memory id' called in
            subst (λ (c : Context M). IsSound M c × Keeps M ctx c)
              (ap (λ (r : ℕ × Context M). r.1) (done-injective last))
              (other_memory-Holds ctx memory taken read sound)
      ]

  -- A new instance has no arena.
  pub new_context-IsSound : (memory : M.State) → IsSound M (new_context M memory)
  unfolding new_context
  new_context-IsSound memory a above below = absurd (omega arith)

  -- The contexts of the instance are a heap with the laws of `AscHeap`.
  abbrev pub wasm_heap : AscHeap
  wasm_heap = record {
    State = Context M;
    api_version = M.version;
    raw_new = raw_new M;
    get = get M;
    asc_type_id = asc_type_id M;
    Stored = Holds M;
    Sound = IsSound M;
    get-Stored = get-Holds;
    raw_new-Stored = raw_new-Holds M;
    asc_type_id-Stored = asc_type_id-Holds;
  }
