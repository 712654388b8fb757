-- ===== src/AscAbi/Array/V004.antt =====
-- `Array` of runtime/wasm/src/asc_abi/v0_0_4.rs.
use test_ci_for_massbitproto.Prelude.{ℕ, ◌%◌, List, length}
use test_ci_for_massbitproto.Prelude.Outcome.{Outcome, done, ◌>>=◌}
use test_ci_for_massbitproto.AscHeap.Bytes.{two_32}
use test_ci_for_massbitproto.AscHeap.Ptr.{AscHeap, alloc_obj, read_ptr}
use test_ci_for_massbitproto.AscAbi.Elements.{get_elements}
use test_ci_for_massbitproto.AscAbi.ArrayBuffer as Class
use test_ci_for_massbitproto.AscAbi.ArrayBuffer.{buffer_object}
use test_ci_for_massbitproto.AscAbi.ArrayBuffer.V004 as V004

pub record Array : Type 0 where
  pub buffer : ℕ
  pub length : ℕ

module _ (H : AscHeap) where
  unfoldable pub new : ℕ → List ℕ → H.State → Outcome (Array × H.State)
  new size content heap = do
    arr_buffer ← Class.new_buffer size content H.api_version
    (ptr, heap') ← alloc_obj H (buffer_object arr_buffer) heap
    done (record { buffer = ptr; length = length content % two_32 }, heap')

  unfoldable pub to_vec : ℕ → Array → H.State → Outcome (List ℕ)
  to_vec size array heap = do
    buffer ← read_ptr H (V004.asc_size H) (λ bytes _. V004.from_bytes bytes) array.buffer heap
    get_elements size 0 array.length buffer.content
