-- ===== src/AscAbi/TypedArray/V004.antt =====
-- `TypedArray` of runtime/wasm/src/asc_abi/v0_0_4.rs.
use test_ci_for_massbitproto.Prelude.{ℕ, ◌/◌, List}
use test_ci_for_massbitproto.Prelude.Outcome.{Outcome, done, panic, ◌>>=◌}
use test_ci_for_massbitproto.AscHeap.Ptr.{AscHeap, alloc_obj, read_ptr}
use test_ci_for_massbitproto.AscAbi.Elements.{get_elements}
use test_ci_for_massbitproto.AscAbi.ArrayBuffer as Class
use test_ci_for_massbitproto.AscAbi.ArrayBuffer.{ArrayBuffer, buffer_object}
use test_ci_for_massbitproto.AscAbi.ArrayBuffer.V004 as V004

pub record TypedArray : Type 0 where
  pub buffer : ℕ
  pub byte_offset : ℕ
  pub byte_length : ℕ

-- `unreachable!` for the second
unfoldable pub buffer_byte_length : ArrayBuffer → Outcome ℕ
buffer_byte_length (ArrayBuffer.version_0_0_4 a) = done a.byte_length
buffer_byte_length (ArrayBuffer.version_0_0_5 a) = panic

module _ (H : AscHeap) where
  unfoldable pub new : ℕ → List ℕ → H.State → Outcome (TypedArray × H.State)
  new size content heap = do
    buffer ← Class.new_buffer size content H.api_version
    byte_length ← buffer_byte_length buffer
    (ptr, heap') ← alloc_obj H (buffer_object buffer) heap
    done (record { buffer = ptr; byte_offset = 0; byte_length = byte_length }, heap')

  unfoldable pub to_vec : ℕ → TypedArray → H.State → Outcome (List ℕ)
  to_vec size array heap = do
    buffer ← read_ptr H (V004.asc_size H) (λ bytes _. V004.from_bytes bytes) array.buffer heap
    get_elements size array.byte_offset (array.byte_length / size) buffer.content
