-- ===== src/AscAbi/TypedArray/V005.antt =====
-- `TypedArray` of runtime/wasm/src/asc_abi/v0_0_5.rs.
use test_ci_for_massbitproto.Prelude.{ℕ, ◌-◌, ◌/◌, ◌%◌, leb, if◌then◌else◌, List, length}
use test_ci_for_massbitproto.Prelude.Outcome.{Outcome, done, failed, ◌>>=◌, ◌>>◌}
use test_ci_for_massbitproto.AscHeap.Bytes.{two_32}
use test_ci_for_massbitproto.AscHeap.Ptr.{AscHeap, alloc_obj, read_ptr, check_is_not_null}
use test_ci_for_massbitproto.AscAbi.Elements.{get_elements}
use test_ci_for_massbitproto.AscAbi.ArrayBuffer as Class
use test_ci_for_massbitproto.AscAbi.ArrayBuffer.{buffer_object}
use test_ci_for_massbitproto.AscAbi.ArrayBuffer.V005 as V005

pub record TypedArray : Type 0 where
  pub buffer : ℕ
  pub data_start : ℕ
  pub byte_length : ℕ

-- the start of the data in the buffer
unfoldable pub offset_in : ℕ → ℕ → Outcome ℕ
offset_in data_start buffer =
    if leb buffer data_start
    then done (data_start - buffer)
    else failed "Subtract overflow on pointer: {}"

module _ (H : AscHeap) where
  -- The default `asc_size` of a class is its size in memory, which later versions do not use.
  unfoldable pub read_buffer : ℕ → H.State → Outcome V005.ArrayBuffer
  read_buffer = read_ptr H (λ ptr heap. done 24) (λ bytes _. V005.from_bytes bytes)

  unfoldable pub new : ℕ → List ℕ → H.State → Outcome (TypedArray × H.State)
  new size content heap = do
    buffer ← Class.new_buffer size content H.api_version
    (ptr, heap') ← alloc_obj H (buffer_object buffer) heap
    done (record { buffer = ptr; data_start = ptr; byte_length = length content % two_32 }, heap')

  unfoldable pub to_vec : ℕ → TypedArray → H.State → Outcome (List ℕ)
  to_vec size array heap = do
    check_is_not_null array.buffer
    data_start_with_offset ← offset_in array.data_start array.buffer
    buffer ← read_buffer array.buffer heap
    get_elements size data_start_with_offset (array.byte_length / size) buffer.content
