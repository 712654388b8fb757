-- ===== src/AscAbi/Array/V005.antt =====
-- `Array` of runtime/wasm/src/asc_abi/v0_0_5.rs.
use test_ci_for_massbitproto.Prelude.{ℕ, ◌%◌, List, length}
use test_ci_for_massbitproto.Prelude.Outcome.{Outcome, done, ◌>>=◌, ◌>>◌}
use test_ci_for_massbitproto.AscHeap.Bytes.{two_32}
use test_ci_for_massbitproto.AscHeap.Ptr.{AscHeap, alloc_obj, read_len, check_is_not_null}
use test_ci_for_massbitproto.AscAbi.Elements.{get_elements}
use test_ci_for_massbitproto.AscAbi.ArrayBuffer as Class
use test_ci_for_massbitproto.AscAbi.ArrayBuffer.{buffer_object}
use test_ci_for_massbitproto.AscAbi.TypedArray.V005.{offset_in, read_buffer}

-- `length` is an `i32`, by its bits.
pub record Array : Type 0 where
  pub buffer : ℕ
  pub buffer_data_start : ℕ
  pub buffer_data_length : ℕ
  pub length : ℕ

module _ (H : AscHeap) where
  unfoldable pub new : ℕ → List ℕ → H.State → Outcome (Array × H.State)
  new size content heap = do
    arr_buffer ← Class.new_buffer size content H.api_version
    (ptr, heap') ← alloc_obj H (buffer_object arr_buffer) heap
    buffer_data_length ← read_len H ptr heap'
    done (
      record {
        buffer = ptr;
        buffer_data_start = ptr;
        buffer_data_length = buffer_data_length;
        length = length content % two_32;
      },
      heap',
    )

  unfoldable pub to_vec : ℕ → Array → H.State → Outcome (List ℕ)
  to_vec size array heap = do
    check_is_not_null array.buffer
    buffer_data_start_with_offset ← offset_in array.buffer_data_start array.buffer
    buffer ← read_buffer H array.buffer heap
    get_elements size buffer_data_start_with_offset array.length buffer.content
