-- ===== src/AscAbi/ArrayBuffer/V004.antt =====
-- `ArrayBuffer` of runtime/wasm/src/asc_abi/v0_0_4.rs.
use test_ci_for_massbitproto.Prelude.{ℕ, ◌+◌, ◌-◌, ltb, ◌==◌, if◌then◌else◌, List, ◌++◌, length}
use test_ci_for_massbitproto.Prelude.Outcome.{Outcome, done, failed, ◌>>=◌, ◌>>◌, assert}
use test_ci_for_massbitproto.AscHeap.Bytes.{two_32, take, drop, zeros}
use test_ci_for_massbitproto.AscHeap.Words.{le_bytes, from_asc_bytes}
use test_ci_for_massbitproto.AscHeap.Ptr.{AscHeap, checked_u32, read_u32}
use test_ci_for_massbitproto.AscAbi.Elements.{content_of, next_power_of_two}

-- without its padding, which is four zeros
pub record ArrayBuffer : Type 0 where
  pub byte_length : ℕ
  pub content : List ℕ

unfoldable pub new : ℕ → List ℕ → Outcome ArrayBuffer
new size values =
    let content = content_of size values in
    if ltb (two_32 - 1) (length content)
    then failed "slice cannot fit in WASM memory"
    else done (record { byte_length = length content; content = content })

unfoldable pub layout : ArrayBuffer → List ℕ
layout buffer =
    let total_size = buffer.byte_length + 8 in
    le_bytes 4 buffer.byte_length
    ++ (zeros 4 ++ (buffer.content ++ zeros (next_power_of_two total_size - total_size)))

unfoldable pub to_asc_bytes : ArrayBuffer → Outcome (List ℕ)
to_asc_bytes buffer = do
  assert (length (layout buffer) == next_power_of_two (buffer.byte_length + 8))
  done (layout buffer)

unfoldable pub from_bytes : List ℕ → Outcome ArrayBuffer
from_bytes asc_obj =
    if ltb (length asc_obj) 8 then failed "Attempted to read past end of array" else (do
      byte_length ← from_asc_bytes 4 (take 4 asc_obj)
      done (record { byte_length = byte_length; content = drop 8 asc_obj }))

unfoldable pub asc_size : (H : AscHeap) → ℕ → H.State → Outcome ℕ
asc_size H ptr heap = do byte_length ← read_u32 H ptr heap; checked_u32 (4 + 4 + byte_length)
