-- ===== src/AscAbi/ArrayBuffer/V005.antt =====
-- `ArrayBuffer` of runtime/wasm/src/asc_abi/v0_0_5.rs.
use test_ci_for_massbitproto.Prelude.{ℕ, ◌+◌, ◌-◌, ltb, if◌then◌else◌, List, ◌++◌, length}
use test_ci_for_massbitproto.Prelude.Outcome.{Outcome, done, failed}
use test_ci_for_massbitproto.AscHeap.Bytes.{two_32, zeros, header_size}
use test_ci_for_massbitproto.AscAbi.Elements.{content_of, next_power_of_two}

pub record ArrayBuffer : Type 0 where
  pub byte_length : ℕ
  pub content : List ℕ

unfoldable pub new : ℕ → List ℕ → Outcome ArrayBuffer
new size values =
    let content = content_of size values in
    if ltb (two_32 - 1) (length content)
    then failed "slice cannot fit in WASM memory"
    else done (record { byte_length = length content; content = content })

unfoldable pub layout : ArrayBuffer → List ℕ
layout buffer =
    let total_size = buffer.byte_length + header_size in
    buffer.content ++ zeros (next_power_of_two total_size - total_size)

unfoldable pub to_asc_bytes : ArrayBuffer → Outcome (List ℕ)
to_asc_bytes buffer = done (layout buffer)

unfoldable pub from_bytes : List ℕ → Outcome ArrayBuffer
from_bytes asc_obj = done (record { byte_length = length asc_obj; content = asc_obj })

-- without the extra capacity
unfoldable pub content_len : ArrayBuffer → ℕ
content_len buffer = buffer.byte_length
