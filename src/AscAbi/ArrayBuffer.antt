-- ===== src/AscAbi/ArrayBuffer.antt =====
-- The wrapper `ArrayBuffer` of runtime/wasm/src/asc_abi/class.rs.
pub mod V004
pub mod V005
pub mod RoundTrip
pub mod Values
use test_ci_for_massbitproto.Prelude.{ℕ, if◌then◌else◌, List}
use test_ci_for_massbitproto.Prelude.Outcome.{Outcome, done, panic, ◌>>=◌}
use test_ci_for_massbitproto.AscHeap.Ptr.{Version, version_le, legacy_version, AscHeap, AscObject}

pub data ArrayBuffer : Type 0 where
  version_0_0_4 : V004.ArrayBuffer → ArrayBuffer
  version_0_0_5 : V005.ArrayBuffer → ArrayBuffer

unfoldable pub new_buffer : ℕ → List ℕ → Version → Outcome ArrayBuffer
new_buffer size values api_version =
    if version_le api_version legacy_version
    then (do a ← V004.new size values; done (version_0_0_4 a))
    else (do a ← V005.new size values; done (version_0_0_5 a))

unfoldable pub buffer_to_asc_bytes : ArrayBuffer → Outcome (List ℕ)
buffer_to_asc_bytes (version_0_0_4 a) = V004.to_asc_bytes a
buffer_to_asc_bytes (version_0_0_5 a) = V005.to_asc_bytes a

unfoldable pub buffer_from_asc_bytes : List ℕ → Version → Outcome ArrayBuffer
buffer_from_asc_bytes asc_obj api_version =
    if version_le api_version legacy_version
    then (do a ← V004.from_bytes asc_obj; done (version_0_0_4 a))
    else (do a ← V005.from_bytes asc_obj; done (version_0_0_5 a))

unfoldable pub buffer_asc_size : (H : AscHeap) → ℕ → H.State → Outcome ℕ
buffer_asc_size H ptr heap = V004.asc_size H ptr heap

-- `unreachable!` for the first
unfoldable pub buffer_content_len : ArrayBuffer → List ℕ → Outcome ℕ
buffer_content_len (version_0_0_4 a) asc_bytes = panic
buffer_content_len (version_0_0_5 a) asc_bytes = done (V005.content_len a)

-- `IndexForAscTypeId::ArrayBuffer`
abbrev pub buffer_object : ArrayBuffer → AscObject
buffer_object a = record {
  to_asc_bytes = buffer_to_asc_bytes a;
  content_len = buffer_content_len a;
  index_asc_type_id = 1;
}
