-- ===== src/AscAbi/AscString.antt =====
-- The wrapper `AscString` of runtime/wasm/src/asc_abi/class.rs.
pub mod V004
pub mod V005
pub mod RoundTrip
use test_ci_for_massbitproto.Prelude.{ℕ, if◌then◌else◌, List}
use test_ci_for_massbitproto.Prelude.Outcome.{Outcome, done, panic, ◌>>=◌}
use test_ci_for_massbitproto.AscHeap.Ptr.{
  Version, version_le, legacy_version, AscHeap, AscObject, alloc_obj, read_ptr,
}

pub data AscString : Type 0 where
  version_0_0_4 : V004.AscString → AscString
  version_0_0_5 : V005.AscString → AscString

unfoldable pub new : List ℕ → Version → Outcome AscString
new content api_version =
    if version_le api_version legacy_version
    then (do s ← V004.new content; done (version_0_0_4 s))
    else (do s ← V005.new content; done (version_0_0_5 s))

unfoldable pub content : AscString → List ℕ
content (version_0_0_4 s) = s.content
content (version_0_0_5 s) = s.content

unfoldable pub to_asc_bytes : AscString → Outcome (List ℕ)
to_asc_bytes (version_0_0_4 s) = V004.to_asc_bytes s
to_asc_bytes (version_0_0_5 s) = V005.to_asc_bytes s

unfoldable pub from_asc_bytes : List ℕ → Version → Outcome AscString
from_asc_bytes asc_obj api_version =
    if version_le api_version legacy_version
    then (do s ← V004.from_bytes asc_obj; done (version_0_0_4 s))
    else (do s ← V005.from_bytes asc_obj; done (version_0_0_5 s))

unfoldable pub asc_size : (H : AscHeap) → ℕ → H.State → Outcome ℕ
asc_size H ptr heap = V004.asc_size H ptr heap

-- `unreachable!` for the first
unfoldable pub content_len : AscString → List ℕ → Outcome ℕ
content_len (version_0_0_4 s) asc_bytes = panic
content_len (version_0_0_5 s) asc_bytes = done (V005.content_len s)

-- `IndexForAscTypeId::String`
abbrev pub string_object : AscString → AscObject
string_object s = record {
  to_asc_bytes = to_asc_bytes s;
  content_len = content_len s;
  index_asc_type_id = 0;
}

module _ (H : AscHeap) where
  -- `asc_new` and `asc_get` of a text, by its code units
  unfoldable pub new_string : List ℕ → H.State → Outcome (ℕ × H.State)
  new_string units heap = do s ← new units H.api_version; alloc_obj H (string_object s) heap

  unfoldable pub get_string : ℕ → H.State → Outcome (List ℕ)
  get_string ptr heap = do s ← read_ptr H (asc_size H) from_asc_bytes ptr heap; done (content s)
