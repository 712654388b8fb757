-- ===== src/AscAbi/Vectors.antt =====
-- Byte arrays and arrays of pointers as objects: `asc_new` and `asc_get` of massbit/src/runtime/asc_heap.rs
-- at the wrappers `TypedArray` and `Array` of runtime/wasm/src/asc_abi/class.rs.
pub mod RoundTrip
use test_ci_for_massbitproto.Prelude.{ℕ, if◌then◌else◌, List, [], ◌∷◌}
use test_ci_for_massbitproto.Prelude.Outcome.{Outcome, done, panic, ◌>>=◌}
use test_ci_for_massbitproto.AscHeap.Ptr.{Version, version_le, legacy_version, AscHeap}
use test_ci_for_massbitproto.AscAbi.Derive.{FieldType}
use test_ci_for_massbitproto.AscAbi.Structs.{new_struct, read_struct}
use test_ci_for_massbitproto.AscAbi.TypedArray as TypedArray
use test_ci_for_massbitproto.AscAbi.Array as Array

-- a `u32`, or a pointer
abbrev pub word : FieldType
word = FieldType.unsigned 4

abbrev pub four_words : List FieldType
four_words = word ∷ word ∷ word ∷ word ∷ []

abbrev pub three_words : List FieldType
three_words = word ∷ word ∷ word ∷ []

abbrev pub two_words : List FieldType
two_words = word ∷ word ∷ []

-- the fields of the variant of `TypedArray`
unfoldable pub typed_array_fields : TypedArray.TypedArray → List ℕ
typed_array_fields (TypedArray.version_0_0_4 a) = a.buffer ∷ a.byte_offset ∷ a.byte_length ∷ []
typed_array_fields (TypedArray.version_0_0_5 a) = a.buffer ∷ a.data_start ∷ a.byte_length ∷ []

unfoldable pub typed_array_of : Version → List ℕ → Outcome TypedArray.TypedArray
typed_array_of api_version (x ∷ y ∷ z ∷ []) =
    if version_le api_version legacy_version
    then done (TypedArray.version_0_0_4 (record { buffer = x; byte_offset = y; byte_length = z }))
    else done (TypedArray.version_0_0_5 (record { buffer = x; data_start = y; byte_length = z }))
typed_array_of api_version fields = panic

unfoldable pub array_types : Version → List FieldType
array_types api_version = if version_le api_version legacy_version then two_words else four_words

unfoldable pub array_fields : Array.Array → List ℕ
array_fields (Array.version_0_0_4 a) = a.buffer ∷ a.length ∷ []
array_fields (Array.version_0_0_5 a) =
    a.buffer ∷ a.buffer_data_start ∷ a.buffer_data_length ∷ a.length ∷ []

unfoldable pub array_of : List ℕ → Outcome Array.Array
array_of (x ∷ y ∷ []) = done (Array.version_0_0_4 (record { buffer = x; length = y }))
array_of (x ∷ y ∷ z ∷ w ∷ []) = done (
    Array.version_0_0_5
      (record { buffer = x; buffer_data_start = y; buffer_data_length = z; length = w }))
array_of fields = panic

module _ (H : AscHeap) where
  -- `asc_new` and `asc_get` of a `TypedArray` of elements of `size` bytes
  unfoldable pub new_vec : ℕ → ℕ → List ℕ → H.State → Outcome (ℕ × H.State)
  new_vec index size values heap = do
    (obj, heap') ← TypedArray.new H size values heap
    new_struct H index three_words (typed_array_fields obj) heap'

  unfoldable pub get_vec : ℕ → ℕ → H.State → Outcome (List ℕ)
  get_vec size ptr heap = do
    fields ← read_struct H 16 three_words ptr heap
    obj ← typed_array_of H.api_version fields
    TypedArray.to_vec H size obj heap

  -- `asc_new` and `asc_get` of an `Array` of pointers
  unfoldable pub new_pointers : ℕ → List ℕ → H.State → Outcome (ℕ × H.State)
  new_pointers index values heap = do
    (obj, heap') ← Array.new H 4 values heap
    new_struct H index (array_types H.api_version) (array_fields obj) heap'

  unfoldable pub get_pointers : ℕ → H.State → Outcome (List ℕ)
  get_pointers ptr heap = do
    fields ← read_struct H 20 (array_types H.api_version) ptr heap
    obj ← array_of fields
    Array.to_vec H 4 obj heap
