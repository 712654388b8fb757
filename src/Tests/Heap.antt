-- ===== src/Tests/Heap.antt =====
-- Objects in the heap of a module.
use test_ci_for_massbitproto.Prelude.{
  ℕ, ◌⊎◌, ◌+◌, ◌%◌, ◌<◌, ◌≤◌, ◌++◌, inr, Bool, true, false, String, List, [], ◌∷◌, length, ◌≡◌,
  refl, arith,
}
use test_ci_for_massbitproto.Prelude.Int.{negsuc}
use test_ci_for_massbitproto.Prelude.Outcome.{Outcome, done, failed, panic}
use test_ci_for_massbitproto.AscHeap.Ptr.{AscHeap}
use test_ci_for_massbitproto.AscAbi.Elements as Elements
use test_ci_for_massbitproto.AscAbi.Array as Array
use test_ci_for_massbitproto.AscAbi.Array.V005 as Array5
use test_ci_for_massbitproto.AscAbi.ArrayBuffer as ArrayBuffer
use test_ci_for_massbitproto.AscAbi.ArrayBuffer.V005 as ArrayBuffer5
use test_ci_for_massbitproto.AscAbi.AscString as AscString
use test_ci_for_massbitproto.AscAbi.AscString.V005 as AscString5
use test_ci_for_massbitproto.AscAbi.Derive as Derive
use test_ci_for_massbitproto.AscAbi.Scalars as Scalars
use test_ci_for_massbitproto.AscAbi.StoreValue as StoreValue
use test_ci_for_massbitproto.AscAbi.Structs as Structs
use test_ci_for_massbitproto.AscAbi.Utf16 as Utf16
use test_ci_for_massbitproto.AscAbi.Vectors as Vectors
use test_ci_for_massbitproto.AscHeap.Bytes as Bytes
use test_ci_for_massbitproto.AscHeap.Ptr as Ptr
use test_ci_for_massbitproto.AscHeap.Words as Words
use test_ci_for_massbitproto.Wasm.Arena as Arena
use test_ci_for_massbitproto.Wasm.Arena.{Context, new_context, raw_new, get}
use test_ci_for_massbitproto.Wasm.Heap.{wasm_heap, new_context-IsSound}
use test_ci_for_massbitproto.Data.Value.{Value, Values}
use test_ci_for_massbitproto.AscAbi.StoreValue.{new_enum, new_payload, new_values, new_value}
use test_ci_for_massbitproto.AscAbi.StoreValue.{get_value}
use test_ci_for_massbitproto.AscAbi.StoreValue.Payload.{FitsValue, sanitized, depth_of}
use test_ci_for_massbitproto.AscAbi.StoreValue.RoundTrip.{get_value-new_value}
use test_ci_for_massbitproto.AscAbi.Utf16.{encode_utf16}
use test_ci_for_massbitproto.AscHeap.Bytes.{zeros}
use test_ci_for_massbitproto.AscHeap.Ptr.{AscObject, alloc_obj, read_len, padded, header}
use test_ci_for_massbitproto.AscHeap.Header.{alloc_obj_lem}
use test_ci_for_massbitproto.AscAbi.AscString.V004 as AscString4
use test_ci_for_massbitproto.AscAbi.AscString.RoundTrip.{get_string-new_string}
use test_ci_for_massbitproto.AscAbi.TypedArray as TypedArray
use test_ci_for_massbitproto.AscAbi.TypedArray.V005 as TypedArray5
use test_ci_for_massbitproto.AscAbi.ArrayBuffer.Values.{Fit}
use test_ci_for_massbitproto.AscAbi.RoundTrip.{to_vec-new}
use test_ci_for_massbitproto.AscAbi.Derive.{FieldType, struct_from_asc_bytes}
use test_ci_for_massbitproto.AscAbi.Derive.Errors.{AreKnown, values_in, struct_from_asc_bytes_lem}
use test_ci_for_massbitproto.Wasm.Arena.Bounds.{IsSound, Holds, Keeps, raw_new-Holds}
use test_ci_for_massbitproto.Tests.Codec.{wholes, codec}
use test_ci_for_massbitproto.Tests.Memory.{memory, empty, version_0_0_4, version_0_0_5}

abbrev is_done : {A : Type 0} → Outcome A → Bool
is_done (done a) = true
is_done o = false

abbrev H5 : AscHeap
H5 = wasm_heap (memory version_0_0_5)

abbrev start : Context (memory version_0_0_5)
start = new_context (memory version_0_0_5) empty

abbrev after : {A : Type 0} → Outcome A → A → A
after (done a) b = a
after o b = b

abbrev list_of_two : Value wholes
list_of_two =
    Value.list (Values.cons (Value.string "ab") (Values.cons (Value.int (negsuc 6)) Values.nil))

-- the pointer and the heap after the list was allocated
abbrev ran : ℕ × Context (memory version_0_0_5)
ran = after (new_value H5 codec list_of_two start) (0, start)

is_done-eq : {A : Type 0} (o : Outcome A) (a : A) → is_done o ≡ true → o ≡ done (after o a)
is_done-eq (done b) a h = refl
is_done-eq (failed e) a h = absurd (ground (arith, h))
is_done-eq panic a h = absurd (ground (arith, h))

runs : is_done (new_value H5 codec list_of_two start) ≡ true
unfolding new_context new_value new_enum new_payload new_values raw_new Scalars.new_text
    AscString.new_string AscString.new AscString5.new encode_utf16 Utf16.units_of Ptr.alloc_obj
    AscString.to_asc_bytes AscString5.to_asc_bytes AscString.content_len Ptr.generate_header
    Arena.asc_type_id Ptr.header Bytes.to_le_bytes Ptr.padded AscString5.layout Elements.content_of
    Array5.new Array.new ArrayBuffer5.content_len ArrayBuffer5.layout ArrayBuffer5.new
    ArrayBuffer5.to_asc_bytes ArrayBuffer.buffer_content_len ArrayBuffer.buffer_to_asc_bytes
    ArrayBuffer.new_buffer AscString5.content_len Derive.write_fields Elements.next_power_of_two
    StoreValue.discriminant StoreValue.get_kind StoreValue.payload_of_i32 Structs.new_struct
    Vectors.array_fields Vectors.array_types Vectors.new_pointers Bytes.from_le_bytes
    Bytes.padding_to_16 Ptr.check_is_not_null Ptr.is_null Ptr.read_len Ptr.start_of_rt_size
    Words.le_bytes Arena.arena_at Arena.arena_size_for Arena.new_arena Arena.write_bytes Arena.get
runs = refl

fits : FitsValue H5 refl codec list_of_two
unfolding FitsValue encode_utf16 Utf16.units_of
fits = omega arith

get_value-new_value_example :
    IsSound (memory version_0_0_5) ran.1
    × Keeps (memory version_0_0_5) start ran.1
    × (get_value H5 codec 2 ran.0 ran.1 ≡ done (sanitized list_of_two))
unfolding depth_of
get_value-new_value_example =
    get_value-new_value H5 refl codec list_of_two start ran.1 ran.1 ran.0 2 fits
      (new_context-IsSound (memory version_0_0_5) empty)
      (is_done-eq (new_value H5 codec list_of_two start) (0, start) runs) (λ q old s. s)
      (omega arith)

abbrev three_bytes : AscObject
three_bytes = record {
  to_asc_bytes = done (1 ∷ 2 ∷ 3 ∷ []);
  content_len = λ bytes. done 3;
  index_asc_type_id = 6;
}

abbrev three_padded : List ℕ
three_padded = padded H5 (1 ∷ 2 ∷ 3 ∷ [])

abbrev three_written : Outcome (ℕ × Context (memory version_0_0_5))
three_written = H5.raw_new (header 6 3 (length three_padded) ++ three_padded) start

three_written-is_done : is_done three_written ≡ true
unfolding new_context raw_new padded header Bytes.to_le_bytes Bytes.padding_to_16 Arena.arena_at
    Arena.arena_size_for Arena.new_arena Arena.write_bytes
three_written-is_done = refl

three_start : (after three_written (0, start)).0 ≡ 28
unfolding new_context raw_new padded header Bytes.to_le_bytes Bytes.padding_to_16 Arena.arena_at
    Arena.arena_size_for Arena.new_arena Arena.write_bytes
three_start = refl

alloc_obj_lem_example :
    (alloc_obj H5 three_bytes start
      ≡ done ((after three_written (0, start)).0 + 20, (after three_written (0, start)).1))
    × ((20 + length three_padded) % 16 ≡ 0)
    × (read_len H5 ((after three_written (0, start)).0 + 20) (after three_written (0, start)).1
        ≡ done 3)
unfolding Arena.asc_type_id
alloc_obj_lem_example =
    alloc_obj_lem H5 three_bytes (1 ∷ 2 ∷ 3 ∷ []) 3 6 (after three_written (0, start)).0 start start
      (after three_written (0, start)).1 (new_context-IsSound (memory version_0_0_5) empty) refl
      refl refl refl (is_done-eq three_written (0, start) three_written-is_done)
      (omega (arith, three_start)) (omega arith)

-- an arena for 32 bytes
abbrev zeros_32 : List ℕ
zeros_32 = zeros 32

abbrev zeros_written : Outcome (ℕ × Context (memory version_0_0_5))
zeros_written = raw_new (memory version_0_0_5) zeros_32 start

zeros_written-is_done : is_done zeros_written ≡ true
unfolding new_context raw_new Arena.arena_at Arena.arena_size_for Arena.new_arena Arena.write_bytes
zeros_written-is_done = refl

raw_new-Holds_example :
    IsSound (memory version_0_0_5) (after zeros_written (0, start)).1
    × Holds
        (memory version_0_0_5)
        (after zeros_written (0, start)).0
        zeros_32
        (after zeros_written (0, start)).1
    × Keeps (memory version_0_0_5) start (after zeros_written (0, start)).1
raw_new-Holds_example =
    raw_new-Holds (memory version_0_0_5) zeros_32 start (after zeros_written (0, start)).1
      (after zeros_written (0, start)).0 (new_context-IsSound (memory version_0_0_5) empty)
      (inr refl) (is_done-eq zeros_written (0, start) zeros_written-is_done)

-- four elements of two bytes, of which two are given back
abbrev four : List ℕ
four = 1 ∷ 2 ∷ 3 ∷ 400 ∷ []

abbrev typed_four : Outcome (TypedArray.TypedArray × Context (memory version_0_0_5))
typed_four = TypedArray.new H5 2 four start

abbrev no_array : TypedArray.TypedArray × Context (memory version_0_0_5)
no_array =
    (TypedArray.version_0_0_5 (record { buffer = 0; data_start = 0; byte_length = 0 }), start)

typed_four-is_done : is_done typed_four ≡ true
unfolding new_context raw_new Ptr.alloc_obj Ptr.generate_header Arena.asc_type_id header
    Bytes.to_le_bytes padded Elements.content_of ArrayBuffer5.content_len ArrayBuffer5.layout
    ArrayBuffer5.new ArrayBuffer5.to_asc_bytes ArrayBuffer.buffer_content_len
    ArrayBuffer.buffer_to_asc_bytes ArrayBuffer.new_buffer Elements.next_power_of_two
    Bytes.padding_to_16 Words.le_bytes Arena.arena_at Arena.arena_size_for Arena.new_arena
    Arena.write_bytes TypedArray.new TypedArray5.new
typed_four-is_done = refl

four-Fit : Fit 1 four
unfolding Words.values_of
four-Fit = omega arith

to_vec-new_example :
    IsSound (memory version_0_0_5) (after typed_four no_array).1
    × Keeps (memory version_0_0_5) start (after typed_four no_array).1
    × (TypedArray.to_vec H5 2 (after typed_four no_array).0 (after typed_four no_array).1
        ≡ done (1 ∷ 2 ∷ []))
to_vec-new_example =
    to_vec-new H5 1 four four-Fit start (after typed_four no_array).1 (after typed_four no_array).0
      (after typed_four no_array).1 (new_context-IsSound (memory version_0_0_5) empty)
      (is_done-eq typed_four no_array typed_four-is_done) (λ q old s. s)

-- "ab" in the heap of version 0.0.4
abbrev H4 : AscHeap
H4 = wasm_heap (memory version_0_0_4)

abbrev start4 : Context (memory version_0_0_4)
start4 = new_context (memory version_0_0_4) empty

abbrev ab_written : Outcome (ℕ × Context (memory version_0_0_4))
ab_written = AscString.new_string H4 (97 ∷ 98 ∷ []) start4

ab_written-is_done : is_done ab_written ≡ true
unfolding new_context raw_new Ptr.alloc_obj AscString.new_string AscString.new AscString4.new
    AscString.to_asc_bytes AscString4.to_asc_bytes AscString4.layout Elements.content_of
    Words.le_bytes Arena.arena_at Arena.arena_size_for Arena.new_arena Arena.write_bytes
ab_written-is_done = refl

get_string-new_string_example :
    IsSound (memory version_0_0_4) (after ab_written (0, start4)).1
    × Keeps (memory version_0_0_4) start4 (after ab_written (0, start4)).1
    × (AscString.get_string H4 (after ab_written (0, start4)).0 (after ab_written (0, start4)).1
        ≡ done (97 ∷ 98 ∷ []))
get_string-new_string_example =
    get_string-new_string H4 (97 ∷ 98 ∷ []) (omega arith) start4 (after ab_written (0, start4)).1
      (after ab_written (0, start4)).0 (after ab_written (0, start4)).1
      (new_context-IsSound (memory version_0_0_4) empty)
      (is_done-eq ab_written (0, start4) ab_written-is_done) (λ q old s. s)

-- `AscWrapped<bool>`: a byte other than 0 is `true`.
wrapped_bool_read :
    struct_from_asc_bytes (FieldType.boolean ∷ []) (2 ∷ zeros 3) version_0_0_5 ≡ done (1 ∷ [])
unfolding struct_from_asc_bytes Derive.read_fields Derive.field_from_asc_bytes
    Derive.bool_from_asc_bytes Bytes.padding_to_16
wrapped_bool_read = refl

-- an enum of three variants and a number, from bytes of which the first are no discriminant
abbrev enum_and_number : List FieldType
enum_and_number = FieldType.derived_enum 3 ∷ FieldType.unsigned 4 ∷ []

struct_from_asc_bytes_lem_example :
    ((8 ≤ 8)
      × AreKnown enum_and_number (3 ∷ zeros 7)
      × (struct_from_asc_bytes enum_and_number (3 ∷ zeros 7) version_0_0_5
          ≡ done (values_in enum_and_number (3 ∷ zeros 7))))
    ⊎ (((8 < 8) ⊎ (¬ AreKnown enum_and_number (3 ∷ zeros 7)))
        × (e : String) × (struct_from_asc_bytes enum_and_number (3 ∷ zeros 7) version_0_0_5
            ≡ failed e))
struct_from_asc_bytes_lem_example =
    struct_from_asc_bytes_lem enum_and_number (3 ∷ zeros 7) version_0_0_5
