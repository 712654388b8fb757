-- ===== src/AscAbi/Derive.antt =====
-- `#[derive(AscType)]` on a struct: runtime/derive/src/lib.rs. A struct is known by the types of its
-- fields, and its value by the bits of the fields.
pub mod Errors
use test_ci_for_massbitproto.Prelude.{
  ℕ, zero, suc, String, ℕ_discrete, Bool-cases, inl, inr, ◌+◌, ◌≤◌, ◌<◌, ltb, ◌==◌, if◌then◌else◌,
  List, [], ◌∷◌, ◌++◌, length, ◌≡◌, refl, append_assoc, arith,
}
use test_ci_for_massbitproto.Prelude.Outcome.{Outcome, done, failed, ◌>>=◌}
use test_ci_for_massbitproto.AscHeap.Bytes.{take, drop, header_size, padding_to_16, length-append}
use test_ci_for_massbitproto.AscHeap.Words.{
  le_bytes, values_of, of_le_bytes, from_asc_bytes, length-le_bytes, from_asc_bytes-le_bytes,
  of_le_bytes-le_bytes,
}
use test_ci_for_massbitproto.AscHeap.Ptr.{Version, version_le, legacy_version, AscObject}
use test_ci_for_massbitproto.AscAbi.Elements.{take_append, drop_append}

-- What a derived struct reads of the type of a field: an unsigned type or a pointer of some bytes, a
-- `bool`, which is 0 or 1, or an enum with `#[derive(AscType)]` and so many variants, which is its
-- discriminant.
pub data FieldType : Type 0 where
  unsigned : ℕ → FieldType
  boolean : FieldType
  derived_enum : ℕ → FieldType

-- `size_of` of the type of a field; a derived enum is `repr(u32)`
abbrev pub field_size : FieldType → ℕ
field_size (unsigned size) = size
field_size boolean = 1
field_size (derived_enum variants) = 4

-- `size_of::<Self>()`: no struct has padding between its fields.
abbrev pub size_of : List FieldType → ℕ
size_of [] = 0
size_of (t ∷ types) = field_size t + size_of types

unfoldable pub write_fields : List FieldType → List ℕ → List ℕ
write_fields [] values = []
write_fields (t ∷ types) [] = []
write_fields (t ∷ types) (v ∷ values) = le_bytes (field_size t) v ++ write_fields types values

unfoldable pub bool_from_asc_bytes : List ℕ → Outcome ℕ
bool_from_asc_bytes [] = failed "Incorrect size for bool. Expected 1, got {},"
bool_from_asc_bytes (b ∷ []) = done (if b == 0 then 0 else 1)
bool_from_asc_bytes (b ∷ c ∷ rest) = failed "Incorrect size for bool. Expected 1, got {},"

-- the discriminant of an enum, which has to be that of a variant
unfoldable pub enum_from_asc_bytes : ℕ → List ℕ → Outcome ℕ
enum_from_asc_bytes variants asc_obj =
    if length asc_obj == 4
    then (if ltb (of_le_bytes asc_obj) variants
        then done (of_le_bytes asc_obj)
        else failed "value {} is out of range for {}")
    else failed "Invalid asc bytes size"

-- `from_asc_bytes` of the type of a field
unfoldable pub field_from_asc_bytes : FieldType → List ℕ → Outcome ℕ
field_from_asc_bytes (unsigned size) asc_obj = from_asc_bytes size asc_obj
field_from_asc_bytes boolean asc_obj = bool_from_asc_bytes asc_obj
field_from_asc_bytes (derived_enum variants) asc_obj = enum_from_asc_bytes variants asc_obj

unfoldable pub read_fields : List FieldType → List ℕ → Outcome (List ℕ)
read_fields [] asc_obj = done []
read_fields (t ∷ types) asc_obj =
    if ltb (length asc_obj) (field_size t)
    then failed "Attempted to read past end of array"
    else (do
      value ← field_from_asc_bytes t (take (field_size t) asc_obj)
      values ← read_fields types (drop (field_size t) asc_obj)
      done (value ∷ values))

unfoldable pub struct_from_asc_bytes : List FieldType → List ℕ → Version → Outcome (List ℕ)
struct_from_asc_bytes types asc_obj api_version =
    if version_le api_version legacy_version
    then (if ltb (length asc_obj) (size_of types)
        then failed "Size does not match"
        else read_fields types asc_obj)
    else if header_size + length asc_obj == padding_to_16 (size_of types) + size_of types
    then failed "Size does not match"
    else read_fields types asc_obj

-- an object of a struct whose class has the index `index`
abbrev pub struct_object : ℕ → List FieldType → List ℕ → AscObject
struct_object index types values = record {
  to_asc_bytes = done (write_fields types values);
  content_len = λ asc_bytes. done (length asc_bytes);
  index_asc_type_id = index;
}

-- the value is one of the type
abbrev pub Admits : FieldType → ℕ → Type 0
Admits (unsigned size) v = v < values_of size
Admits boolean v = v < 2
Admits (derived_enum variants) v = (v < variants) × (v < values_of 4)

-- the fields have values of their types
abbrev pub Fields : List FieldType → List ℕ → Type 0
Fields [] [] = Unit
Fields [] (v ∷ values) = ⊥
Fields (t ∷ types) [] = ⊥
Fields (t ∷ types) (v ∷ values) = Admits t v × Fields types values

pub length-write_fields :
    (types : List FieldType) (values : List ℕ)
    → Fields types values
    → length (write_fields types values) ≡ size_of types
unfolding write_fields
length-write_fields [] [] h = refl
length-write_fields [] (v ∷ values) h = absurd h
length-write_fields (t ∷ types) [] h = absurd h
length-write_fields (t ∷ types) (v ∷ values) (small, rest) = omega (
  arith,
  length-append (le_bytes (field_size t) v) (write_fields types values),
  length-le_bytes (field_size t) v,
  length-write_fields types values rest,
)

field_from_asc_bytes-le_bytes :
    (t : FieldType) (v : ℕ)
    → Admits t v
    → field_from_asc_bytes t (le_bytes (field_size t) v) ≡ done v
unfolding field_from_asc_bytes enum_from_asc_bytes bool_from_asc_bytes le_bytes
field_from_asc_bytes-le_bytes (unsigned size) v small = from_asc_bytes-le_bytes size v small
field_from_asc_bytes-le_bytes boolean zero small = refl
field_from_asc_bytes-le_bytes boolean (suc zero) small = refl
field_from_asc_bytes-le_bytes boolean (suc (suc v)) small = absurd (omega (arith, small))
field_from_asc_bytes-le_bytes (derived_enum variants) v (known, small) =
    ground (arith, length-le_bytes 4 v, of_le_bytes-le_bytes 4 v small, known)

-- Fields are read back, whatever follows them.
pub read_fields-write_fields :
    (types : List FieldType) (values rest : List ℕ)
    → Fields types values
    → read_fields types (write_fields types values ++ rest) ≡ done values
unfolding read_fields write_fields
read_fields-write_fields [] [] rest h = refl
read_fields-write_fields [] (v ∷ values) rest h = absurd h
read_fields-write_fields (t ∷ types) [] rest h = absurd h
read_fields-write_fields (t ∷ types) (v ∷ values) rest (small, more) =
    let s = field_size t in
    ground (
      arith,
      append_assoc (le_bytes s v) (write_fields types values) rest,
      length-append (le_bytes s v) (write_fields types values ++ rest),
      length-le_bytes s v,
      take_append (le_bytes s v) (write_fields types values ++ rest) s,
      drop_append (le_bytes s v) (write_fields types values ++ rest) s,
      field_from_asc_bytes-le_bytes t v small,
      read_fields-write_fields types values rest more,
    )
