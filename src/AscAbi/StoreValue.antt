-- ===== src/AscAbi/StoreValue.antt =====
-- `store::Value` as an object `AscEnum<StoreValueKind>`, and back: runtime/wasm/src/to_from/external.rs, with
-- the kinds and payloads of runtime/wasm/src/asc_abi/class.rs.
pub mod Payload
pub mod RoundTrip
use test_ci_for_massbitproto.Prelude.{
  ℕ, zero, suc, ◌+◌, ◌-◌, ◌%◌, ltb, ◌==◌, not, if◌then◌else◌, Bool, true, false, String, List, [],
  ◌∷◌,
}
use test_ci_for_massbitproto.Prelude.Int.{ℤ, pos, negsuc}
use test_ci_for_massbitproto.Prelude.Outcome.{Outcome, done, failed, panic, ◌>>=◌}
use test_ci_for_massbitproto.Data.Value.{Scalars, Value, Values}
use test_ci_for_massbitproto.AscHeap.Bytes.{two_32}
use test_ci_for_massbitproto.AscHeap.Ptr.{AscHeap}
use test_ci_for_massbitproto.AscAbi.Derive.{FieldType}
use test_ci_for_massbitproto.AscAbi.Structs.{new_struct, read_struct}
use test_ci_for_massbitproto.AscAbi.Vectors.{new_pointers, get_pointers}
use test_ci_for_massbitproto.AscAbi.Scalars.{
  Codec, new_text, get_text, new_bytes, get_bytes, new_big_int, get_big_int, new_big_decimal,
  get_big_decimal,
}

pub data StoreValueKind : Type 0 where
  string int big_decimal bool array null bytes big_int : StoreValueKind

-- the discriminant that `#[derive(AscType)]` gives a kind
unfoldable pub discriminant : StoreValueKind → ℕ
discriminant StoreValueKind.string = 0
discriminant StoreValueKind.int = 1
discriminant StoreValueKind.big_decimal = 2
discriminant StoreValueKind.bool = 3
discriminant StoreValueKind.array = 4
discriminant StoreValueKind.null = 5
discriminant StoreValueKind.bytes = 6
discriminant StoreValueKind.big_int = 7

unfoldable pub kind_of_discriminant : ℕ → Outcome StoreValueKind
kind_of_discriminant zero = done StoreValueKind.string
kind_of_discriminant (suc zero) = done StoreValueKind.int
kind_of_discriminant (suc (suc zero)) = done StoreValueKind.big_decimal
kind_of_discriminant (suc (suc (suc zero))) = done StoreValueKind.bool
kind_of_discriminant (suc (suc (suc (suc zero)))) = done StoreValueKind.array
kind_of_discriminant (suc (suc (suc (suc (suc zero))))) = done StoreValueKind.null
kind_of_discriminant (suc (suc (suc (suc (suc (suc zero)))))) = done StoreValueKind.bytes
kind_of_discriminant (suc (suc (suc (suc (suc (suc (suc zero))))))) = done StoreValueKind.big_int
kind_of_discriminant n = failed "value {} is out of range for {}"

unfoldable pub get_kind : {S : Scalars} → Value S → StoreValueKind
get_kind (Value.string s) = StoreValueKind.string
get_kind (Value.int n) = StoreValueKind.int
get_kind (Value.big_decimal d) = StoreValueKind.big_decimal
get_kind (Value.bool b) = StoreValueKind.bool
get_kind (Value.list vs) = StoreValueKind.array
get_kind Value.null = StoreValueKind.null
get_kind (Value.bytes b) = StoreValueKind.bytes
get_kind (Value.big_int n) = StoreValueKind.big_int

-- `x as u64` of an `i32`, and `payload as i32`
unfoldable pub payload_of_i32 : ℤ → ℕ
payload_of_i32 (pos n) = n
payload_of_i32 (negsuc n) = 18446744073709551616 - n - 1

unfoldable pub i32_of_payload : ℕ → ℤ
i32_of_payload payload =
    let n = payload % two_32 in if ltb n 2147483648 then pos n else negsuc (two_32 - n - 1)

unfoldable pub payload_of_bool : Bool → ℕ
payload_of_bool b = if b then 1 else 0

unfoldable pub bool_of_payload : ℕ → Bool
bool_of_payload payload = not (payload == 0)

-- `kind`, the explicit padding and `payload`
abbrev pub enum_types : List FieldType
enum_types = FieldType.derived_enum 8 ∷ FieldType.unsigned 4 ∷ FieldType.unsigned 8 ∷ []

unfoldable pub enum_of : List ℕ → Outcome (StoreValueKind × ℕ)
enum_of (kind ∷ padding ∷ payload ∷ []) = do k ← kind_of_discriminant kind; done (k, payload)
enum_of fields = panic

-- `payload as u32`, the pointer in a payload
abbrev pub ptr_of : ℕ → ℕ
ptr_of payload = payload % two_32

module _ (H : AscHeap) {S : Scalars} (K : Codec S) where
  -- the enum of a value whose payload is there
  unfoldable pub new_enum : Value S → ℕ → H.State → Outcome (ℕ × H.State)
  new_enum v payload heap =
      new_struct H 31 enum_types (discriminant (get_kind v) ∷ 0 ∷ payload ∷ []) heap

  unfoldable mutual
    pub new_payload : Value S → H.State → Outcome (ℕ × H.State)
    new_payload (Value.string s) heap = new_text H s heap
    new_payload (Value.int n) heap = done (payload_of_i32 n, heap)
    new_payload (Value.big_decimal d) heap = new_big_decimal H K d heap
    new_payload (Value.bool b) heap = done (payload_of_bool b, heap)
    new_payload (Value.list vs) heap = do
      (content, heap') ← new_values vs heap
      new_pointers H 16 content heap'
    new_payload Value.null heap = done (0, heap)
    new_payload (Value.bytes b) heap = new_bytes H b heap
    new_payload (Value.big_int n) heap = new_bytes H (K.to_signed_bytes_le n) heap

    -- `asc_new` of each element
    pub new_values : Values S → H.State → Outcome (List ℕ × H.State)
    new_values Values.nil heap = done ([], heap)
    new_values (Values.cons v vs) heap = do
      (payload, heap₁) ← new_payload v heap
      (ptr, heap₂) ← new_enum v payload heap₁
      (ptrs, heap₃) ← new_values vs heap₂
      done (ptr ∷ ptrs, heap₃)

  -- `asc_new` of a value
  unfoldable pub new_value : Value S → H.State → Outcome (ℕ × H.State)
  new_value v heap = do (payload, heap') ← new_payload v heap; new_enum v payload heap'

  -- the loop of `collect` over the elements
  unfoldable pub get_values : (ℕ → Outcome (Value S)) → List ℕ → Outcome (Values S)
  get_values get [] = done Values.nil
  get_values get (ptr ∷ ptrs) = do v ← get ptr; vs ← get_values get ptrs; done (Values.cons v vs)

  -- `try_from_asc_obj` by the kind, where `get` reads the elements of a list
  unfoldable pub from_kind :
      (ℕ → Outcome (Value S)) → StoreValueKind → ℕ → H.State → Outcome (Value S)
  from_kind get StoreValueKind.string payload heap = do
    s ← get_text H (ptr_of payload) heap
    done (Value.string s)
  from_kind get StoreValueKind.int payload heap = done (Value.int (i32_of_payload payload))
  from_kind get StoreValueKind.big_decimal payload heap = do
    d ← get_big_decimal H K (ptr_of payload) heap
    done (Value.big_decimal d)
  from_kind get StoreValueKind.bool payload heap = done (Value.bool (bool_of_payload payload))
  from_kind get StoreValueKind.array payload heap = do
    ptrs ← get_pointers H (ptr_of payload) heap
    vs ← get_values get ptrs
    done (Value.list vs)
  from_kind get StoreValueKind.null payload heap = done Value.null
  from_kind get StoreValueKind.bytes payload heap = do
    content ← get_bytes H (ptr_of payload) heap
    done (Value.bytes content)
  from_kind get StoreValueKind.big_int payload heap = do
    content ← get_bytes H (ptr_of payload) heap
    done (Value.big_int (K.from_signed_bytes_le content))

  -- `try_asc_get` of a value. The lists of a heap may be nested without end, so the depth is bounded.
  unfoldable pub get_value : ℕ → ℕ → H.State → Outcome (Value S)
  get_value zero ptr heap = panic
  get_value (suc depth) ptr heap = do
    fields ← read_struct H 16 enum_types ptr heap
    (kind, payload) ← enum_of fields
    from_kind (λ element. get_value depth element heap) kind payload heap
