-- ===== src/AscAbi/StoreValue/Payload.antt =====
-- The payloads of values, and the enums over them, in the versions after 0.0.4: runtime/wasm/src/to_from/external.rs.
use test_ci_for_massbitproto.Prelude.{
  ℕ, zero, suc, ◌-◌, ◌*◌, ◌<◌, ◌≤◌, Bool, true, false, leb, if◌then◌else◌, List, [], ◌∷◌, length,
  All, ◌≡◌, refl, ap, ◌∙◌, arith,
}
use test_ci_for_massbitproto.Prelude.Int.{ℤ, pos, negsuc}
use test_ci_for_massbitproto.Prelude.Outcome.{Outcome, done, ◌>>=◌}
use test_ci_for_massbitproto.Data.Value.{Scalars, Value, Values}
use test_ci_for_massbitproto.AscHeap.Bytes.{two_32}
use test_ci_for_massbitproto.AscHeap.Words.{values_of, lt-values_of_4, lt-values_of_8}
use test_ci_for_massbitproto.AscHeap.Ptr.{AscHeap, version_le, legacy_version}
use test_ci_for_massbitproto.AscHeap.Placed.{Keeps}
use test_ci_for_massbitproto.AscAbi.Structs.{read_struct-new_struct}
use test_ci_for_massbitproto.AscAbi.Vectors.RoundTrip.{IsRead}
use test_ci_for_massbitproto.AscAbi.Utf16.{strip_nulls}
use test_ci_for_massbitproto.AscAbi.Scalars.{Codec}
use test_ci_for_massbitproto.AscAbi.Scalars.RoundTrip.{FitsText, FitBytes, FitsDecimal}
use test_ci_for_massbitproto.AscAbi.StoreValue.{
  StoreValueKind, discriminant, kind_of_discriminant, get_kind, payload_of_i32, i32_of_payload,
  payload_of_bool, bool_of_payload, enum_types, enum_of, new_enum, get_values, from_kind, get_value,
  ptr_of,
}

abbrev pub IsI32 : ℤ → Type 0
IsI32 (pos n) = n < 2147483648
IsI32 (negsuc n) = n < 2147483648

abbrev pub max_nat : ℕ → ℕ → ℕ
max_nat a b = if leb a b then b else a

module _ {S : Scalars} where
  -- what is read back of a value: its texts have no nulls
  unfoldable mutual
    pub sanitized : Value S → Value S
    sanitized (Value.string s) = Value.string (strip_nulls s)
    sanitized (Value.list vs) = Value.list (sanitized_all vs)
    sanitized (Value.int n) = Value.int n
    sanitized (Value.big_decimal d) = Value.big_decimal d
    sanitized (Value.bool b) = Value.bool b
    sanitized Value.null = Value.null
    sanitized (Value.bytes b) = Value.bytes b
    sanitized (Value.big_int n) = Value.big_int n

    pub sanitized_all : Values S → Values S
    sanitized_all Values.nil = Values.nil
    sanitized_all (Values.cons v vs) = Values.cons (sanitized v) (sanitized_all vs)

  abbrev pub count : Values S → ℕ
  count Values.nil = 0
  count (Values.cons v vs) = suc (count vs)

  -- how deep the lists of a value are nested
  unfoldable mutual
    pub depth_of : Value S → ℕ
    depth_of (Value.list vs) = depth_of_all vs
    depth_of (Value.string s) = 0
    depth_of (Value.int n) = 0
    depth_of (Value.big_decimal d) = 0
    depth_of (Value.bool b) = 0
    depth_of Value.null = 0
    depth_of (Value.bytes b) = 0
    depth_of (Value.big_int n) = 0

    pub depth_of_all : Values S → ℕ
    depth_of_all Values.nil = 0
    depth_of_all (Values.cons v vs) = max_nat (suc (depth_of v)) (depth_of_all vs)

module _ (H : AscHeap) (current : version_le H.api_version legacy_version ≡ false) {S : Scalars}
    (K : Codec S) where
  -- a value whose parts fit into memory
  unfoldable mutual
    pub FitsValue : Value S → Type 0
    FitsValue (Value.string s) = FitsText s
    FitsValue (Value.int n) = IsI32 n
    FitsValue (Value.big_decimal d) = FitsDecimal H current K d
    FitsValue (Value.bool b) = Unit {0}
    FitsValue (Value.list vs) = (count vs * 4 < two_32 - 8) × FitValues vs
    FitsValue Value.null = Unit {0}
    FitsValue (Value.bytes b) = FitBytes b
    FitsValue (Value.big_int n) = length (K.to_signed_bytes_le n) < two_32 - 8

    pub FitValues : Values S → Type 0
    FitValues Values.nil = Unit {0}
    FitValues (Values.cons v vs) = FitsValue v × FitValues vs

  -- what follows a payload that was made: it has 64 bits, and gives `v` by its kind
  pub record IsPayload (kind : StoreValueKind) (depth : ℕ) (v : Value S) (heap : H.State)
      (payload : ℕ) (heap' : H.State) : Type 0 where
    pub sound : H.Sound heap'
    pub keeps : Keeps H heap heap'
    pub small : payload < values_of 8
    pub reads :
        (later : H.State)
        → Keeps H heap' later
        → (d : ℕ) → depth ≤ d
        → from_kind H K (λ element. get_value H K d element later) kind payload later ≡ done v

  -- pointers to objects that give the values
  pub record ArePointers (depth : ℕ) (vs : Values S) (heap : H.State) (ptrs : List ℕ)
      (heap' : H.State) : Type 0 where
    pub sound : H.Sound heap'
    pub keeps : Keeps H heap heap'
    pub small : All (λ p. p < values_of 4) ptrs
    pub counted : length ptrs ≡ count vs
    pub reads :
        (later : H.State)
        → Keeps H heap' later
        → (d : ℕ) → depth ≤ d
        → get_values H K (λ element. get_value H K d element later) ptrs ≡ done vs

  -- a payload that is a pointer
  pub pointer-IsPayload :
      {A : Type 0} (read : ℕ → H.State → Outcome A) (a : A) (make : A → Value S)
      (kind : StoreValueKind) (heap heap' : H.State) (ptr : ℕ)
      → IsRead H current read a heap ptr heap'
      → ((get : ℕ → Outcome (Value S)) (payload : ℕ) (later : H.State)
          → from_kind H K get kind payload later
            ≡ (read (ptr_of payload) later >>= λ b. done (make b)))
      → IsPayload kind 0 (make a) heap ptr heap'
  pointer-IsPayload read a make kind heap heap' ptr r step = record {
    sound = r.sound;
    keeps = r.keeps;
    small = as_u64 ptr r.small;
    reads = λ later kept d le.
        step _ ptr later
        ∙ ap (λ p. read p later >>= λ b. done (make b)) (as_ptr ptr r.small)
        ∙ rw (r.reads later kept);
  }
    where
      as_u64 : (p : ℕ) → p < two_32 → p < values_of 8
      as_u64 p h = lt-values_of_8 p (omega (arith, h))

      as_ptr : (p : ℕ) → p < two_32 → ptr_of p ≡ p
      as_ptr p h = omega (arith, h)

  -- a payload that is the value
  pub plain-IsPayload :
      (kind : StoreValueKind) (depth : ℕ) (v : Value S) (heap : H.State) (payload : ℕ)
      → H.Sound heap
      → payload < values_of 8
      → ((get : ℕ → Outcome (Value S)) (later : H.State)
          → from_kind H K get kind payload later ≡ done v)
      → IsPayload kind depth v heap payload heap
  plain-IsPayload kind depth v heap payload sound small step = record {
    sound = sound;
    keeps = λ q old s. s;
    small = small;
    reads = λ later kept d le. step _ later;
  }

  pub int_payload :
      (n : ℤ) → IsI32 n → (payload_of_i32 n < values_of 8) × (i32_of_payload (payload_of_i32 n) ≡ n)
  unfolding payload_of_i32 i32_of_payload
  int_payload (pos n) h = (lt-values_of_8 n (omega arith), ground (arith, h))
  int_payload (negsuc n) h = (lt-values_of_8 _ (omega arith), ground (arith, h))

  pub bool_payload :
      (b : Bool) → (payload_of_bool b < values_of 8) × (bool_of_payload (payload_of_bool b) ≡ b)
  unfolding payload_of_bool bool_of_payload
  bool_payload true = (lt-values_of_8 1 (omega arith), refl)
  bool_payload false = (lt-values_of_8 0 (omega arith), refl)

  kind_lem :
      (v : Value S)
      → (discriminant (get_kind v) < 8)
        × (kind_of_discriminant (discriminant (get_kind v)) ≡ done (get_kind v))
  unfolding discriminant kind_of_discriminant get_kind
  kind_lem (Value.string s) = (omega arith, refl)
  kind_lem (Value.int n) = (omega arith, refl)
  kind_lem (Value.big_decimal d) = (omega arith, refl)
  kind_lem (Value.bool b) = (omega arith, refl)
  kind_lem (Value.list vs) = (omega arith, refl)
  kind_lem Value.null = (omega arith, refl)
  kind_lem (Value.bytes b) = (omega arith, refl)
  kind_lem (Value.big_int n) = (omega arith, refl)

  -- The enum over a payload gives what the payload gives.
  pub enum_of-payload :
      (v w : Value S) (depth payload : ℕ) (heap heap₁ heap₂ : H.State) (ptr : ℕ)
      → IsPayload (get_kind v) depth w heap payload heap₁
      → new_enum H K v payload heap₁ ≡ done (ptr, heap₂)
      → H.Sound heap₂
        × Keeps H heap heap₂
        × (ptr < two_32)
        × ((later : H.State)
            → Keeps H heap₂ later
            → (d : ℕ) → suc depth ≤ d
            → get_value H K d ptr later ≡ done w)
  unfolding new_enum get_value enum_of
  enum_of-payload v w depth payload heap heap₁ heap₂ ptr p h =
      let (eight, known) = kind_lem v in
      let (sound, keeps, small, reads) =
        read_struct-new_struct H current 31 enum_types
          (discriminant (get_kind v) ∷ 0 ∷ payload ∷ [])
          (
            (eight, lt-values_of_4 _ (omega (arith, eight))),
            (lt-values_of_4 0 (omega arith), (p.small, tt)),
          )
          (omega arith) 16 heap₁ heap₂ ptr p.sound h in
      (
        sound,
        λ q old s. keeps q old (p.keeps q old s),
        small,
        λ later kept d le.
            elim d as (λ d. suc depth ≤ d → get_value H K d ptr later ≡ done w) [
              | zero ↦ λ le. absurd (omega (arith, le))
              | suc d ↦ λ le. rw (reads later kept) (
                  rw known
                    (p.reads later (λ q old s. kept q old (keeps q old s)) d (omega (arith, le))))
            ]
              le,
      )
