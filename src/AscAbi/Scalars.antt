-- ===== src/AscAbi/Scalars.antt =====
-- The conversions of texts and scalars to objects and back: runtime/wasm/src/to_from/mod.rs and
-- external.rs.
pub mod RoundTrip
use test_ci_for_massbitproto.Prelude.{
  ℕ, zero, suc, ◌+◌, ◌-◌, ◌%◌, ◌≤◌, ◌<◌, Bool, true, false, ltb, leb, if◌then◌else◌, String, List,
  [], ◌∷◌, ◌++◌, length, All, ◌≡◌,
}
use test_ci_for_massbitproto.Prelude.Int.{ℤ, pos, negsuc, le_int}
use test_ci_for_massbitproto.Prelude.Outcome.{Outcome, done, failed, panic, ◌>>=◌}
use test_ci_for_massbitproto.Data.Value.{Scalars}
use test_ci_for_massbitproto.AscHeap.Words.{of_le_bytes}
use test_ci_for_massbitproto.AscHeap.Ptr.{AscHeap}
use test_ci_for_massbitproto.AscAbi.AscString as AscString
use test_ci_for_massbitproto.AscAbi.Structs.{new_struct, read_struct}
use test_ci_for_massbitproto.AscAbi.Vectors.{two_words, new_vec, get_vec}
use test_ci_for_massbitproto.AscAbi.Utf16.{encode_utf16, from_utf16, strip_nulls}

-- `n` bytes `fill`
unfoldable pub filled : ℕ → ℕ → List ℕ
filled fill zero = []
filled fill (suc n) = fill ∷ filled fill n

-- `[fill; 8]` with `bytes` copied to its front, which panics where they are more
unfoldable pub fill_eight : ℕ → List ℕ → Outcome (List ℕ)
fill_eight fill bytes =
    if leb (length bytes) 8 then done (bytes ++ filled fill (8 - length bytes)) else panic

-- `i64::from_le_bytes`
unfoldable pub i64_of : List ℕ → ℤ
i64_of bytes =
    let n = of_le_bytes bytes in
    if ltb n 9223372036854775808 then pos n else negsuc (18446744073709551616 - n - 1)

-- `-n` of an `i64`
unfoldable pub negate_i64 : ℤ → Outcome ℤ
negate_i64 (pos zero) = done (pos 0)
negate_i64 (pos (suc n)) = done (negsuc n)
negate_i64 (negsuc n) = if ltb (n + 1) 9223372036854775808 then done (pos (n + 1)) else panic

abbrev pub IsI64 : ℤ → Type 0
IsI64 (pos n) = n < 9223372036854775808
IsI64 (negsuc n) = n < 9223372036854775808

-- What the code uses of num_bigint and bigdecimal: two's complement bytes, and a decimal as its digits
-- and the negative of its exponent. `BigDecimal::new` with its `normalized` in
-- massbit/src/data/store/scalar.rs is made of the operations of bigdecimal and stands here with them. A
-- decimal is normalized, so that it is what its parts make.
pub record Codec (S : Scalars) : Type 0 where
  pub to_signed_bytes_le : S.BigInt → List ℕ
  pub from_signed_bytes_le : List ℕ → S.BigInt
  pub big_int_of : ℤ → S.BigInt
  pub is_negative : S.BigInt → Bool
  pub as_bigint_and_exponent : S.BigDecimal → S.BigInt × ℤ
  pub big_decimal_new : S.BigInt → ℤ → S.BigDecimal
  pub signed_bytes_lt : (n : S.BigInt) → All (λ b. b < 256) (to_signed_bytes_le n)
  pub sign_extended :
      (e : ℤ)
      → IsI64 e
      → (length (to_signed_bytes_le (big_int_of e)) ≤ 8)
        × (i64_of (
              to_signed_bytes_le (big_int_of e)
              ++ filled
                  (if is_negative (big_int_of e) then 255 else 0)
                  (8 - length (to_signed_bytes_le (big_int_of e))))
            ≡ e)
  pub big_decimal_new-parts :
      (d : S.BigDecimal) (e : ℤ)
      → negate_i64 (as_bigint_and_exponent d).1 ≡ done e
      → big_decimal_new (as_bigint_and_exponent d).0 e ≡ d
  pub from-to_signed_bytes_le : (n : S.BigInt) → from_signed_bytes_le (to_signed_bytes_le n) ≡ n

module _ (H : AscHeap) where
  -- `asc_new` and `asc_get` of a text; nulls are stripped.
  unfoldable pub new_text : String → H.State → Outcome (ℕ × H.State)
  new_text s heap = AscString.new_string H (encode_utf16 s) heap

  unfoldable pub get_text : ℕ → H.State → Outcome String
  get_text ptr heap = do
    units ← AscString.get_string H ptr heap
    string ← from_utf16 units
    done (strip_nulls string)

  -- a byte array, whose class is `Uint8Array`
  unfoldable pub new_bytes : List ℕ → H.State → Outcome (ℕ × H.State)
  new_bytes bytes heap = new_vec H 6 1 bytes heap

  unfoldable pub get_bytes : ℕ → H.State → Outcome (List ℕ)
  get_bytes ptr heap = get_vec H 1 ptr heap

  module _ {S : Scalars} (K : Codec S) where
    unfoldable pub new_big_int : S.BigInt → H.State → Outcome (ℕ × H.State)
    new_big_int n heap = new_bytes (K.to_signed_bytes_le n) heap

    unfoldable pub get_big_int : ℕ → H.State → Outcome S.BigInt
    get_big_int ptr heap = do bytes ← get_bytes ptr heap; done (K.from_signed_bytes_le bytes)

    -- `AscBigDecimal` has the fields `digits` and `exp`. `exp` is allocated first.
    unfoldable pub new_big_decimal : S.BigDecimal → H.State → Outcome (ℕ × H.State)
    new_big_decimal d heap = do
      let parts = K.as_bigint_and_exponent d
      e ← negate_i64 parts.1
      (exp, heap₁) ← new_big_int (K.big_int_of e) heap
      (digits, heap₂) ← new_big_int parts.0 heap₁
      new_struct H 12 two_words (digits ∷ exp ∷ []) heap₂

    unfoldable pub exponent_of : S.BigInt → Outcome ℤ
    exponent_of exp = do
      byte_array ← fill_eight (if K.is_negative exp then 255 else 0) (K.to_signed_bytes_le exp)
      done (i64_of byte_array)

    -- the check of the exponent
    unfoldable pub checked_decimal : S.BigDecimal → Outcome S.BigDecimal
    checked_decimal d = do
      exp ← negate_i64 (K.as_bigint_and_exponent d).1
      if le_int (negsuc 6142) exp
          then if le_int exp (pos 6144)
            then done d
            else failed "big decimal exponent `{}` is outside the `{}` to `{}` range"
          else failed "big decimal exponent `{}` is outside the `{}` to `{}` range"

    unfoldable pub pair_of : List ℕ → Outcome (ℕ × ℕ)
    pair_of (x ∷ y ∷ []) = done (x, y)
    pair_of fields = panic

    unfoldable pub get_big_decimal : ℕ → H.State → Outcome S.BigDecimal
    get_big_decimal ptr heap = do
      fields ← read_struct H 8 two_words ptr heap
      (digits_ptr, exp_ptr) ← pair_of fields
      digits ← get_big_int digits_ptr heap
      exp ← get_big_int exp_ptr heap
      exponent ← exponent_of exp
      checked_decimal (K.big_decimal_new digits exponent)
