-- ===== src/AscAbi/Scalars/RoundTrip.antt =====
-- Texts and scalars are read back from their objects, in the versions after 0.0.4:
-- runtime/wasm/src/to_from/external.rs.
use test_ci_for_massbitproto.Prelude.{
  ℕ, ◌+◌, ◌-◌, ◌*◌, ◌/◌, ◌<◌, true, false, String, List, [], ◌∷◌, length, All, ◌≡◌, ap, ◌∙◌, arith,
}
use test_ci_for_massbitproto.Prelude.Int.{ℤ, pos, negsuc, le_int}
use test_ci_for_massbitproto.Prelude.Outcome.{done, ◌>>=◌, bind_inversion}
use test_ci_for_massbitproto.Data.Value.{Scalars}
use test_ci_for_massbitproto.AscHeap.Bytes.{two_32, take}
use test_ci_for_massbitproto.AscHeap.Words.{values_of, lt-values_of_4}
use test_ci_for_massbitproto.AscHeap.Ptr.{AscHeap, version_le, legacy_version}
use test_ci_for_massbitproto.AscAbi.ArrayBuffer.Values.{Fit, take_length}
use test_ci_for_massbitproto.AscAbi.AscString.RoundTrip.{IsText, new_string-After, new_string-lt}
use test_ci_for_massbitproto.AscAbi.Structs.{read_struct-new_struct}
use test_ci_for_massbitproto.AscAbi.Vectors.{two_words}
use test_ci_for_massbitproto.AscAbi.Vectors.RoundTrip.{IsRead, get_vec-new_vec}
use test_ci_for_massbitproto.AscAbi.Utf16.{
  encode_utf16, strip_nulls, from_utf16-encode_utf16, encode_utf16-lt,
}
use test_ci_for_massbitproto.AscAbi.Scalars.{
  Codec, new_text, get_text, new_bytes, get_bytes, new_big_int, get_big_int, new_big_decimal,
  get_big_decimal, negate_i64, exponent_of, checked_decimal, pair_of, fill_eight, IsI64,
}

-- a text whose code units fit into memory
abbrev pub FitsText : String → Type 0
FitsText s = 2 * length (encode_utf16 s) + 4 < 2147483648

-- bytes that fit into memory
abbrev pub FitBytes : List ℕ → Type 0
FitBytes bytes = All (λ b. b < 256) bytes × (length bytes < two_32 - 8)

FitBytes-Fit : (bytes : List ℕ) → FitBytes bytes → Fit 0 bytes
unfolding values_of
FitBytes-Fit bytes (small, fits) = (small, omega (arith, fits))

module _ (H : AscHeap) (current : version_le H.api_version legacy_version ≡ false) where
  -- A text is read back without its nulls.
  pub get_text-new_text :
      (s : String) (heap heap' : H.State) (ptr : ℕ)
      → FitsText s
      → H.Sound heap
      → new_text H s heap ≡ done (ptr, heap')
      → IsRead H current (get_text H) (strip_nulls s) heap ptr heap'
  unfolding new_text get_text
  get_text-new_text s heap heap' ptr fits sound h =
      let text : IsText (encode_utf16 s) = (encode_utf16-lt s, fits) in
      let (sound', keeps, _) =
        new_string-After H (encode_utf16 s) text heap heap (ptr, heap') sound h in
      record {
        sound = sound';
        keeps = keeps;
        small = new_string-lt H (encode_utf16 s) heap heap' ptr current text sound h;
        reads = λ later kept.
            rw ((new_string-After H (encode_utf16 s) text heap later (ptr, heap') sound h).2 kept)
              (rw (from_utf16-encode_utf16 s));
      }

  pub get_bytes-new_bytes :
      (bytes : List ℕ) (heap heap' : H.State) (ptr : ℕ)
      → FitBytes bytes
      → H.Sound heap
      → new_bytes H bytes heap ≡ done (ptr, heap')
      → IsRead H current (get_bytes H) bytes heap ptr heap'
  unfolding new_bytes get_bytes
  get_bytes-new_bytes bytes heap heap' ptr fit sound h =
      let r = get_vec-new_vec H current 6 0 bytes heap heap' ptr (FitBytes-Fit bytes fit) sound h in
      record {
        sound = r.sound;
        keeps = r.keeps;
        small = r.small;
        reads = λ later kept.
            r.reads later kept
            ∙ ap done (ap (λ n. take n bytes) (by_one (length bytes)) ∙ take_length bytes);
      }
    where
      by_one : (n : ℕ) → n / 1 ≡ n
      by_one n = omega arith

  module _ {S : Scalars} (K : Codec S) where
    pub get_big_int-new_big_int :
        (n : S.BigInt) (heap heap' : H.State) (ptr : ℕ)
        → length (K.to_signed_bytes_le n) < two_32 - 8
        → H.Sound heap
        → new_big_int H K n heap ≡ done (ptr, heap')
        → IsRead H current (get_big_int H K) n heap ptr heap'
    unfolding new_big_int get_big_int
    get_big_int-new_big_int n heap heap' ptr fits sound h =
        let r =
          get_bytes-new_bytes (K.to_signed_bytes_le n) heap heap' ptr (K.signed_bytes_lt n, fits)
            sound h in
        record {
          sound = r.sound;
          keeps = r.keeps;
          small = r.small;
          reads = λ later kept. rw (r.reads later kept) (ap done (K.from-to_signed_bytes_le n));
        }

    -- a decimal with an exponent of the format decimal128, whose digits fit into memory
    pub record FitsDecimal (d : S.BigDecimal) : Type 0 where
      pub exponent : ℤ
      pub negated : negate_i64 (K.as_bigint_and_exponent d).1 ≡ done exponent
      pub above : le_int (negsuc 6142) exponent ≡ true
      pub below : le_int exponent (pos 6144) ≡ true
      pub fits : length (K.to_signed_bytes_le (K.as_bigint_and_exponent d).0) < two_32 - 8

    exponent_IsI64 : (e : ℤ) → le_int (negsuc 6142) e ≡ true → le_int e (pos 6144) ≡ true → IsI64 e
    exponent_IsI64 (pos n) a b = ground (arith, a, b)
    exponent_IsI64 (negsuc n) a b = ground (arith, a, b)

    exponent_of-big_int_of : (e : ℤ) → IsI64 e → exponent_of H K (K.big_int_of e) ≡ done e
    unfolding exponent_of fill_eight
    exponent_of-big_int_of e h =
        let (short, extended) = K.sign_extended e h in ground (arith, short, extended)

    checked_decimal_lem : (d : S.BigDecimal) → FitsDecimal d → checked_decimal H K d ≡ done d
    unfolding checked_decimal
    checked_decimal_lem d f = rw f.negated (rw f.above (rw f.below))

    -- What is read of the two parts makes the decimal.
    decimal_of_parts :
        (d : S.BigDecimal) (f : FitsDecimal d)
        → (exponent_of H K (K.big_int_of f.exponent) >>= λ e.
            checked_decimal H K (K.big_decimal_new (K.as_bigint_and_exponent d).0 e))
          ≡ done d
    decimal_of_parts d f =
        rw (exponent_of-big_int_of f.exponent (exponent_IsI64 f.exponent f.above f.below))
          (rw (K.big_decimal_new-parts d f.exponent f.negated) (checked_decimal_lem d f))

    pub get_big_decimal-new_big_decimal :
        (d : S.BigDecimal) (heap heap' : H.State) (ptr : ℕ)
        → FitsDecimal d
        → H.Sound heap
        → new_big_decimal H K d heap ≡ done (ptr, heap')
        → IsRead H current (get_big_decimal H K) d heap ptr heap'
    unfolding new_big_decimal get_big_decimal pair_of
    get_big_decimal-new_big_decimal d heap heap' ptr f sound h =
        let e = f.exponent in
        let ((exp, heap₁), made, rest) =
          bind_inversion (new_big_int H K (K.big_int_of e) heap) _ (ptr, heap')
            (rw f.negated at h) in
        let ((digits, heap₂), made', last) =
          bind_inversion (new_big_int H K (K.as_bigint_and_exponent d).0 heap₁) _ (ptr, heap')
            rest in
        let range = exponent_IsI64 e f.above f.below in
        let r =
          get_big_int-new_big_int (K.big_int_of e) heap heap₁ exp (exp_fits e range) sound made in
        let r' =
          get_big_int-new_big_int (K.as_bigint_and_exponent d).0 heap₁ heap₂ digits f.fits r.sound
            made' in
        let (sound₂, keeps₂, small, reads) =
          read_struct-new_struct H current 12 two_words (digits ∷ exp ∷ [])
            (lt-values_of_4 _ r'.small, (lt-values_of_4 _ r.small, tt)) (omega arith) 8 heap₂ heap'
            ptr r'.sound last in
        record {
          sound = sound₂;
          keeps = λ q old s. keeps₂ q old (r'.keeps q old (r.keeps q old s));
          small = small;
          reads = λ later kept.
              let kept₂ =
                λ (q : ℕ) (old : List ℕ) (s : H.Stored q old heap₂). kept q old (keeps₂ q old s) in
              rw (reads later kept) (
                rw (r'.reads later kept₂) (
                  rw (r.reads later (λ q old s. kept₂ q old (r'.keeps q old s)))
                    (decimal_of_parts d f)));
        }
      where
        exp_fits : (e : ℤ) → IsI64 e → length (K.to_signed_bytes_le (K.big_int_of e)) < two_32 - 8
        exp_fits e h = omega (arith, (K.sign_extended e h).0)
