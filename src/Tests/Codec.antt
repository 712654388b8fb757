-- ===== src/Tests/Codec.antt =====
-- Whole numbers of any size as the scalars, with their bytes.
use test_ci_for_massbitproto.Prelude.{
  ℕ, zero, suc, ◌+◌, ◌-◌, ◌%◌, ◌≤◌, ◌<◌, Bool, true, false, ltb, ◌==◌, if◌then◌else◌, List, [], ◌∷◌,
  ◌++◌, length, All, ◌≡◌, refl, ap, ◌∙◌, append_nil, arith,
}
use test_ci_for_massbitproto.Prelude.Int.{ℤ, pos, negsuc, ℤ_discrete}
use test_ci_for_massbitproto.Prelude.Outcome.{done}
use test_ci_for_massbitproto.Data.Value.{Scalars}
use test_ci_for_massbitproto.AscHeap.Bytes.{zeros, length-zeros}
use test_ci_for_massbitproto.AscHeap.Words.{
  le_bytes, length-le_bytes, of_le_bytes-le_bytes, lt-values_of_8,
}
use test_ci_for_massbitproto.AscAbi.Scalars.{Codec, filled, i64_of, negate_i64, IsI64}

pub whole_discrete : Discrete (ℤ × ℤ)
whole_discrete = hlevel ℤ_discrete

abbrev pub wholes : Scalars
wholes = record {
  BigDecimal = ℤ × ℤ;
  BigInt = ℤ;
  decimal_discrete = whole_discrete;
  integer_discrete = ℤ_discrete;
}

-- eight bytes for an `i64`, and a count beyond
abbrev pub small_bytes : ℕ → List ℕ
small_bytes n = le_bytes 8 n

abbrev pub bytes_of : ℤ → List ℕ
bytes_of (pos n) = if ltb n 9223372036854775808 then small_bytes n else 0 ∷ zeros (n + 8)
bytes_of (negsuc n) =
    if ltb n 9223372036854775808
    then small_bytes (18446744073709551616 - n - 1)
    else 1 ∷ zeros (n + 8)

abbrev pub of_bytes : List ℕ → ℤ
of_bytes [] = pos 0
of_bytes (b ∷ bytes) =
    if length bytes == 7
    then i64_of (b ∷ bytes)
    else if b == 0
    then pos (length bytes - 8)
    else negsuc (length bytes - 8)

le_bytes-lt : (size n : ℕ) → All (λ b. b < 256) (le_bytes size n)
unfolding le_bytes
le_bytes-lt zero n = tt
le_bytes-lt (suc size) n = (low n, le_bytes-lt size _)
  where
    low : (n : ℕ) → n % 256 < 256
    low n = omega arith

zeros-lt : (n : ℕ) → All (λ b. b < 256) (zeros n)
zeros-lt zero = tt
zeros-lt (suc n) = (omega arith, zeros-lt n)

if_All :
    (c : Bool) (xs ys : List ℕ)
    → All (λ b. b < 256) xs
    → All (λ b. b < 256) ys
    → All (λ b. b < 256) (if c then xs else ys)
if_All true xs ys h k = h
if_All false xs ys h k = k

pub bytes_lt : (n : ℤ) → All (λ b. b < 256) (bytes_of n)
bytes_lt (pos n) =
    if_All (ltb n 9223372036854775808) (small_bytes n) (0 ∷ zeros (n + 8)) (le_bytes-lt 8 n)
      (omega arith, zeros-lt (n + 8))
bytes_lt (negsuc n) =
    if_All (ltb n 9223372036854775808) (small_bytes (18446744073709551616 - n - 1))
      (1 ∷ zeros (n + 8)) (le_bytes-lt 8 _) (omega arith, zeros-lt (n + 8))

i64_of-le_bytes :
    (n : ℕ)
    → n < 18446744073709551616
    → i64_of (le_bytes 8 n)
      ≡ (if ltb n 9223372036854775808 then pos n else negsuc (18446744073709551616 - n - 1))
unfolding i64_of
i64_of-le_bytes n h = ground (arith, of_le_bytes-le_bytes 8 n (lt-values_of_8 n h))

of_eight : (n : ℕ) → of_bytes (le_bytes 8 n) ≡ i64_of (le_bytes 8 n)
unfolding le_bytes
of_eight n = refl

pub of_bytes-bytes_of : (n : ℤ) → of_bytes (bytes_of n) ≡ n
of_bytes-bytes_of (pos n) = ground (arith, of_eight n, i64_of-le_bytes n, length-zeros (n + 8))
of_bytes-bytes_of (negsuc n) = ground (
  arith,
  of_eight (18446744073709551616 - n - 1),
  i64_of-le_bytes (18446744073709551616 - n - 1),
  length-zeros (n + 8),
)

eight_bytes :
    (e : ℤ)
    → IsI64 e
    → (n : ℕ) × (bytes_of e ≡ le_bytes 8 n)
      × (n < 18446744073709551616)
      × ((if ltb n 9223372036854775808 then pos n else negsuc (18446744073709551616 - n - 1)) ≡ e)
eight_bytes (pos n) h = (n, ground (arith, h), omega arith, ground (arith, h))
eight_bytes (negsuc n) h =
    (18446744073709551616 - n - 1, ground (arith, h), omega arith, ground (arith, h))

abbrev pub is_negative : ℤ → Bool
is_negative (pos n) = false
is_negative (negsuc n) = true

filled_none : (fill : ℕ) → filled fill 0 ≡ []
unfolding filled
filled_none fill = refl

pub sign_extended :
    (e : ℤ)
    → IsI64 e
    → (length (bytes_of e) ≤ 8)
      × (i64_of (bytes_of e ++ filled (if is_negative e then 255 else 0) (8 - length (bytes_of e)))
          ≡ e)
sign_extended e h =
    let (n, same, small, back) = eight_bytes e h in
    let eight : length (bytes_of e) ≡ 8 = ap length same ∙ length-le_bytes 8 n in
    let fill : ℕ = if is_negative e then 255 else 0 in
    (
      omega (arith, eight),
      ap (λ k. i64_of (bytes_of e ++ filled fill (8 - k))) eight
          ∙ ap (λ l. i64_of (bytes_of e ++ l)) (filled_none fill)
          ∙ ap i64_of (append_nil (bytes_of e) ∙ same)
          ∙ i64_of-le_bytes n small
          ∙ back,
    )

abbrev pub neg : ℤ → ℤ
neg (pos zero) = pos 0
neg (pos (suc n)) = negsuc n
neg (negsuc n) = pos (suc n)

neg-negate : (s e : ℤ) → negate_i64 s ≡ done e → neg e ≡ s
unfolding negate_i64
neg-negate (pos zero) e h = ground (arith, h)
neg-negate (pos (suc n)) e h = ground (arith, h)
neg-negate (negsuc n) e h = ground (arith, h)

pub whole_parts : (d : ℤ × ℤ) (e : ℤ) → negate_i64 d.1 ≡ done e → (d.0, neg e) ≡ d
whole_parts (digits, s) e h = ap (λ k. (digits, k)) (neg-negate s e h)

abbrev pub codec : Codec wholes
codec = record {
  to_signed_bytes_le = bytes_of;
  from_signed_bytes_le = of_bytes;
  big_int_of = λ e. e;
  is_negative = is_negative;
  as_bigint_and_exponent = λ d. d;
  big_decimal_new = λ digits e. (digits, neg e);
  signed_bytes_lt = bytes_lt;
  sign_extended = sign_extended;
  big_decimal_new-parts = whole_parts;
  from-to_signed_bytes_le = of_bytes-bytes_of;
}
