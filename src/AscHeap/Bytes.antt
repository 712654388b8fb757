-- ===== src/AscHeap/Bytes.antt =====
-- The bytes of a `u32`, as of Rust's `to_le_bytes` and `from_le_bytes`, and the padding of
-- massbit/src/runtime/mod.rs.
use test_ci_for_massbitproto.Prelude.{
  ℕ, zero, suc, ◌+◌, ◌-◌, ◌*◌, ◌/◌, ◌%◌, ◌<◌, List, [], ◌∷◌, ◌++◌, ◌≡◌, refl, ap, length, arith,
}
use test_ci_for_massbitproto.Prelude.Outcome.{Outcome, done, panic}

-- 2 ^ 32
abbrev pub two_32 : ℕ
two_32 = 4294967296

unfoldable pub to_le_bytes : ℕ → List ℕ
to_le_bytes n = n % 256 ∷ n / 256 % 256 ∷ n / 65536 % 256 ∷ n / 16777216 % 256 ∷ []

-- `copy_from_slice` into four bytes, which panics at another length, and `u32::from_le_bytes`.
unfoldable pub from_le_bytes : List ℕ → Outcome ℕ
from_le_bytes (a ∷ b ∷ c ∷ d ∷ []) = done (a + b * 256 + c * 65536 + d * 16777216)
from_le_bytes bytes = panic

abbrev pub header_size : ℕ
header_size = 20

unfoldable pub padding_to_16 : ℕ → ℕ
padding_to_16 content_length = (16 - (header_size + content_length) % 16) % 16

-- `std::iter::repeat(0).take(n)`
abbrev pub zeros : ℕ → List ℕ
zeros zero = []
zeros (suc n) = 0 ∷ zeros n

abbrev pub take {ℓ} : {A : Type ℓ} → ℕ → List A → List A
take zero xs = []
take (suc n) [] = []
take (suc n) (x ∷ xs) = x ∷ take n xs

abbrev pub drop {ℓ} : {A : Type ℓ} → ℕ → List A → List A
drop zero xs = xs
drop (suc n) [] = []
drop (suc n) (x ∷ xs) = drop n xs

-- The bytes of a `u32` are read back as the number.
pub from-to_le_bytes : (n : ℕ) → n < two_32 → from_le_bytes (to_le_bytes n) ≡ done n
unfolding from_le_bytes to_le_bytes
from-to_le_bytes n h = ap done (omega (arith, h))

pub length-append {ℓ} : {A : Type ℓ} (xs ys : List A) → length (xs ++ ys) ≡ length xs + length ys
length-append [] ys = omega arith
length-append (x ∷ xs) ys = omega (arith, length-append xs ys)

pub length-zeros : (n : ℕ) → length (zeros n) ≡ n
length-zeros zero = refl
length-zeros (suc n) = ap suc (length-zeros n)

-- With the header and the padding, an object takes a multiple of 16 bytes.
pub padding_lem : (n : ℕ) → (header_size + (n + padding_to_16 n)) % 16 ≡ 0
unfolding padding_to_16
padding_lem n = omega arith
