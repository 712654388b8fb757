-- ===== src/AscHeap/Words.antt =====
-- `to_le_bytes` and `from_le_bytes` of the unsigned types, and the `AscType` that `impl_asc_type!` of
-- massbit/src/runtime/mod.rs gives them. A type is known by its size in bytes.
use test_ci_for_massbitproto.Prelude.{
  ℕ, zero, suc, ◌+◌, ◌*◌, ◌/◌, ◌%◌, ◌<◌, ◌==◌, if◌then◌else◌, List, [], ◌∷◌, ◌≡◌, refl, ap, length,
  arith,
}
use test_ci_for_massbitproto.Prelude.Outcome.{Outcome, done, failed}
use test_ci_for_massbitproto.AscHeap.Bytes.{two_32, from_le_bytes}

unfoldable pub le_bytes : ℕ → ℕ → List ℕ
le_bytes zero n = []
le_bytes (suc size) n = n % 256 ∷ le_bytes size (n / 256)

unfoldable pub of_le_bytes : List ℕ → ℕ
of_le_bytes [] = 0
of_le_bytes (b ∷ bytes) = b + 256 * of_le_bytes bytes

-- the number of values of `size` bytes
unfoldable pub values_of : ℕ → ℕ
values_of zero = 1
values_of (suc size) = 256 * values_of size

-- `to_asc_bytes` is `le_bytes`; `from_asc_bytes` refuses another size.
unfoldable pub from_asc_bytes : ℕ → List ℕ → Outcome ℕ
from_asc_bytes size asc_obj =
    if length asc_obj == size
    then done (of_le_bytes asc_obj)
    else failed "Incorrect size for {}. Expected {}, got {},"

pub length-le_bytes : (size n : ℕ) → length (le_bytes size n) ≡ size
unfolding le_bytes
length-le_bytes zero n = refl
length-le_bytes (suc size) n = ap suc (length-le_bytes size (n / 256))

pub of_le_bytes-le_bytes : (size n : ℕ) → n < values_of size → of_le_bytes (le_bytes size n) ≡ n
unfolding of_le_bytes le_bytes values_of
of_le_bytes-le_bytes zero n h = omega arith
of_le_bytes-le_bytes (suc size) n h =
    omega (arith, of_le_bytes-le_bytes size (n / 256) (omega arith))

-- A value is read back from its bytes.
pub from_asc_bytes-le_bytes :
    (size n : ℕ) → n < values_of size → from_asc_bytes size (le_bytes size n) ≡ done n
unfolding from_asc_bytes
from_asc_bytes-le_bytes size n h =
    ground (arith, length-le_bytes size n, of_le_bytes-le_bytes size n h)

-- `read_u32` reads a `u32`.
pub from_le_bytes-le_bytes : (n : ℕ) → n < two_32 → from_le_bytes (le_bytes 4 n) ≡ done n
unfolding from_le_bytes le_bytes
from_le_bytes-le_bytes n h = ap done (omega (arith, h))

pub lt-values_of_4 : (n : ℕ) → n < two_32 → n < values_of 4
unfolding values_of
lt-values_of_4 n h = omega (arith, h)

pub lt-values_of_8 : (n : ℕ) → n < 18446744073709551616 → n < values_of 8
unfolding values_of
lt-values_of_8 n h = omega (arith, h)
