-- ===== src/AscAbi/AscString/V004.antt =====
-- `AscString` of runtime/wasm/src/asc_abi/v0_0_4.rs.
use test_ci_for_massbitproto.Prelude.{
  ℕ, ◌+◌, ◌-◌, ◌*◌, ◌%◌, Bool, false, not, ◌&&◌, ltb, leb, ◌==◌, if◌then◌else◌, Option, none, some,
  List, [], ◌∷◌, ◌++◌, length,
}
use test_ci_for_massbitproto.Prelude.Int.{ℤ, pos, negsuc}
use test_ci_for_massbitproto.Prelude.Outcome.{Outcome, done, failed, panic, ◌>>=◌}
use test_ci_for_massbitproto.AscHeap.Bytes.{two_32, take, drop, from_le_bytes}
use test_ci_for_massbitproto.AscHeap.Words.{le_bytes}
use test_ci_for_massbitproto.AscHeap.Ptr.{AscHeap, read_u32}
use test_ci_for_massbitproto.AscAbi.Elements.{content_of}

pub record AscString : Type 0 where
  pub length : ℕ
  pub content : List ℕ

unfoldable pub new : List ℕ → Outcome AscString
new content =
    if ltb (two_32 - 1) (2 * length content)
    then failed "string cannot fit in WASM memory"
    else done (record { length = length content % two_32; content = content })

-- The two bytes of each code unit come lowest first.
unfoldable pub layout : AscString → List ℕ
layout s = le_bytes 4 s.length ++ content_of 2 s.content

unfoldable pub to_asc_bytes : AscString → Outcome (List ℕ)
to_asc_bytes s = done (layout s)

-- `length.checked_mul(2).and_then(|l| l.checked_add(4))` of an `i32`, by its bits
unfoldable pub expected_size : ℕ → Option ℤ
expected_size n =
    if ltb n 2147483648
    then (if ltb (2 * n + 4) 2147483648 then some (pos (2 * n + 4)) else none)
    else if ltb n 3221225472
    then none
    else if leb (2 * (two_32 - n)) 4
    then some (pos (4 - 2 * (two_32 - n)))
    else some (negsuc (2 * (two_32 - n) - 5))

-- `==` with `asc_obj.len().try_into().ok()`
unfoldable pub is_size : Option ℤ → ℕ → Bool
is_size none len = leb 2147483648 len
is_size (some (pos n)) len = (n == len) && ltb len 2147483648
is_size (some (negsuc n)) len = false

-- the loop over the pairs of bytes, whose index panics at a lonely byte
unfoldable pub read_units : List ℕ → Outcome (List ℕ)
read_units [] = done []
read_units (low ∷ []) = panic
read_units (low ∷ high ∷ bytes) = do units ← read_units bytes; done ((low + 256 * high) ∷ units)

unfoldable pub from_bytes : List ℕ → Outcome AscString
from_bytes asc_obj =
    if ltb (length asc_obj) 4 then failed "String bytes not long enough to contain length" else (do
      n ← from_le_bytes (take 4 asc_obj)
      if not (is_size (expected_size n) (length asc_obj))
          then failed "String length header does not equal byte length"
          else if not (length asc_obj % 2 == 0)
          then failed "Invalid string length"
          else (read_units (drop 4 asc_obj) >>= new))

-- `checked_mul` and `checked_add` of a `u32`
unfoldable pub asc_size : (H : AscHeap) → ℕ → H.State → Outcome ℕ
asc_size H ptr heap = do
  n ← read_u32 H ptr heap
  if ltb (2 * n + 4) two_32
      then done (2 * n + 4)
      else failed "Overflowed when getting size of string"
