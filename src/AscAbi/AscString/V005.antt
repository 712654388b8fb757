-- ===== src/AscAbi/AscString/V005.antt =====
-- `AscString` of runtime/wasm/src/asc_abi/v0_0_5.rs.
use test_ci_for_massbitproto.Prelude.{
  ℕ, ◌+◌, ◌-◌, ◌*◌, ◌%◌, ltb, if◌then◌else◌, List, [], ◌∷◌, ◌++◌, length,
}
use test_ci_for_massbitproto.Prelude.Outcome.{Outcome, done, failed, ◌>>=◌}
use test_ci_for_massbitproto.AscHeap.Bytes.{two_32, zeros}
use test_ci_for_massbitproto.AscAbi.Elements.{content_of, next_power_of_two}

-- `byte_length` counts code units.
pub record AscString : Type 0 where
  pub byte_length : ℕ
  pub content : List ℕ

unfoldable pub new : List ℕ → Outcome AscString
new content =
    if ltb (two_32 - 1) (2 * length content)
    then failed "string cannot fit in WASM memory"
    else done (record { byte_length = length content % two_32; content = content })

unfoldable pub layout : AscString → List ℕ
layout s =
    let total_size = s.byte_length * 2 + 20 in
    content_of 2 s.content ++ zeros (next_power_of_two total_size - total_size)

unfoldable pub to_asc_bytes : AscString → Outcome (List ℕ)
to_asc_bytes s = done (layout s)

-- over `chunks(2)`
unfoldable pub read_units : List ℕ → Outcome (List ℕ)
read_units [] = done []
read_units (low ∷ []) = failed "Attempted to read past end of string content bytes chunk"
read_units (low ∷ high ∷ bytes) = do units ← read_units bytes; done ((low + 256 * high) ∷ units)

unfoldable pub from_bytes : List ℕ → Outcome AscString
from_bytes asc_obj = read_units asc_obj >>= new

-- without the extra capacity, in bytes
unfoldable pub content_len : AscString → ℕ
content_len s = s.byte_length * 2
