-- ===== src/Prelude/Text.antt =====
-- The order of texts, as `Ord` of `String` has it: by bytes.
use Prim.Native.String.{String, compare}
use mathlib.Core.Bool.{Bool}
use text.Mathlib.Text.{is_le}

abbrev pub text_le : String → String → Bool
text_le s t = is_le (compare s t)
