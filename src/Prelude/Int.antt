-- ===== src/Prelude/Int.antt =====
-- Signed integers over the native numbers: `negsuc n` is -(n + 1).
use Prim.Native.Nat.{ℕ, ◌+◌, ◌-◌}
use native.Mathlib.Decide.{ℕ_discrete}
use mathlib.Core.Bool.{Bool, true, false}
use test_ci_for_massbitproto.Prelude.Tests.{ltb, leb, if◌then◌else◌}
use test_ci_for_massbitproto.Prelude.Outcome.{Outcome, done, panic}

pub data ℤ : Type 0 where
  pos : ℕ → ℤ
  negsuc : ℕ → ℤ

unfoldable pub ℤ_discrete : Discrete ℤ
ℤ_discrete = hlevel ℕ_discrete

-- `a <= b` and `cmp::min(a, b)` of signed integers
abbrev pub le_int : ℤ → ℤ → Bool
le_int (pos a) (pos b) = leb a b
le_int (pos a) (negsuc b) = false
le_int (negsuc a) (pos b) = true
le_int (negsuc a) (negsuc b) = leb b a

abbrev pub min_int : ℤ → ℤ → ℤ
min_int a b = if le_int a b then a else b

-- `i + n` and `i - n` on an `i32`, with the overflow check
abbrev pub add_i32 : ℤ → ℕ → Outcome ℤ
add_i32 (pos a) n = if ltb (a + n) 2147483648 then done (pos (a + n)) else panic
add_i32 (negsuc a) n = if ltb a n then done (pos (n - a - 1)) else done (negsuc (a - n))

abbrev pub sub_i32 : ℤ → ℕ → Outcome ℤ
sub_i32 (pos a) n = if leb n a then done (pos (a - n)) else done (negsuc (n - a - 1))
sub_i32 (negsuc a) n = if ltb (a + n) 2147483648 then done (negsuc (a + n)) else panic

-- `i32::try_from(n).unwrap()` of a size
abbrev pub i32_of_size : ℕ → Outcome ℕ
i32_of_size n = if ltb n 2147483648 then done n else panic

-- the number, and 0 for a negative one
abbrev pub pos_part : ℤ → ℕ
pos_part (pos n) = n
pos_part (negsuc n) = 0
