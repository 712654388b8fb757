-- ===== src/Data/Value.antt =====
-- `Value` and `ValueType` of massbit/src/data/store/mod.rs. The scalar types `BigDecimal` and `BigInt`
-- wrap types of other packages, and enter as parameters with a decidable equality.
use test_ci_for_massbitproto.Prelude.{
  ℕ, String, Bool, true, false, List, Option, none, some, ite, text_discrete, ℕ_discrete, is_some,
}
use test_ci_for_massbitproto.Prelude.Int.{ℤ, ℤ_discrete}

pub record Scalars : Type 1 where
  pub BigDecimal : Type 0
  pub BigInt : Type 0
  pub decimal_discrete : Discrete BigDecimal
  pub integer_discrete : Discrete BigInt

pub data ValueType : Type 0 where
  boolean big_int bytes big_decimal int string : ValueType

-- `ValueType::from_str`; `none` is the error.
unfoldable pub value_type_of : String → Option ValueType
value_type_of s = ite (text_discrete s "Boolean") (some ValueType.boolean) (
    ite (text_discrete s "BigInt") (some ValueType.big_int) (
      ite (text_discrete s "Bytes") (some ValueType.bytes) (
        ite (text_discrete s "BigDecimal") (some ValueType.big_decimal) (
          ite (text_discrete s "Int") (some ValueType.int) (
            ite (text_discrete s "String") (some ValueType.string)
              (ite (text_discrete s "ID") (some ValueType.string) none))))))

unfoldable pub is_scalar : String → Bool
is_scalar s = is_some (value_type_of s)

mutual
  pub data Value (S : Scalars) : Type 0 where
    string : String → Value S
    int : ℤ → Value S
    big_decimal : S.BigDecimal → Value S
    bool : Bool → Value S
    list : Values S → Value S
    null : Value S
    bytes : List ℕ → Value S
    big_int : S.BigInt → Value S

  pub data Values (S : Scalars) : Type 0 where
    nil : Values S
    cons : Value S → Values S → Values S

-- The derived `PartialEq` of `Value`.
unfoldable pub value_discrete : (S : Scalars) → Discrete (Value S)
value_discrete S =
    hlevel (S.decimal_discrete, S.integer_discrete, ℕ_discrete, text_discrete, ℤ_discrete)

module _ {S : Scalars} where
  unfoldable pub is_null : Value S → Bool
  is_null null = true
  is_null v = false

  -- `TryFrom<Value> for Option<BigInt>`; the outer `none` is the error.
  unfoldable pub to_big_int : Value S → Option (Option S.BigInt)
  to_big_int (big_int n) = some (some n)
  to_big_int null = some none
  to_big_int v = none
