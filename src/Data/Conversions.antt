-- ===== src/Data/Conversions.antt =====
-- The conversions of `Value` in massbit/src/data/store/mod.rs: from Rust values, to texts, and to the values
-- of GraphQL.
use test_ci_for_massbitproto.Prelude.{
  ℕ, String, Bool, true, false, List, [], ◌∷◌, Option, none, some, ◌≡◌, refl, ap, ◌∙◌, ◌↔◌, arith,
}
use Prim.Native.String.{◌++◌}
use test_ci_for_massbitproto.Prelude.Int.{ℤ}
use test_ci_for_massbitproto.Data.Value.{Scalars, Value, Values, to_big_int}

-- The texts of the scalars, and `BigInt::from` of a `u64`.
pub record Texts (S : Scalars) : Type 0 where
  pub int_text : ℤ → String
  pub big_decimal_text : S.BigDecimal → String
  pub big_int_text : S.BigInt → String
  pub bytes_text : List ℕ → String
  pub big_int_of_u64 : ℕ → S.BigInt

-- The values of the GraphQL parser that a `Value` becomes.
mutual
  pub data QValue : Type 0 where
    q_string : String → QValue
    q_int : ℤ → QValue
    q_boolean : Bool → QValue
    q_null : QValue
    q_list : QValues → QValue

  pub data QValues : Type 0 where
    q_nil : QValues
    q_cons : QValue → QValues → QValues

abbrev pub bool_text : Bool → String
bool_text true = "true"
bool_text false = "false"

module _ {S : Scalars} where
  abbrev pub from_string : String → Value S
  from_string s = Value.string s

  abbrev pub from_bytes : List ℕ → Value S
  from_bytes b = Value.bytes b

  abbrev pub from_bool : Bool → Value S
  from_bool b = Value.bool b

  abbrev pub from_i32 : ℤ → Value S
  from_i32 i = Value.int i

  abbrev pub from_big_decimal : S.BigDecimal → Value S
  from_big_decimal d = Value.big_decimal d

  abbrev pub from_big_int : S.BigInt → Value S
  from_big_int n = Value.big_int n

  abbrev pub from_u64 : Texts S → ℕ → Value S
  from_u64 texts n = Value.big_int (texts.big_int_of_u64 n)

  -- `From<Vec<T>>` and `From<Option<T>>`, where `into` is the conversion of `T`
  abbrev pub from_all : {A : Type 0} → (A → Value S) → List A → Values S
  from_all into [] = Values.nil
  from_all into (x ∷ xs) = Values.cons (into x) (from_all into xs)

  abbrev pub from_vec : {A : Type 0} → (A → Value S) → List A → Value S
  from_vec into xs = Value.list (from_all into xs)

  unfoldable pub from_option : {A : Type 0} → (A → Value S) → Option A → Value S
  from_option into none = Value.null
  from_option into (some x) = into x

  mutual
    pub to_text : Texts S → Value S → String
    to_text texts (Value.string s) = s
    to_text texts (Value.int i) = texts.int_text i
    to_text texts (Value.big_decimal d) = texts.big_decimal_text d
    to_text texts (Value.bool b) = bool_text b
    to_text texts Value.null = "null"
    to_text texts (Value.list values) = "[" ++ (joined texts values ++ "]")
    to_text texts (Value.bytes b) = texts.bytes_text b
    to_text texts (Value.big_int n) = texts.big_int_text n

    -- `join(", ")`
    pub joined : Texts S → Values S → String
    joined texts Values.nil = ""
    joined texts (Values.cons v Values.nil) = to_text texts v
    joined texts (Values.cons v (Values.cons w values)) =
        to_text texts v ++ (", " ++ joined texts (Values.cons w values))

  mutual
    pub to_graphql : Texts S → Value S → QValue
    to_graphql texts (Value.string s) = q_string s
    to_graphql texts (Value.int i) = q_int i
    to_graphql texts (Value.big_decimal d) = q_string (texts.big_decimal_text d)
    to_graphql texts (Value.bool b) = q_boolean b
    to_graphql texts Value.null = q_null
    to_graphql texts (Value.list values) = q_list (all_to_graphql texts values)
    to_graphql texts (Value.bytes b) = q_string (texts.bytes_text b)
    to_graphql texts (Value.big_int n) = q_string (texts.big_int_text n)

    pub all_to_graphql : Texts S → Values S → QValues
    all_to_graphql texts Values.nil = q_nil
    all_to_graphql texts (Values.cons v values) =
        q_cons (to_graphql texts v) (all_to_graphql texts values)

  -- A value converts to an optional `BigInt` exactly where it is the value that the optional `BigInt`
  -- converts to; any other value is an error.
  pub to_big_int-from_option :
      (v : Value S) (o : Option S.BigInt)
      → (to_big_int v ≡ some o) ↔ (v ≡ from_option from_big_int o)
  unfolding to_big_int from_option
  to_big_int-from_option v o = (to v o, λ h. ap to_big_int h ∙ back o)
    where
      to :
          (v : Value S) (o : Option S.BigInt)
          → to_big_int v ≡ some o
          → v ≡ from_option from_big_int o
      to (Value.big_int n) none h = cc
      to (Value.big_int n) (some m) h = ground arith
      to Value.null none h = refl
      to Value.null (some m) h = cc
      to (Value.string s) o h = cc
      to (Value.int i) o h = cc
      to (Value.big_decimal d) o h = cc
      to (Value.bool b) o h = cc
      to (Value.list l) o h = cc
      to (Value.bytes b) o h = cc

      back : (o : Option S.BigInt) → to_big_int (from_option from_big_int o) ≡ some o
      back none = refl
      back (some n) = refl
