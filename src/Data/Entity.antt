-- ===== src/Data/Entity.antt =====
-- `Entity` of massbit/src/data/store/mod.rs: a map of attribute names to values.
pub mod Merge
use test_ci_for_massbitproto.Prelude.{
  String, Bool, Option, none, some, if◌then◌else◌, text_discrete,
}
use test_ci_for_massbitproto.Prelude.HashMap
use test_ci_for_massbitproto.Prelude.HashMap.{HashMap, for_each}
use test_ci_for_massbitproto.Data.Value.{Scalars, Value, null, is_null}

abbrev pub Attribute : Type 0
Attribute = String

abbrev pub Entity : Scalars → Type 0
Entity S = HashMap text_discrete (Value S)

pub data IdError : Type 0 where
  missing non_string : IdError

pub data IdResult : Type 0 where
  ok : String → IdResult
  err : IdError → IdResult

module _ {S : Scalars} where
  unfoldable pub new : Entity S
  new = HashMap.new text_discrete

  unfoldable pub get : Attribute → Entity S → Option (Value S)
  get k e = HashMap.get text_discrete k e

  -- `insert` and `set`; the value that they return is `get k e`.
  unfoldable pub insert : Attribute → Value S → Entity S → Entity S
  insert k v e = HashMap.insert text_discrete k v e

  -- The value that `remove` returns is `get k e`.
  unfoldable pub remove : Attribute → Entity S → Entity S
  remove k e = HashMap.remove text_discrete k e

  unfoldable pub contains_key : Attribute → Entity S → Bool
  contains_key k e = HashMap.contains_key text_discrete k e

  id_of : Option (Value S) → IdResult
  id_of none = err missing
  id_of (some (Value.string s)) = ok s
  id_of (some v) = err non_string

  unfoldable pub id : Entity S → IdResult
  unfolding id_of
  id e = id_of (get "id" e)

  -- `for (key, value) in update.0 { self.insert(key, value); }`
  unfoldable pub merge : Entity S → Entity S → Entity S
  merge e update = for_each insert update.entries e

  -- the body of the loop of `merge_remove_null_fields`
  unfoldable pub merge_field : Attribute → Value S → Entity S → Entity S
  merge_field k v e = if is_null v then remove k e else insert k v e

  unfoldable pub merge_remove_null_fields : Entity S → Entity S → Entity S
  merge_remove_null_fields e update = for_each merge_field update.entries e
