-- ===== src/Data/Entity/Merge.antt =====
-- What `merge` and `merge_remove_null_fields` leave under each attribute.
use test_ci_for_massbitproto.Prelude.{
  Option, none, some, ite, ◌≡◌, if◌then◌else◌, text_discrete, Bool-cases, inl, inr,
}
use test_ci_for_massbitproto.Prelude.HashMap
use test_ci_for_massbitproto.Prelude.HashMap.{lookup-for_each}
use test_ci_for_massbitproto.Data.Value.{Scalars, Value, is_null}
use test_ci_for_massbitproto.Data.Entity.{
  Attribute, Entity, new, get, insert, remove, merge, merge_field, merge_remove_null_fields,
}

-- `value`, unless it is `Value::Null`.
abbrev pub non_null : {S : Scalars} → Value S → Option (Value S)
non_null v = if is_null v then none else some v

module _ {S : Scalars} (k j : Attribute) (e : Entity S) where
  pub get-insert : (v : Value S) → get j (insert k v e) ≡ ite (text_discrete k j) (some v) (get j e)
  unfolding get insert
  get-insert v = HashMap.get-insert text_discrete k j e v

  pub get-remove : get j (remove k e) ≡ ite (text_discrete k j) none (get j e)
  unfolding get remove
  get-remove = HashMap.get-remove text_discrete k j e

  pub get-merge_field :
      (v : Value S) → get j (merge_field k v e) ≡ ite (text_discrete k j) (non_null v) (get j e)
  unfolding merge_field
  get-merge_field v = elim (Bool-cases (is_null v)) [
    | inl n ↦ rw n get-remove
    | inr n ↦ rw n (get-insert v)
  ]

module _ {S : Scalars} (e update : Entity S) (k : Attribute) where
  -- An attribute of the update has the update's value after `merge`, also where that is `Null`; any
  -- other attribute keeps its value.
  pub get-merge : get k (merge e update) ≡ elim (get k update) [ none ↦ get k e | some v ↦ some v ]
  unfolding merge get HashMap.get
  get-merge =
      lookup-for_each text_discrete insert get (λ v _. some v) (λ k v e j. get-insert k j e v)
        update.entries update.distinct e k

  -- After `merge_remove_null_fields` an attribute of the update has the update's value, and is absent
  -- where that is `Null`; any other attribute keeps its value.
  pub get-merge_remove_null_fields :
      get k (merge_remove_null_fields e update)
      ≡ elim (get k update) [ none ↦ get k e | some v ↦ non_null v ]
  unfolding merge_remove_null_fields get HashMap.get
  get-merge_remove_null_fields =
      lookup-for_each text_discrete merge_field get (λ v _. non_null v)
        (λ k v e j. get-merge_field k j e v) update.entries update.distinct e k

pub get-new : {S : Scalars} (k : Attribute) → get {S = S} k new ≡ none
unfolding get new
get-new k = HashMap.get-new text_discrete k
