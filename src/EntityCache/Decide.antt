-- ===== src/EntityCache/Decide.antt =====
-- The decision for one entity: the modification, and what goes back into the cache.
use test_ci_for_massbitproto.Prelude.{
  true, false, Option, none, some, ◌≢◌, is_some, ite, ◌≡◌, refl, sym, arith, Bool-cases, inl, inr,
  text_discrete,
}
use test_ci_for_massbitproto.Prelude.HashMap.Equality.{eq_iff}
use test_ci_for_massbitproto.Data.Value.{Scalars, value_discrete}
use test_ci_for_massbitproto.Data.Entity
use test_ci_for_massbitproto.Data.Entity.{Entity, merge_remove_null_fields}
use test_ci_for_massbitproto.Data.Entity.Merge.{get-merge_remove_null_fields, get-new}
use test_ci_for_massbitproto.EntityCache.Op.{EntityOp, apply_to}
use test_ci_for_massbitproto.EntityCache.Op.View.{SameView, visible}
use test_ci_for_massbitproto.EntityCache.State.{EntityKey, key_discrete, EntityModification, Env}
use test_ci_for_massbitproto.EntityCache.Modifications.{changed, overwrite_if_changed, decide}
use test_ci_for_massbitproto.EntityCache.Handler.{SameView-refl, SameView-of_eq}

-- What the store holds, by key.
abbrev pub Content : Scalars → Type 0
Content S = EntityKey → Option (Entity S)

-- The store after a modification: a row is inserted or overwritten with the data, or removed.
unfoldable pub modify : {S : Scalars} → EntityModification S → Content S → Content S
modify (EntityModification.insert key data') content j =
    ite (key_discrete key j) (some data') (content j)
modify (EntityModification.overwrite key data') content j =
    ite (key_discrete key j) (some data') (content j)
modify (EntityModification.remove key) content j = ite (key_discrete key j) none (content j)

unfoldable pub modify_if : {S : Scalars} → Option (EntityModification S) → Content S → Content S
modify_if none content = content
modify_if (some m) content = modify m content

module _ (E : Env) where
  -- A modification is one that the store needs: an insertion is of an entity that is not there, and
  -- the two others are of one that is, an overwriting with other attributes.
  abbrev pub IsNeeded : Content E.scalars → EntityModification E.scalars → Type 0
  IsNeeded content (EntityModification.insert key data') = content key ≡ none
  IsNeeded content (EntityModification.overwrite key data') =
      (old : Entity E.scalars) × (content key ≡ some old) × (changed E old data' ≡ true)
  IsNeeded content (EntityModification.remove key) = is_some (content key) ≡ true

  abbrev pub IsNeededIf : Content E.scalars → Option (EntityModification E.scalars) → Type 0
  IsNeededIf content none = Unit
  IsNeededIf content (some m) = IsNeeded content m

  unchanged-get :
      (old new : Entity E.scalars)
      → changed E old new ≡ false
      → (k : Entity.Attribute) → Entity.get k old ≡ Entity.get k new
  unfolding changed Entity.get
  unchanged-get old new h =
      (eq_iff text_discrete (value_discrete E.scalars) old new).0 (ground arith)

  unchanged-SameView :
      (old new : Entity E.scalars) → changed E old new ≡ false → SameView (some old) (some new)
  unfolding visible
  unchanged-SameView old new h = (refl, λ k. ground (arith, unchanged-get old new h k))

  merge_new-SameView :
      (u : Entity E.scalars) → SameView (some (merge_remove_null_fields Entity.new u)) (some u)
  unfolding visible
  merge_new-SameView u = (
    refl,
    λ k. ground (arith, get-merge_remove_null_fields Entity.new u k, get-new {S = E.scalars} k),
  )

  module _ (key : EntityKey) (content : Content E.scalars) where
    -- The entity in the store after the decision.
    abbrev pub after : Option (Entity E.scalars) → EntityOp E.scalars → Option (Entity E.scalars)
    after current op = modify_if (decide E key current op).1 content key

    overwritten :
        (old new : Entity E.scalars)
        → content key ≡ some old
        → SameView (modify_if (overwrite_if_changed E key old new).1 content key) (some new)
    unfolding overwrite_if_changed modify_if modify
    overwritten old new h = elim (Bool-cases (changed E old new)) [
      | inl yes_changed ↦
          SameView-of_eq {a' = some new} (ground arith) refl (SameView-refl (some new))
      | inr same ↦
          SameView-of_eq {a' = some old} (ground arith) refl (unchanged-SameView old new same)
    ]

    -- After the modification the store has the entity that the operation makes of the old one, up to
    -- attributes that are `Null`.
    pub decide-SameView :
        (current : Option (Entity E.scalars)) (op : EntityOp E.scalars)
        → content key ≡ current
        → SameView (after current op) (apply_to op current)
    unfolding decide modify_if modify apply_to
    decide-SameView none EntityOp.remove h = SameView-of_eq {a' = none} h refl (SameView-refl none)
    decide-SameView none (EntityOp.update u) h =
        SameView-of_eq (ground arith) refl (merge_new-SameView u)
    decide-SameView none (EntityOp.overwrite u) h =
        SameView-of_eq (ground arith) refl (merge_new-SameView u)
    decide-SameView (some e) EntityOp.remove h =
        SameView-of_eq {a' = none} (ground arith) refl (SameView-refl none)
    decide-SameView (some e) (EntityOp.update u) h = overwritten e (merge_remove_null_fields e u) h
    decide-SameView (some e) (EntityOp.overwrite u) h = overwritten e u h

    overwritten-IsNeeded :
        (old new : Entity E.scalars)
        → content key ≡ some old
        → IsNeededIf content (overwrite_if_changed E key old new).1
    unfolding overwrite_if_changed
    overwritten-IsNeeded old new h = elim (Bool-cases (changed E old new)) [
      | inl differ ↦ rw differ (old, h, differ)
      | inr same ↦ rw same tt
    ]

    pub decide-IsNeeded :
        (current : Option (Entity E.scalars)) (op : EntityOp E.scalars)
        → content key ≡ current
        → IsNeededIf content (decide E key current op).1
    unfolding decide
    decide-IsNeeded none EntityOp.remove h = tt
    decide-IsNeeded none (EntityOp.update u) h = h
    decide-IsNeeded none (EntityOp.overwrite u) h = h
    decide-IsNeeded (some e) EntityOp.remove h = ground arith
    decide-IsNeeded (some e) (EntityOp.update u) h =
        overwritten-IsNeeded e (merge_remove_null_fields e u) h
    decide-IsNeeded (some e) (EntityOp.overwrite u) h = overwritten-IsNeeded e u h

    -- What goes back into the cache is what the store has then; nothing goes back where it has nothing.
    abbrev pub IsCoherent : Option (Option (Entity E.scalars)) → Option (Entity E.scalars) → Type 0
    IsCoherent none entity = entity ≡ none
    IsCoherent (some value) entity = SameView value entity

    overwritten-IsCoherent :
        (old new : Entity E.scalars)
        → content key ≡ some old
        → SameView (some new) (modify_if (overwrite_if_changed E key old new).1 content key)
    overwritten-IsCoherent old new h = let v = overwritten old new h in (sym v.0, λ k. sym (v.1 k))

    pub decide-IsCoherent :
        (current : Option (Entity E.scalars)) (op : EntityOp E.scalars)
        → content key ≡ current
        → IsCoherent (decide E key current op).0 (after current op)
    unfolding decide modify_if modify overwrite_if_changed
    decide-IsCoherent none EntityOp.remove h = h
    decide-IsCoherent none (EntityOp.update u) h =
        SameView-of_eq refl (ground arith)
          (SameView-refl (some (merge_remove_null_fields Entity.new u)))
    decide-IsCoherent none (EntityOp.overwrite u) h =
        SameView-of_eq refl (ground arith)
          (SameView-refl (some (merge_remove_null_fields Entity.new u)))
    decide-IsCoherent (some e) EntityOp.remove h =
        SameView-of_eq {b' = none} refl (ground arith) (SameView-refl none)
    decide-IsCoherent (some e) (EntityOp.update u) h =
        overwritten-IsCoherent e (merge_remove_null_fields e u) h
    decide-IsCoherent (some e) (EntityOp.overwrite u) h = overwritten-IsCoherent e u h

    -- The decision is about its own key.
    pub modify_if-decide_ne :
        (current : Option (Entity E.scalars)) (op : EntityOp E.scalars) (j : EntityKey)
        → key ≢ j
        → modify_if (decide E key current op).1 content j ≡ content j
    unfolding decide modify_if modify overwrite_if_changed
    modify_if-decide_ne none EntityOp.remove j other = refl
    modify_if-decide_ne none (EntityOp.update u) j other = ground arith
    modify_if-decide_ne none (EntityOp.overwrite u) j other = ground arith
    modify_if-decide_ne (some e) EntityOp.remove j other = ground arith
    modify_if-decide_ne (some e) (EntityOp.update u) j other = ground arith
    modify_if-decide_ne (some e) (EntityOp.overwrite u) j other = ground arith
