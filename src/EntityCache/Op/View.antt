-- ===== src/EntityCache/Op/View.antt =====
-- The view of an entity in which a `Null` attribute is an absent one, and what operations do to it.
use test_ci_for_massbitproto.Prelude.{Option, none, some, is_some, ite, ◌≡◌, refl, ◌∙◌, arith}
use test_ci_for_massbitproto.Data.Value.{Scalars, Value}
use test_ci_for_massbitproto.Data.Entity.{Attribute, Entity, get, merge, merge_remove_null_fields}
use test_ci_for_massbitproto.Data.Entity.Merge.{non_null, get-merge, get-merge_remove_null_fields}
use test_ci_for_massbitproto.EntityCache.Op.{
  EntityOp, remove, update, overwrite, apply_to, accumulate,
}

module _ {S : Scalars} where
  -- What is set under an attribute: `Null` counts as nothing.
  unfoldable pub visible : Attribute → Option (Entity S) → Option (Value S)
  visible k none = none
  visible k (some e) = elim (get k e) [ none ↦ none | some v ↦ non_null v ]

  -- Both are absent, or both are there with the same attributes that are not `Null`.
  abbrev pub SameView : Option (Entity S) → Option (Entity S) → Type 0
  SameView a b = (is_some a ≡ is_some b) × ((k : Attribute) → visible k a ≡ visible k b)

  pub SameView-trans : (a b c : Option (Entity S)) → SameView a b → SameView b c → SameView a c
  SameView-trans a b c p q = (p.0 ∙ q.0, λ k. p.1 k ∙ q.1 k)

  module _ (k : Attribute) (e u : Entity S) where
    -- `merge` keeps a `Null` and `merge_remove_null_fields` drops it: the view is the same.
    pub visible-merge :
        visible k (some (merge e u)) ≡ visible k (some (merge_remove_null_fields e u))
    unfolding visible
    visible-merge = ground (arith, get-merge e u k, get-merge_remove_null_fields e u k)

    pub visible-merge_twice :
        (x : Entity S)
        → visible k (some (merge_remove_null_fields x (merge e u)))
          ≡ visible k (some (merge_remove_null_fields (merge_remove_null_fields x e) u))
    unfolding visible
    visible-merge_twice x = ground (
      arith,
      get-merge e u k,
      get-merge_remove_null_fields x (merge e u) k,
      get-merge_remove_null_fields x e k,
      get-merge_remove_null_fields (merge_remove_null_fields x e) u k,
    )

  -- To apply an accumulated change is to apply the change and then the next one: the entity is
  -- there in both cases or in neither, and its attributes that are not `Null` are the same.
  pub apply_to-accumulate :
      (op next : EntityOp S) (entity : Option (Entity S))
      → SameView (apply_to (accumulate op next) entity) (apply_to next (apply_to op entity))
  unfolding apply_to accumulate
  apply_to-accumulate op remove entity = (refl, λ k. refl)
  apply_to-accumulate op (overwrite new) entity = (refl, λ k. refl)
  apply_to-accumulate remove (update new) entity = (refl, λ k. refl)
  apply_to-accumulate (update e) (update u) none = (refl, λ k. visible-merge k e u)
  apply_to-accumulate (update e) (update u) (some x) = (refl, λ k. visible-merge_twice k e u x)
  apply_to-accumulate (overwrite e) (update u) entity = (refl, λ k. visible-merge k e u)

  -- A change that is applied to two entities of the same view leaves the same view.
  pub apply_to-SameView :
      (op : EntityOp S) (a b : Option (Entity S))
      → SameView a b
      → SameView (apply_to op a) (apply_to op b)
  unfolding apply_to visible
  apply_to-SameView remove a b h = (refl, λ k. refl)
  apply_to-SameView (overwrite new) a b h = (refl, λ k. refl)
  apply_to-SameView (update u) none none h = (refl, λ k. refl)
  apply_to-SameView (update u) (some a) (some b) h = (
    refl,
    λ k.
        ground
          (arith, h.1 k, get-merge_remove_null_fields a u k, get-merge_remove_null_fields b u k),
  )
  apply_to-SameView (update u) none (some b) h = cc
  apply_to-SameView (update u) (some a) none h = cc

-- A change that is made or not leaves the same view.
pub step-SameView :
    {S : Scalars} {P : Type 0} (d : Dec P) (op : EntityOp S) (a b : Option (Entity S))
    → SameView a b
    → SameView (ite d (apply_to op a) a) (ite d (apply_to op b) b)
step-SameView (yes p) op a b h = apply_to-SameView op a b h
step-SameView (no n) op a b h = h
