-- ===== src/EntityCache/Handler.antt =====
-- What the cache shows of an entity, and how handlers change it.
use test_ci_for_massbitproto.Prelude.{
  false, Option, none, some, ite, List, [], ◌∷◌, ◌≡◌, refl, ap, sym, ◌∙◌, arith, is_some,
  Bool-cases, inl, inr,
}
use test_ci_for_massbitproto.Prelude.HashMap
use test_ci_for_massbitproto.Prelude.HashMap.{for_each, lookup-for_each}
use test_ci_for_massbitproto.Data.Value.{Scalars}
use test_ci_for_massbitproto.Data.Entity.{Entity}
use test_ci_for_massbitproto.EntityCache.Op.{EntityOp, apply_to}
use test_ci_for_massbitproto.EntityCache.Op.View.{SameView, visible, apply_to-accumulate}
use test_ci_for_massbitproto.EntityCache.State.{EntityKey, key_discrete, Env, Updates, EntityCache}
use test_ci_for_massbitproto.EntityCache.Ops.{next_op, accumulate_at, apply_update, entity_op}

module _ {S : Scalars} where
  pub get-accumulate_at :
      (key j : EntityKey) (op : EntityOp S) (m : Updates S)
      → HashMap.get key_discrete j (accumulate_at key op m)
        ≡ ite
            (key_discrete key j)
            (some (next_op (HashMap.get key_discrete j m) op))
            (HashMap.get key_discrete j m)
  unfolding accumulate_at
  get-accumulate_at key j op m =
      ground (
        arith,
        HashMap.get-insert key_discrete key j m (next_op (HashMap.get key_discrete key m) op),
      )

  -- The pending operation after a loop over the operations of another map.
  pub get-for_each-accumulate_at :
      (m u : Updates S) (key : EntityKey)
      → HashMap.get key_discrete key (for_each accumulate_at m.entries u)
        ≡ elim (HashMap.get key_discrete key m) [
          | none ↦ HashMap.get key_discrete key u
          | some op ↦ some (next_op (HashMap.get key_discrete key u) op)
        ]
  unfolding HashMap.get
  get-for_each-accumulate_at m u key =
      lookup-for_each key_discrete accumulate_at (HashMap.get key_discrete)
        (λ op pending. some (next_op pending op)) (λ k op s j. get-accumulate_at k j op s) m.entries
        m.distinct u key

  pub SameView-refl : (o : Option (Entity S)) → SameView o o
  SameView-refl o = (refl, λ k. refl)

  -- An operation that joins what is pending is applied after it.
  pub apply_update-next_op :
      (pending : Option (EntityOp S)) (op : EntityOp S) (entity : Option (Entity S))
      → SameView
          (apply_update (some (next_op pending op)) entity)
          (apply_to op (apply_update pending entity))
  unfolding apply_update next_op
  apply_update-next_op none op entity = SameView-refl (apply_to op entity)
  apply_update-next_op (some old) op entity = apply_to-accumulate old op entity

  -- `SameView` along equations of both sides.
  pub SameView-of_eq :
      {a a' b b' : Option (Entity S)} → a ≡ a' → b ≡ b' → SameView a' b' → SameView a b
  SameView-of_eq p q h = (
    ap is_some p ∙ h.0 ∙ sym (ap is_some q),
    λ k. ap (visible k) p ∙ h.1 k ∙ sym (ap (visible k) q),
  )

module _ {E : Env} where
  -- The entity that the cache shows for a key whose entity in the store is `entity`.
  abbrev pub shown :
      EntityKey → EntityCache E → Option (Entity E.scalars) → Option (Entity E.scalars)
  shown key c entity =
      apply_update (HashMap.get key_discrete key c.handler_updates)
        (apply_update (HashMap.get key_discrete key c.updates) entity)

  -- Outside of handlers the operations of a loop go to the main updates.
  pub for_each-entity_op :
      (ops : List (EntityKey × EntityOp E.scalars)) (c : EntityCache E) (u : Updates E.scalars)
      → for_each (entity_op E) ops (record c { in_handler = false; updates = u })
        ≡ record c { in_handler = false; updates = for_each accumulate_at ops u }
  unfolding for_each entity_op
  for_each-entity_op [] c u = refl
  for_each-entity_op ((key, op) ∷ ops) c u = for_each-entity_op ops c (accumulate_at key op u)

  -- `entity_op`, and with it `set` and `remove`, inside of a handler, and outside where no operation of
  -- a handler is pending for the key: the entity of the key is shown with the operation applied, up
  -- to attributes that are `Null`, and every other one as before.
  pub shown-entity_op :
      (key j : EntityKey) (op : EntityOp E.scalars) (c : EntityCache E)
      (entity : Option (Entity E.scalars))
      → (c.in_handler ≡ false → HashMap.get key_discrete key c.handler_updates ≡ none)
      → SameView
          (shown j (entity_op E key op c) entity)
          (ite (key_discrete key j) (apply_to op (shown j c entity)) (shown j c entity))
  unfolding entity_op apply_update
  shown-entity_op key j op c entity idle =
      let h = HashMap.get key_discrete j c.handler_updates in
      let u = HashMap.get key_discrete j c.updates in
      let below = apply_update u entity in
      let right = apply_to op (shown j c entity) in
      elim (key_discrete key j) [
        | yes same ↦ elim (Bool-cases c.in_handler) [
          | inl inside ↦
              SameView-of_eq {a' = apply_update (some (next_op h op)) below} {b' = right}
                (ground (arith, get-accumulate_at key j op c.handler_updates)) (ground arith)
                (apply_update-next_op h op below)
          | inr outside ↦
              SameView-of_eq {a' = apply_update (some (next_op u op)) entity}
                {b' = apply_to op (apply_update u entity)}
                (ground (
                  arith,
                  get-accumulate_at key j op c.updates,
                  ap (λ i. HashMap.get key_discrete i c.handler_updates) same,
                ))
                (ground (arith, ap (λ i. HashMap.get key_discrete i c.handler_updates) same))
                (apply_update-next_op u op entity)
        ]
        | no other ↦
            SameView-of_eq {a' = shown j c entity} {b' = shown j c entity}
              (ground (
                arith,
                get-accumulate_at key j op c.handler_updates,
                get-accumulate_at key j op c.updates,
              ))
              (ground arith) (SameView-refl (shown j c entity))
      ]
