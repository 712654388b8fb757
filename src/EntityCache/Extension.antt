-- ===== src/EntityCache/Extension.antt =====
-- Operations that come in bulk: `append` and `extend` of `EntityCache` in massbit/src/components/store.rs.
use test_ci_for_massbitproto.Prelude.{
  false, Option, none, some, ite, List, [], ◌∷◌, ◌≡◌, refl, ap, ◌∙◌, arith, Bool-cases, inl, inr,
}
use test_ci_for_massbitproto.Prelude.HashMap
use test_ci_for_massbitproto.Prelude.HashMap.{for_each}
use test_ci_for_massbitproto.Prelude.Outcome.{done}
use test_ci_for_massbitproto.Data.Value.{Scalars}
use test_ci_for_massbitproto.Data.Entity.{Entity}
use test_ci_for_massbitproto.LfuCache.Ops as Lfu
use test_ci_for_massbitproto.EntityCache.Op.{EntityOp, apply_to}
use test_ci_for_massbitproto.EntityCache.Op.View.{SameView, SameView-trans, step-SameView}
use test_ci_for_massbitproto.EntityCache.State.{
  EntityKey, key_discrete, Env, types, EntityCache, EntityOperation,
}
use test_ci_for_massbitproto.EntityCache.Ops.{
  next_op, apply_update, entity_op, append_operation, append_all, append, extend,
}
use test_ci_for_massbitproto.EntityCache.Handler.{
  shown, shown-entity_op, for_each-entity_op, get-for_each-accumulate_at, SameView-refl,
  SameView-of_eq, apply_update-next_op,
}
use test_ci_for_massbitproto.EntityCache.Exit.{IsIdle, inside_handler}

-- The pending operation `o`, if any, joins what is pending.
apply_update-joined :
    {S : Scalars} (pending o : Option (EntityOp S)) (entity : Option (Entity S))
    → SameView
        (apply_update (elim o [ none ↦ pending | some op ↦ some (next_op pending op) ]) entity)
        (apply_update o (apply_update pending entity))
unfolding apply_update
apply_update-joined pending none entity = SameView-refl (apply_update pending entity)
apply_update-joined pending (some op) entity = apply_update-next_op pending op entity

module _ {S : Scalars} where
  -- An operation of `append`, as a key and an accumulated change.
  abbrev pub key_of_operation : EntityOperation S → EntityKey
  key_of_operation (EntityOperation.set key data') = key
  key_of_operation (EntityOperation.remove key) = key

  abbrev pub op_of_operation : EntityOperation S → EntityOp S
  op_of_operation (EntityOperation.set key data') = EntityOp.update data'
  op_of_operation (EntityOperation.remove key) = EntityOp.remove

  -- The entity of a key after the operations, each applied in turn.
  abbrev pub appended : EntityKey → List (EntityOperation S) → Option (Entity S) → Option (Entity S)
  appended key [] e = e
  appended key (o ∷ operations) e =
      appended key operations
        (ite (key_discrete (key_of_operation o) key) (apply_to (op_of_operation o) e) e)

  appended-SameView :
      (key : EntityKey) (operations : List (EntityOperation S)) (a b : Option (Entity S))
      → SameView a b
      → SameView (appended key operations a) (appended key operations b)
  appended-SameView key [] a b h = h
  appended-SameView key (o ∷ operations) a b h =
      let d = key_discrete (key_of_operation o) key in
      let op = op_of_operation o in
      appended-SameView key operations (ite d (apply_to op a) a) (ite d (apply_to op b) b)
        (step-SameView d op a b h)

module _ {E : Env} where
  -- The cache after the operations of `other`, in a handler and outside.
  extended : EntityCache E → EntityCache E → EntityCache E
  extended c other =
      for_each (entity_op E) other.updates.entries
        (record c { current = Lfu.extend (types E) E.queue c.current other.current })

  shown-extended :
      (c other : EntityCache E) (key : EntityKey) (entity : Option (Entity E.scalars))
      → (c.in_handler ≡ false → IsIdle c)
      → SameView
          (shown key (extended c other) entity)
          (apply_update (HashMap.get key_discrete key other.updates) (shown key c entity))
  unfolding extended apply_update
  shown-extended c other key entity idle =
      let o = HashMap.get key_discrete key other.updates in
      let h = HashMap.get key_discrete key c.handler_updates in
      let u = HashMap.get key_discrete key c.updates in
      let d = record c { current = Lfu.extend (types E) E.queue c.current other.current } in
      elim (Bool-cases c.in_handler) [
        | inl inside ↦
            SameView-of_eq
              {a' = apply_update (elim o [ none ↦ h | some op ↦ some (next_op h op) ])
                (apply_update u entity)}
              (ground (
                arith,
                inside,
                inside_handler d other.updates.entries c.handler_updates,
                get-for_each-accumulate_at other.updates c.handler_updates key,
              ))
              refl (apply_update-joined h o (apply_update u entity))
        | inr outside ↦
            SameView-of_eq
              {a' = apply_update (elim o [ none ↦ u | some op ↦ some (next_op u op) ]) entity}
              {b' = apply_update o (apply_update u entity)}
              (ground (
                arith,
                outside,
                idle outside key,
                for_each-entity_op other.updates.entries d c.updates,
                get-for_each-accumulate_at other.updates c.updates key,
              ))
              (ground (arith, idle outside key)) (apply_update-joined u o entity)
      ]

  -- `extend` with a cache that is in no handler, where nothing is pending for a handler outside of one:
  -- each entity is shown as before, with the operation of the other cache on it applied, up to
  -- attributes that are `Null`.
  pub extend_lem :
      (c other : EntityCache E)
      → other.in_handler ≡ false
      → (c.in_handler ≡ false → IsIdle c)
      → (c' : EntityCache E) × (extend E c other ≡ done c')
        × ((key : EntityKey) (entity : Option (Entity E.scalars))
            → SameView
                (shown key c' entity)
                (apply_update (HashMap.get key_discrete key other.updates) (shown key c entity)))
  unfolding extend extended
  extend_lem c other out idle =
      (extended c other, ground (arith, out), λ key entity. shown-extended c other key entity idle)

  append_operation-entity_op :
      (o : EntityOperation E.scalars) (c : EntityCache E)
      → append_operation E o c ≡ entity_op E (key_of_operation o) (op_of_operation o) c
  unfolding append_operation
  append_operation-entity_op (EntityOperation.set key data') c = refl
  append_operation-entity_op (EntityOperation.remove key) c = refl

  entity_op-outside :
      (key : EntityKey) (op : EntityOp E.scalars) (c : EntityCache E)
      → c.in_handler ≡ false
      → ((entity_op E key op c).in_handler ≡ false)
        × ((entity_op E key op c).handler_updates ≡ c.handler_updates)
  unfolding entity_op
  entity_op-outside key op c out = (ground arith, ground arith)

  shown-append_all :
      (operations : List (EntityOperation E.scalars)) (c : EntityCache E)
      → c.in_handler ≡ false
      → IsIdle c
      → ((append_all E operations c).in_handler ≡ false)
        × IsIdle (append_all E operations c)
        × ((key : EntityKey) (entity : Option (Entity E.scalars))
            → SameView
                (shown key (append_all E operations c) entity)
                (appended key operations (shown key c entity)))
  unfolding append_all
  shown-append_all [] c out idle = (out, idle, λ key e. SameView-refl (shown key c e))
  shown-append_all (o ∷ operations) c out idle =
      let k = key_of_operation o in
      let op = op_of_operation o in
      let c₁ = append_operation E o c in
      let same = append_operation-entity_op o c in
      let stays = entity_op-outside k op c out in
      let (out', idle', rest) =
        shown-append_all operations c₁ (ap (λ (x : EntityCache E). x.in_handler) same ∙ stays.0)
          (λ key.
            ap (λ (x : EntityCache E). HashMap.get key_discrete key x.handler_updates) same
            ∙ ap (HashMap.get key_discrete key) stays.1
            ∙ idle key) in
      (
        out',
        idle',
        λ key e. SameView-trans _ _ _ (rest key e) (
            appended-SameView key operations (shown key c₁ e)
              (ite (key_discrete k key) (apply_to op (shown key c e)) (shown key c e))
              (SameView-of_eq {a' = shown key (entity_op E k op c) e} (ap (λ x. shown key x e) same)
                refl (shown-entity_op k key op c e (λ h. idle k)))),
      )

  -- `append` outside of a handler, where nothing is pending for one: the cache stays so, and each entity
  -- is shown as before with the operations on it applied, each after the one before, up to attributes
  -- that are `Null`.
  pub append_lem :
      (operations : List (EntityOperation E.scalars)) (c : EntityCache E)
      → c.in_handler ≡ false
      → IsIdle c
      → (c' : EntityCache E) × (append E operations c ≡ done c')
        × (c'.in_handler ≡ false)
        × IsIdle c'
        × ((key : EntityKey) (entity : Option (Entity E.scalars))
            → SameView (shown key c' entity) (appended key operations (shown key c entity)))
  unfolding append
  append_lem operations c out idle =
      let (out', idle', all) = shown-append_all operations c out idle in
      (append_all E operations c, ground (arith, out), out', idle', all)
