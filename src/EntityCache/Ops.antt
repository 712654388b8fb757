-- ===== src/EntityCache/Ops.antt =====
-- The operations of `EntityCache`, but for `as_modifications`.
use test_ci_for_massbitproto.Prelude.{
  false, true, not, Option, none, some, map_option, List, [], ◌∷◌, ◌++◌, if◌then◌else◌,
}
use test_ci_for_massbitproto.Prelude.HashMap
use test_ci_for_massbitproto.Prelude.HashMap.{for_each}
use test_ci_for_massbitproto.Prelude.Outcome.{Outcome, done, ◌>>=◌, ◌>>◌, assert}
use test_ci_for_massbitproto.Data.Value.{Scalars}
use test_ci_for_massbitproto.Data.Entity
use test_ci_for_massbitproto.Data.Entity.{Entity}
use test_ci_for_massbitproto.LfuCache.Ops as Lfu
use test_ci_for_massbitproto.EntityCache.Op.{EntityOp, apply_to, accumulate}
use test_ci_for_massbitproto.EntityCache.State.{
  EntityKey, key_discrete, EntityOperation, Env, types, Updates, EntityLfu, EntityCache,
}

-- the entry of `key` in `entity_op`: vacant, or occupied by an operation that takes on the next one
unfoldable pub next_op : {S : Scalars} → Option (EntityOp S) → EntityOp S → EntityOp S
next_op none op = op
next_op (some old) op = accumulate old op

unfoldable pub accumulate_at : {S : Scalars} → EntityKey → EntityOp S → Updates S → Updates S
accumulate_at key op m =
    HashMap.insert key_discrete key (next_op (HashMap.get key_discrete key m) op) m

-- `op.apply_to(entity)` for the operation of a map, if it has one.
unfoldable pub apply_update :
    {S : Scalars} → Option (EntityOp S) → Option (Entity S) → Option (Entity S)
apply_update none entity = entity
apply_update (some op) entity = apply_to op entity

module _ (E : Env) where
  unfoldable pub with_current : EntityLfu E → EntityCache E
  with_current current = record {
    current = current;
    updates = HashMap.new key_discrete;
    handler_updates = HashMap.new key_discrete;
    in_handler = false;
    data_sources = [];
  }

  unfoldable pub new : EntityCache E
  new = with_current (Lfu.new (types E) E.queue)

  unfoldable pub enter_handler : EntityCache E → Outcome (EntityCache E)
  enter_handler c = assert (not c.in_handler) >> done (record c { in_handler = true })

  unfoldable pub entity_op : EntityKey → EntityOp E.scalars → EntityCache E → EntityCache E
  entity_op key op c =
      if c.in_handler
      then record c { handler_updates = accumulate_at key op c.handler_updates }
      else record c { updates = accumulate_at key op c.updates }

  -- The operations of the handler go to the main updates, in the order of the map.
  unfoldable pub exit_handler : EntityCache E → Outcome (EntityCache E)
  exit_handler c =
      assert c.in_handler
      >> done (
          for_each entity_op c.handler_updates.entries
            (record c { in_handler = false; handler_updates = HashMap.new key_discrete }))

  unfoldable pub exit_handler_and_discard_changes : EntityCache E → Outcome (EntityCache E)
  exit_handler_and_discard_changes c =
      assert c.in_handler
      >> done (record c { in_handler = false; handler_updates = HashMap.new key_discrete })

  -- `get_entity` where the cache has no entry for the key: what the store has goes into the cache,
  -- without the attribute `__typename`.
  unfoldable pub load_entity :
      EntityKey → EntityLfu E → Outcome (EntityLfu E × Option (Entity E.scalars))
  load_entity key current = do
    stored ← E.store.get key
    let entity = map_option (Entity.remove "__typename") stored
    current' ← Lfu.insert (types E) E.queue key entity current
    done (current', entity)

  unfoldable pub found_entity :
      EntityKey
      → EntityLfu E
      → Option (Option (Entity E.scalars))
      → Outcome (EntityLfu E × Option (Entity E.scalars))
  found_entity key current none = load_entity key current
  found_entity key current (some entity) = done (current, entity)

  unfoldable pub get_entity :
      EntityKey → EntityLfu E → Outcome (EntityLfu E × Option (Entity E.scalars))
  get_entity key current =
      let (current', found) = Lfu.get (types E) E.queue key current in
      found_entity key current' found

  unfoldable pub get :
      EntityKey → EntityCache E → Outcome (EntityCache E × Option (Entity E.scalars))
  get key c = do
    (current, entity) ← get_entity key c.current
    let entity' = apply_update (HashMap.get key_discrete key c.updates) entity
    done (
      record c { current = current },
      apply_update (HashMap.get key_discrete key c.handler_updates) entity',
    )

  unfoldable pub remove : EntityKey → EntityCache E → EntityCache E
  remove key = entity_op key EntityOp.remove

  unfoldable pub set : EntityKey → Entity E.scalars → EntityCache E → EntityCache E
  set key entity = entity_op key (EntityOp.update entity)

  unfoldable pub append_operation : EntityOperation E.scalars → EntityCache E → EntityCache E
  append_operation (EntityOperation.set key data') c = entity_op key (EntityOp.update data') c
  append_operation (EntityOperation.remove key) c = entity_op key EntityOp.remove c

  unfoldable pub append_all : List (EntityOperation E.scalars) → EntityCache E → EntityCache E
  append_all [] c = c
  append_all (operation ∷ rest) c = append_all rest (append_operation operation c)

  unfoldable pub append : List (EntityOperation E.scalars) → EntityCache E → Outcome (EntityCache E)
  append operations c = assert (not c.in_handler) >> done (append_all operations c)

  -- `data_source` is `as_stored_dynamic_data_source()` of the one that is added.
  unfoldable pub add_data_source : E.StoredDataSource → EntityCache E → EntityCache E
  add_data_source data_source c = record c { data_sources = c.data_sources ++ data_source ∷ [] }

  unfoldable pub extend : EntityCache E → EntityCache E → Outcome (EntityCache E)
  extend c other =
      assert (not other.in_handler)
      >> done (
          for_each entity_op other.updates.entries
            (record c { current = Lfu.extend (types E) E.queue c.current other.current }))
