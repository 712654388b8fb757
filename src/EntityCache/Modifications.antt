-- ===== src/EntityCache/Modifications.antt =====
-- `EntityCache::as_modifications`: what is missing is read from the store, then each update becomes a
-- modification where the entity changes.
use test_ci_for_massbitproto.Prelude.{
  String, Bool, not, Option, none, some, List, [], ◌∷◌, ◌++◌, join_option, ite, if◌then◌else◌,
  text_discrete,
}
use test_ci_for_massbitproto.Prelude.HashMap
use test_ci_for_massbitproto.Prelude.HashMap.Equality
use test_ci_for_massbitproto.Prelude.Text.{text_le}
use test_ci_for_massbitproto.Prelude.Outcome.{Outcome, done, panic, ◌>>=◌, ◌>>◌, assert}
use test_ci_for_massbitproto.Data.Value.{value_discrete}
use test_ci_for_massbitproto.Data.Entity
use test_ci_for_massbitproto.Data.Entity.{Entity, IdResult, merge_remove_null_fields}
use test_ci_for_massbitproto.LfuCache.Ops as Lfu
use test_ci_for_massbitproto.EntityCache.Op.{EntityOp}
use test_ci_for_massbitproto.EntityCache.State.{
  EntityKey, key_discrete, EntityModification, Env, types, EntityLfu, EntityCache,
}

-- `entry(key).or_default()` of a `BTreeMap`, and a change of that entry: the list is sorted by key.
unfoldable pub btree_entry {ℓ} :
    {V : Type ℓ} → V → String → (V → V) → List (String × V) → List (String × V)
btree_entry default key change [] = (key, change default) ∷ []
btree_entry default key change ((k, v) ∷ m) = ite (text_discrete k key) ((k, change v) ∷ m) (
    let rest = btree_entry default key change m in
    if text_le key k then (key, change default) ∷ (k, v) ∷ m else (k, v) ∷ rest)

abbrev pub IdsByType : Type 0
IdsByType = List (String × List String)

-- The body of the loop over the missing keys.
unfoldable pub add_missing : EntityKey → List (String × IdsByType) → List (String × IdsByType)
add_missing key =
    btree_entry [] key.indexer_id
      (btree_entry [] key.entity_type (λ ids. ids ++ key.entity_id ∷ []))

unfoldable pub group_missing :
    List EntityKey → List (String × IdsByType) → List (String × IdsByType)
group_missing [] m = m
group_missing (key ∷ keys) m = group_missing keys (add_missing key m)

-- `if let Some(modification) = modification { mods.push(modification) }`, for the ones that follow
unfoldable pub push_some {ℓ} : {A : Type ℓ} → Option A → List A → List A
push_some none l = l
push_some (some a) l = a ∷ l

module _ (E : Env) where
  unfoldable pub missing_keys : List EntityKey → EntityLfu E → List EntityKey
  missing_keys [] current = []
  missing_keys (key ∷ keys) current =
      let rest = missing_keys keys current in
      if Lfu.contains_key (types E) E.queue key current then rest else key ∷ rest

  -- `entity.id().unwrap()`, and the insertion
  unfoldable pub insert_entity :
      String → String → Entity E.scalars → EntityLfu E → IdResult → Outcome (EntityLfu E)
  insert_entity indexer entity_type entity current (IdResult.ok id) =
      Lfu.insert (types E) E.queue
        (record { indexer_id = indexer; entity_type = entity_type; entity_id = id }) (some entity)
        current
  insert_entity indexer entity_type entity current (IdResult.err e) = panic

  unfoldable pub insert_entities :
      String → String → List (Entity E.scalars) → EntityLfu E → Outcome (EntityLfu E)
  insert_entities indexer entity_type [] current = done current
  insert_entities indexer entity_type (entity ∷ rest) current = do
    current' ← insert_entity indexer entity_type entity current (Entity.id entity)
    insert_entities indexer entity_type rest current'

  unfoldable pub insert_types :
      String → List (String × List (Entity E.scalars)) → EntityLfu E → Outcome (EntityLfu E)
  insert_types indexer [] current = done current
  insert_types indexer ((entity_type, entities) ∷ rest) current = do
    current' ← insert_entities indexer entity_type entities current
    insert_types indexer rest current'

  unfoldable pub fetch : List (String × IdsByType) → EntityLfu E → Outcome (EntityLfu E)
  fetch [] current = done current
  fetch ((indexer, keys) ∷ rest) current = do
    found ← E.store.get_many keys
    current' ← insert_types indexer found current
    fetch rest current'

  -- The first step: all entities that are set are in `current`, if the store has them.
  unfoldable pub fetch_missing : EntityCache E → Outcome (EntityLfu E)
  unfolding group_missing missing_keys insert_entity insert_entities insert_types fetch
  fetch_missing c =
      fetch (group_missing (missing_keys (HashMap.keys key_discrete c.updates) c.current) [])
        c.current

  -- `current != data`
  unfoldable pub changed : Entity E.scalars → Entity E.scalars → Bool
  changed current data' = not (Equality.eq text_discrete (value_discrete E.scalars) current data')

  -- What goes back into the cache, and the modification.
  abbrev pub Decision : Type 0
  Decision = Option (Option (Entity E.scalars)) × Option (EntityModification E.scalars)

  unfoldable pub overwrite_if_changed : EntityKey → Entity E.scalars → Entity E.scalars → Decision
  overwrite_if_changed key current data' = (
    some (some data'),
    if changed current data' then some (EntityModification.overwrite key data') else none,
  )

  unfoldable pub decide : EntityKey → Option (Entity E.scalars) → EntityOp E.scalars → Decision
  unfolding overwrite_if_changed changed
  decide key none EntityOp.remove = (none, none)
  decide key none (EntityOp.update updates) =
      let data' = merge_remove_null_fields Entity.new updates in
      (some (some data'), some (EntityModification.insert key data'))
  decide key none (EntityOp.overwrite updates) =
      let data' = merge_remove_null_fields Entity.new updates in
      (some (some data'), some (EntityModification.insert key data'))
  decide key (some current) (EntityOp.update updates) =
      overwrite_if_changed key current (merge_remove_null_fields current updates)
  decide key (some current) (EntityOp.overwrite data') = overwrite_if_changed key current data'
  decide key (some current) EntityOp.remove = (some none, some (EntityModification.remove key))

  unfoldable pub put_back :
      EntityKey → Option (Option (Entity E.scalars)) → EntityLfu E → Outcome (EntityLfu E)
  put_back key none current = done current
  put_back key (some entity) current = Lfu.insert (types E) E.queue key entity current

  -- `for (key, update) in self.updates`
  unfoldable pub modify_all :
      List (EntityKey × EntityOp E.scalars)
      → EntityLfu E
      → Outcome (EntityLfu E × List (EntityModification E.scalars))
  modify_all [] current = done (current, [])
  modify_all ((key, op) ∷ rest) current = do
    (current₁, cached) ← Lfu.remove (types E) E.queue key current
    let decision = decide key (join_option cached) op
    current₂ ← put_back key decision.0 current₁
    (current₃, mods) ← modify_all rest current₂
    done (current₃, push_some decision.1 mods)

  pub record ModificationsAndCache : Type 0 where
    pub modifications : List (EntityModification E.scalars)
    pub data_sources : List E.StoredDataSource
    pub entity_lfu_cache : EntityLfu E

  unfoldable pub as_modifications : EntityCache E → Outcome ModificationsAndCache
  as_modifications c = do
    assert (not c.in_handler)
    current ← fetch_missing c
    (current', mods) ← modify_all c.updates.entries current
    let result : ModificationsAndCache = record {
      modifications = mods;
      data_sources = c.data_sources;
      entity_lfu_cache = current';
    }
    done result
