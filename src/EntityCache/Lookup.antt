-- ===== src/EntityCache/Lookup.antt =====
-- What `EntityCache::get` returns.
use test_ci_for_massbitproto.Prelude.{
  String, Option, none, some, map_option, ite, ◌≡◌, ap, ◌∙◌, arith, Option-cases, inl, inr,
}
use test_ci_for_massbitproto.Prelude.Outcome.{Outcome, done, failed, ◌>>=◌}
use test_ci_for_massbitproto.Data.Entity
use test_ci_for_massbitproto.Data.Entity.{Entity}
use test_ci_for_massbitproto.LfuCache.Ops as Lfu
use test_ci_for_massbitproto.LfuCache.Access.{find}
use test_ci_for_massbitproto.LfuCache.Invariant.{IsValid, insert_lem, get_lem}
use test_ci_for_massbitproto.EntityCache.State.{
  EntityKey, key_discrete, Env, types, EntityLfu, EntityCache,
}
use test_ci_for_massbitproto.EntityCache.Ops.{get, load_entity, found_entity, get_entity}
use test_ci_for_massbitproto.EntityCache.Handler.{shown}

module _ (E : Env) where
  abbrev pub cached : EntityKey → EntityLfu E → Option (Option (Entity E.scalars))
  cached key current = find (types E) E.queue key current

  abbrev pub IsValidLfu : EntityLfu E → Type 0
  IsValidLfu = IsValid (types E) E.queue

  -- The entity in the store, as the cache reads it: from its own entry, or from the store, without
  -- the attribute `__typename`.
  abbrev pub read : EntityKey → EntityLfu E → Outcome (Option (Entity E.scalars))
  read key current = elim (cached key current) [
    | none ↦ E.store.get key >>= λ stored. done (map_option (Entity.remove "__typename") stored)
    | some entity ↦ done entity
  ]

  -- What the lookup of an entity leaves: the entity in the cache, and every other entry.
  abbrev pub Loaded : EntityKey → Option (Entity E.scalars) → EntityLfu E → EntityLfu E → Type 0
  Loaded key entity current current' =
      IsValidLfu current'
      × ((j : EntityKey)
          → cached j current' ≡ ite (key_discrete key j) (some entity) (cached j current))

  get_entity_lem :
      (key : EntityKey) (current : EntityLfu E) (entity : Option (Entity E.scalars))
      → IsValidLfu current
      → read key current ≡ done entity
      → (current' : EntityLfu E) × (get_entity E key current ≡ done (current', entity))
        × Loaded key entity current current'
  unfolding get_entity load_entity found_entity
  get_entity_lem key current entity valid h =
      let (value, valid', same) = get_lem (types E) E.queue key current valid in
      let current' = (Lfu.get (types E) E.queue key current).0 in
      elim (Option-cases (cached key current)) [
        | inl n ↦
            let (current₂, e, valid₂, all) =
              insert_lem (types E) E.queue key entity current' valid' in
            (
              current₂,
              ground (arith, e, value),
              (valid₂, λ j. all j ∙ ap (ite (key_discrete key j) (some entity)) (same j)),
            )
        | inr (e, p) ↦ (
          current',
          ground (arith, value),
          (
            valid',
            λ j. elim (key_discrete key j) [
              | yes k ↦ ground (arith, same j, ap (λ i. cached i current) k)
              | no k ↦ ground (arith, same j)
            ],
          ),
        )
      ]

  -- `get` with a valid LFU cache returns the entity that the cache shows over the one in the store,
  -- whenever that can be read. The store is read where the cache has no entry, and its answer is
  -- cached without the attribute `__typename`; nothing else changes.
  pub get_shown :
      (key : EntityKey) (c : EntityCache E) (entity : Option (Entity E.scalars))
      → IsValidLfu c.current
      → read key c.current ≡ done entity
      → (current' : EntityLfu E) × (get E key c
          ≡ done (record c { current = current' }, shown key c entity))
        × Loaded key entity c.current current'
  unfolding get
  get_shown key c entity valid h =
      let (current', e, loaded) = get_entity_lem key c.current entity valid h in
      (current', rw e, loaded)

  -- An error of the store is the error of `get`, where the cache has no entry.
  pub get_failed :
      (key : EntityKey) (c : EntityCache E) (err : String)
      → IsValidLfu c.current
      → cached key c.current ≡ none
      → E.store.get key ≡ failed err
      → get E key c ≡ failed err
  unfolding get get_entity load_entity found_entity
  get_failed key c err valid n h = ground (arith, (get_lem (types E) E.queue key c.current valid).0)
