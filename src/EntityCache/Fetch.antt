-- ===== src/EntityCache/Fetch.antt =====
-- The entities that `as_modifications` reads from the store go into the cache.
use test_ci_for_massbitproto.Prelude.{
  String, true, is_some, none, some, List, ◌≡◌, ap, arith, ◌⊎◌, inr, All,
}
use test_ci_for_massbitproto.Prelude.Any.{Any}
use test_ci_for_massbitproto.Prelude.Outcome.{done}
use test_ci_for_massbitproto.Data.Entity
use test_ci_for_massbitproto.Data.Entity.{Entity, IdResult}
use test_ci_for_massbitproto.LfuCache.Ops as Lfu
use test_ci_for_massbitproto.LfuCache.Invariant.{insert_lem}
use test_ci_for_massbitproto.EntityCache.State.{EntityKey, key_discrete, Env, types, EntityLfu}
use test_ci_for_massbitproto.EntityCache.Modifications.{IdsByType}
use test_ci_for_massbitproto.EntityCache.Lookup.{cached, IsValidLfu}
use test_ci_for_massbitproto.EntityCache.Decide.{Content}
use test_ci_for_massbitproto.EntityCache.Grouping.{IsAsked}

abbrev pub key_of : String → String → String → EntityKey
key_of indexer entity_type entity_id = record {
  indexer_id = indexer;
  entity_type = entity_type;
  entity_id = entity_id;
}

module _ (E : Env) where
  abbrev pub Found : Type 0
  Found = List (String × List (Entity E.scalars))

  -- The store of the indexer holds `content`: each entity has the id of its key, and `get_many`
  -- answers with entities of the store, and with all of those that it is asked for.
  pub record Serves (indexer : String) (content : Content E.scalars) : Type 0 where
    pub keyed :
        (entity_type entity_id : String) (e : Entity E.scalars)
        → content (key_of indexer entity_type entity_id) ≡ some e
        → Entity.id e ≡ IdResult.ok entity_id
    pub answers :
        (ids : IdsByType)
        → (found : Found) × (E.store.get_many ids ≡ done found)
          × All
              (λ t.
                All
                  (λ e.
                    (i : String) × (Entity.id e ≡ IdResult.ok i)
                    × (content (key_of indexer t.0 i) ≡ some e))
                  t.1)
              found
          × ((entity_type entity_id : String) (e : Entity E.scalars)
              → IsAsked entity_type entity_id ids
              → content (key_of indexer entity_type entity_id) ≡ some e
              → Any (λ t. (t.0 ≡ entity_type) × Any (λ d. d ≡ e) t.1) found)

  -- The cache has no entry for a key, or has what the store holds.
  abbrev pub IsFaithful : Content E.scalars → EntityLfu E → Type 0
  IsFaithful content current =
      (key : EntityKey)
      → (cached E key current ≡ none) ⊎ (cached E key current ≡ some (content key))

  -- From one cache to a later one: entries stay, and the later one is valid and faithful too.
  pub record Grows (content : Content E.scalars) (before current : EntityLfu E) : Type 0 where
    pub valid : IsValidLfu E current
    pub faithful : IsFaithful content current
    pub stays :
        (key : EntityKey)
        → is_some (cached E key before) ≡ true
        → is_some (cached E key current) ≡ true

  pub Grows-trans :
      (content : Content E.scalars) (a b c : EntityLfu E)
      → Grows content a b
      → Grows content b c
      → Grows content a c
  Grows-trans content a b c g h = record {
    valid = h.valid;
    faithful = h.faithful;
    stays = λ key p. h.stays key (g.stays key p);
  }

  pub insert_lem-Grows :
      (content : Content E.scalars) (key : EntityKey) (e : Entity E.scalars) (current : EntityLfu E)
      → IsValidLfu E current
      → IsFaithful content current
      → content key ≡ some e
      → (current' : EntityLfu E) × (Lfu.insert (types E) E.queue key (some e) current
          ≡ done current')
        × Grows content current current'
        × (is_some (cached E key current') ≡ true)
  insert_lem-Grows content key e current valid faithful h =
      let (current', eq, valid', all) = insert_lem (types E) E.queue key (some e) current valid in
      (
        current',
        eq,
        record {
          valid = valid';
          faithful = λ j. elim (key_discrete key j) [
            | yes same ↦ inr (ground (arith, all j, ap content same))
            | no other ↦ ground (arith, all j, faithful j)
          ];
          stays = λ j p. ground (arith, all j);
        },
        ground (arith, all key),
      )
