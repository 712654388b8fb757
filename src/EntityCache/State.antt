-- ===== src/EntityCache/State.antt =====
-- The types of massbit/src/components/store.rs that the entity cache works on, and its state.
use test_ci_for_massbitproto.Prelude.{
  ℕ, String, Bool, true, false, Option, none, List, text_discrete,
}
use test_ci_for_massbitproto.Prelude.HashMap.{HashMap}
use test_ci_for_massbitproto.Prelude.Outcome.{Outcome}
use test_ci_for_massbitproto.Data.Value.{Scalars}
use test_ci_for_massbitproto.Data.Entity.{Entity}
use test_ci_for_massbitproto.LfuCache.Types.{CacheTypes, CacheQueue, LfuCache}
use test_ci_for_massbitproto.EntityCache.Op.{EntityOp}

-- `DeploymentHash` and `EntityType` are wrappers of a text.
pub record EntityKey : Type 0 where
  pub indexer_id : String
  pub entity_type : String
  pub entity_id : String

unfoldable pub key_discrete : Discrete EntityKey
key_discrete = hlevel text_discrete

pub data EntityModification (S : Scalars) : Type 0 where
  insert : EntityKey → Entity S → EntityModification S
  overwrite : EntityKey → Entity S → EntityModification S
  remove : EntityKey → EntityModification S

unfoldable pub entity_key : {S : Scalars} → EntityModification S → EntityKey
entity_key (insert key data') = key
entity_key (overwrite key data') = key
entity_key (remove key) = key

unfoldable pub is_remove : {S : Scalars} → EntityModification S → Bool
is_remove (remove key) = true
is_remove m = false

pub data EntityOperation (S : Scalars) : Type 0 where
  set : EntityKey → Entity S → EntityOperation S
  remove : EntityKey → EntityOperation S

-- The two reads of the trait `WritableStore` that the cache calls.
pub record WritableStore (S : Scalars) : Type 0 where
  pub get : EntityKey → Outcome (Option (Entity S))
  -- from the ids for each entity type, to the entities for each entity type
  pub get_many : List (String × List String) → Outcome (List (String × List (Entity S)))

abbrev pub entity_types : (S : Scalars) → (EntityKey → ℕ) → (Option (Entity S) → ℕ) → ℕ → CacheTypes
entity_types S key_weight value_weight entry_size = record {
  Key = EntityKey;
  Val = Option (Entity S);
  dec = key_discrete;
  default = none;
  key_weight = key_weight;
  value_weight = value_weight;
  entry_size = entry_size;
}

-- What the cache stands on: the scalars, the weights of `CacheWeight`, the priority queue of the LFU
-- cache, the store, and the stored form of a dynamic data source.
pub record Env : Type 1 where
  pub scalars : Scalars
  pub key_weight : EntityKey → ℕ
  pub value_weight : Option (Entity scalars) → ℕ
  pub entry_size : ℕ
  pub queue : CacheQueue (entity_types scalars key_weight value_weight entry_size)
  pub store : WritableStore scalars
  pub StoredDataSource : Type 0

abbrev pub types : Env → CacheTypes
types E = entity_types E.scalars E.key_weight E.value_weight E.entry_size

abbrev pub Updates : Scalars → Type 0
Updates S = HashMap key_discrete (EntityOp S)

abbrev pub EntityLfu : Env → Type 0
EntityLfu E = LfuCache (types E) E.queue

pub record EntityCache (E : Env) : Type 0 where
  pub current : EntityLfu E
  pub updates : Updates E.scalars
  pub handler_updates : Updates E.scalars
  pub in_handler : Bool
  pub data_sources : List E.StoredDataSource
