-- ===== src/Indexer/BlockState.antt =====
-- `BlockState` of massbit/src/components/indexer/instance.rs: the entity cache, the errors of handlers
-- and the data sources that handlers create.
use test_ci_for_massbitproto.Prelude.{
  Bool, true, false, not, String, Option, List, [], ◌∷◌, ◌++◌, if◌then◌else◌,
}
use test_ci_for_massbitproto.Prelude.Int.{ℤ}
use test_ci_for_massbitproto.Prelude.Outcome.{Outcome, done, ◌>>=◌, ◌>>◌, assert}
use test_ci_for_massbitproto.Data.Entity.{Entity}
use test_ci_for_massbitproto.EntityCache.State.{Env, EntityLfu, EntityCache}
use test_ci_for_massbitproto.EntityCache.Ops as Cache

-- What a block state is made of: the entity cache's part, the data source templates of the chain, and
-- the errors of indexers.
pub record Chain : Type 1 where
  pub env : Env
  pub Template : Type 0
  pub IndexerError : Type 0

pub record DataSourceTemplateInfo (C : Chain) : Type 0 where
  pub template : C.Template
  pub params : List String
  pub context : Option (Entity C.env.scalars)
  pub creation_block : ℤ

pub record BlockState (C : Chain) : Type 0 where
  pub entity_cache : EntityCache C.env
  pub deterministic_errors : List C.IndexerError
  pub created_data_sources : List (DataSourceTemplateInfo C)
  -- the data sources created in the current handler
  pub handler_created_data_sources : List (DataSourceTemplateInfo C)
  pub in_handler : Bool

abbrev is_empty : {A : Type 0} → List A → Bool
is_empty [] = true
is_empty (x ∷ xs) = false

module _ (C : Chain) where
  unfoldable pub new : EntityLfu C.env → BlockState C
  new lfu_cache = record {
    entity_cache = Cache.with_current C.env lfu_cache;
    deterministic_errors = [];
    created_data_sources = [];
    handler_created_data_sources = [];
    in_handler = false;
  }

  unfoldable pub extend : BlockState C → BlockState C → Outcome (BlockState C)
  extend s other = do
    _ ← assert (not other.in_handler)
    let in_handler = s.in_handler
    let created = other.created_data_sources
    cache ← Cache.extend C.env s.entity_cache other.entity_cache
    done (record s {
      handler_created_data_sources =
          if in_handler
          then s.handler_created_data_sources ++ created
          else s.handler_created_data_sources;
      created_data_sources =
          if in_handler then s.created_data_sources else s.created_data_sources ++ created;
      deterministic_errors = s.deterministic_errors ++ other.deterministic_errors;
      entity_cache = cache;
    })

  unfoldable pub has_errors : BlockState C → Bool
  has_errors s = not (is_empty s.deterministic_errors)

  unfoldable pub has_created_data_sources : BlockState C → Outcome Bool
  has_created_data_sources s =
      assert (not s.in_handler) >> done (not (is_empty s.created_data_sources))

  unfoldable pub drain_created_data_sources :
      BlockState C → Outcome (BlockState C × List (DataSourceTemplateInfo C))
  drain_created_data_sources s =
      assert (not s.in_handler)
      >> done (record s { created_data_sources = [] }, s.created_data_sources)

  unfoldable pub enter_handler : BlockState C → Outcome (BlockState C)
  enter_handler s = do
    _ ← assert (not s.in_handler)
    cache ← Cache.enter_handler C.env s.entity_cache
    done (record s { in_handler = true; entity_cache = cache })

  unfoldable pub exit_handler : BlockState C → Outcome (BlockState C)
  exit_handler s = do
    _ ← assert s.in_handler
    cache ← Cache.exit_handler C.env s.entity_cache
    done (record s {
      in_handler = false;
      created_data_sources = s.created_data_sources ++ s.handler_created_data_sources;
      handler_created_data_sources = [];
      entity_cache = cache;
    })

  unfoldable pub exit_handler_and_discard_changes_due_to_error :
      C.IndexerError → BlockState C → Outcome (BlockState C)
  exit_handler_and_discard_changes_due_to_error e s = do
    _ ← assert s.in_handler
    cache ← Cache.exit_handler_and_discard_changes C.env s.entity_cache
    done (record s {
      in_handler = false;
      handler_created_data_sources = [];
      entity_cache = cache;
      deterministic_errors = s.deterministic_errors ++ e ∷ [];
    })

  unfoldable pub push_created_data_source :
      DataSourceTemplateInfo C → BlockState C → Outcome (BlockState C)
  push_created_data_source ds s =
      assert s.in_handler
      >> done
          (record s { handler_created_data_sources = s.handler_created_data_sources ++ ds ∷ [] })
