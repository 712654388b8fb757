-- ===== src/Indexer/Manager.antt =====
-- `process_block` of manager/src/indexer/instance_manager.rs, with what it calls.
pub mod Triggers
pub mod Sources
pub mod Recorded
pub mod Kept
pub mod Loop
pub mod Blocks
pub mod Nesting
pub mod Rounds
pub mod Termination
use test_ci_for_massbitproto.Prelude.{
  ℕ, zero, suc, Bool, true, false, String, Option, none, some, List, [], ◌∷◌, if◌then◌else◌,
}
use test_ci_for_massbitproto.Prelude.Outcome as Outcome
use test_ci_for_massbitproto.Prelude.Outcome.{Outcome, assert}
use test_ci_for_massbitproto.LfuCache.Ops as Lfu
use test_ci_for_massbitproto.EntityCache.State.{EntityModification, types, EntityLfu, EntityCache}
use test_ci_for_massbitproto.EntityCache.Ops as Cache
use test_ci_for_massbitproto.EntityCache.Modifications.{as_modifications, ModificationsAndCache}
use test_ci_for_massbitproto.Indexer.BlockState.{
  Chain, BlockState, has_created_data_sources, drain_created_data_sources,
}
use test_ci_for_massbitproto.Indexer.BlockState as State
use test_ci_for_massbitproto.Indexer.Runtime.{
  Runtime, MappingError, Run, ok, err, panicked, unfinished, ◌>>=◌, map_err, of_outcome,
}
use test_ci_for_massbitproto.Indexer.Instance.{IndexerInstance}
use test_ci_for_massbitproto.Indexer.Manager.Triggers.{
  process_triggers, process_trigger_in_runtime_hosts,
}
use test_ci_for_massbitproto.Indexer.Manager.Sources.{create_dynamic_data_sources}

pub data BlockProcessingError (C : Chain) : Type 0 where
  unknown : String → BlockProcessingError C
  deterministic : C.IndexerError → BlockProcessingError C
  canceled : BlockProcessingError C

-- `MappingError::PossibleReorg(e) | MappingError::Unknown(e) => BlockProcessingError::Unknown(e)`
unfoldable pub as_unknown : {C : Chain} → MappingError → BlockProcessingError C
as_unknown (MappingError.possible_reorg e) = BlockProcessingError.unknown e
as_unknown (MappingError.unknown e) = BlockProcessingError.unknown e

module _ {C : Chain} (R : Runtime C) where
  -- the state in an `IndexingContext`, whose inputs do not change
  pub record IndexingState : Type 0 where
    pub instance : IndexerInstance R
    pub filter : R.TriggerFilter
    pub entity_lfu_cache : EntityLfu C.env

  -- what `transact_block_operations` is given
  pub record Transaction : Type 0 where
    pub block_ptr : R.BlockPtr
    pub mods : List (EntityModification C.env.scalars)
    pub data_sources : List C.env.StoredDataSource

  -- the context and the flag that `process_block` returns, with what it wrote to the store
  pub record Processed : Type 0 where
    pub state : IndexingState
    pub needs_restart : Bool
    pub written : Option Transaction

  unfoldable pub add_data_sources : List R.DataSource → EntityCache C.env → EntityCache C.env
  add_data_sources [] cache = cache
  add_data_sources (ds ∷ data_sources) cache =
      add_data_sources data_sources
        (Cache.add_data_source C.env (R.as_stored_dynamic_data_source ds) cache)

  unfoldable pub persist_dynamic_data_sources :
      List R.DataSource → IndexingState × BlockState C → IndexingState × BlockState C
  persist_dynamic_data_sources data_sources (ctx, s) = (
    record ctx { filter = R.extend data_sources ctx.filter },
    record s { entity_cache = add_data_sources data_sources s.entity_cache },
  )

  -- `for trigger in triggers`, in the hosts of the new data sources
  unfoldable pub process_in_new_hosts :
      List R.Host
      → R.Block
      → List R.TriggerData
      → BlockState C
      → Run (BlockProcessingError C) (BlockState C)
  process_in_new_hosts runtime_hosts block [] s = ok s
  process_in_new_hosts runtime_hosts block (trigger ∷ triggers) s =
      map_err as_unknown (process_trigger_in_runtime_hosts R runtime_hosts block trigger s)
      >>= process_in_new_hosts runtime_hosts block triggers

  -- the body of `while block_state.has_created_data_sources()`
  unfoldable pub process_created :
      R.Block
      → IndexingState × BlockState C
      → Run (BlockProcessingError C) (IndexingState × BlockState C)
  process_created block (ctx, s) = do
    (s₁, created) ← of_outcome BlockProcessingError.unknown (drain_created_data_sources C s)
    (instance', data_sources, runtime_hosts) ←
        of_outcome BlockProcessingError.unknown (create_dynamic_data_sources R created ctx.instance)
    triggers ←
        of_outcome BlockProcessingError.unknown
          (R.triggers_in_block block (R.from_data_sources data_sources))
    let (ctx', s₂) =
        persist_dynamic_data_sources data_sources (record ctx { instance = instance' }, s₁)
    s₃ ← process_in_new_hosts runtime_hosts block triggers s₂
    ok (ctx', s₃)

  -- the loop, which ends where no data source was created
  unfoldable pub process_all_created :
      ℕ
      → R.Block
      → IndexingState × BlockState C
      → Run (BlockProcessingError C) (IndexingState × BlockState C)
  process_all_created zero block (ctx, s) = do
    created ← of_outcome BlockProcessingError.unknown (has_created_data_sources C s)
    if created then unfinished else ok (ctx, s)
  process_all_created (suc fuel) block (ctx, s) = do
    created ← of_outcome BlockProcessingError.unknown (has_created_data_sources C s)
    elim created [
      | true ↦ process_created block (ctx, s) >>= process_all_created fuel block
      | false ↦ ok (ctx, s)
    ]

  -- what follows the loop, with what `is_canceled` says at that time
  module _ (entity_cache_size : ℕ)
      (transact_block_operations : Transaction → Outcome (Unit {0})) where
    unfoldable pub write_block :
        R.Block → Bool → IndexingState × BlockState C → Run (BlockProcessingError C) Processed
    write_block block needs_restart (ctx, s) = do
      r ← of_outcome BlockProcessingError.unknown (as_modifications C.env s.entity_cache)
      (cache, stats) ←
          of_outcome BlockProcessingError.unknown
            (Lfu.evict (types C.env) C.env.queue entity_cache_size r.entity_lfu_cache)
      u ←
          of_outcome BlockProcessingError.unknown
            (assert (Lfu.is_empty (types C.env) C.env.queue ctx.entity_lfu_cache))
      let transaction : Transaction = record {
        block_ptr = R.ptr block;
        mods = r.modifications;
        data_sources = r.data_sources;
      }
      v ←
          of_outcome
            (λ e.
              BlockProcessingError.unknown "Error while processing block stream for a indexer: {}")
            (transact_block_operations transaction)
      ok (record {
        state = record ctx { entity_lfu_cache = cache };
        needs_restart = needs_restart;
        written = some transaction;
      })

    unfoldable pub finish_block :
        Bool
        → R.Block
        → Bool
        → IndexingState × BlockState C
        → Run (BlockProcessingError C) Processed
    finish_block is_canceled block needs_restart (ctx, s) = elim s.deterministic_errors [
      | e ∷ es ↦ err (BlockProcessingError.deterministic e)
      | [] ↦
          if is_canceled
          then err BlockProcessingError.canceled
          else write_block block needs_restart (ctx, s)
    ]

    -- `process_block` once the triggers of the block have been processed
    unfoldable pub after_triggers :
        ℕ
        → Bool
        → R.Block
        → IndexingState
        → Run MappingError (BlockState C)
        → Run (BlockProcessingError C) Processed
    after_triggers fuel is_canceled block ctx (ok s) = do
      needs_restart ← of_outcome BlockProcessingError.unknown (has_created_data_sources C s)
      process_all_created fuel block (ctx, s) >>= finish_block is_canceled block needs_restart
    after_triggers fuel is_canceled block ctx (err (MappingError.unknown e)) =
        err (BlockProcessingError.unknown e)
    after_triggers fuel is_canceled block ctx (err (MappingError.possible_reorg e)) =
        ok (record { state = ctx; needs_restart = true; written = none })
    after_triggers fuel is_canceled block ctx panicked = panicked
    after_triggers fuel is_canceled block ctx unfinished = unfinished

    unfoldable pub process_block :
        ℕ
        → Bool
        → R.Block
        → List R.TriggerData
        → IndexingState
        → Run (BlockProcessingError C) Processed
    process_block fuel is_canceled block triggers ctx =
        after_triggers fuel is_canceled block
          (record ctx { entity_lfu_cache = Lfu.new (types C.env) C.env.queue })
          (process_triggers R ctx.instance block triggers (State.new C ctx.entity_lfu_cache))
