-- ===== src/Indexer/Manager/Triggers.antt =====
-- The triggers of a block in the hosts of an indexer: manager/src/indexer/instance.rs and
-- `process_triggers` of manager/src/indexer/instance_manager.rs.
use test_ci_for_massbitproto.Prelude.{String, Option, none, some, List, [], ◌∷◌}
use test_ci_for_massbitproto.Indexer.BlockState.{Chain, BlockState}
use test_ci_for_massbitproto.Indexer.Runtime.{
  Runtime, MappingError, Run, ok, ◌>>=◌, map_err, of_outcome,
}
use test_ci_for_massbitproto.Indexer.Instance.{IndexerInstance}
use test_ci_for_massbitproto.Prelude.{text_discrete}

module _ {C : Chain} (R : Runtime C) where
  -- `MappingError::context`
  unfoldable pub context : String → MappingError → MappingError
  context s (MappingError.possible_reorg e) = MappingError.possible_reorg (R.context s e)
  context s (MappingError.unknown e) = MappingError.unknown (R.context s e)

  -- a trigger that does not match is not processed
  unfoldable pub process_decoded :
      R.Host → R.Block → Option R.MappingTrigger → BlockState C → Run MappingError (BlockState C)
  process_decoded host block none s = ok s
  process_decoded host block (some mapping_trigger) s =
      R.process_mapping_trigger host (R.ptr block) mapping_trigger s

  unfoldable pub process_trigger_in_runtime_hosts :
      List R.Host → R.Block → R.TriggerData → BlockState C → Run MappingError (BlockState C)
  process_trigger_in_runtime_hosts [] block trigger s = ok s
  process_trigger_in_runtime_hosts (host ∷ hosts) block trigger s = do
    decoded ← of_outcome MappingError.unknown (R.match_and_decode host trigger block)
    s' ← process_decoded host block decoded s
    process_trigger_in_runtime_hosts hosts block trigger s'

  unfoldable pub process_trigger :
      IndexerInstance R → R.Block → R.TriggerData → BlockState C → Run MappingError (BlockState C)
  process_trigger this block trigger s = process_trigger_in_runtime_hosts this.hosts block trigger s

  -- the error with the context of its trigger
  unfoldable pub explain : R.TriggerData → MappingError → MappingError
  explain trigger e =
      context "failed to process trigger" (elim (text_discrete (R.error_context trigger) "") [
        | yes _ ↦ e
        | no _ ↦ context (R.error_context trigger) e
      ])

  unfoldable pub process_triggers :
      IndexerInstance R
      → R.Block
      → List R.TriggerData
      → BlockState C
      → Run MappingError (BlockState C)
  process_triggers instance' block [] s = ok s
  process_triggers instance' block (trigger ∷ triggers) s = do
    s' ← map_err (explain trigger) (process_trigger instance' block trigger s)
    process_triggers instance' block triggers s'
