-- ===== src/Tests/Blocks.antt =====
-- A block state over the entity cache of a user, and its handlers at that state.
use test_ci_for_massbitproto.Prelude.{false, String, Option, none, List, [], ◌∷◌, ◌++◌, ◌≡◌, refl}
use test_ci_for_massbitproto.Prelude.Int.{pos}
use test_ci_for_massbitproto.Prelude.HashMap
use test_ci_for_massbitproto.Prelude.Outcome.{done}
use test_ci_for_massbitproto.Data.Entity.{Entity}
use test_ci_for_massbitproto.EntityCache.Op.{EntityOp}
use test_ci_for_massbitproto.EntityCache.Op.View.{SameView}
use test_ci_for_massbitproto.EntityCache.State.{EntityKey, key_discrete}
use test_ci_for_massbitproto.EntityCache.Handler.{shown}
use test_ci_for_massbitproto.Indexer.BlockState.{Chain, DataSourceTemplateInfo, BlockState}
use test_ci_for_massbitproto.Indexer.Handlers.{
  Action, IsReady, created, applied, good_handler, failing_handler, good_handler_lem,
  failing_handler_lem,
}
use test_ci_for_massbitproto.Tests.Entities.{S, E, user, u1, renamed}

abbrev pub C : Chain
C = record { env = E; Template = String; IndexerError = String }

abbrev pub pair_template : DataSourceTemplateInfo C
pair_template = record {
  template = "Pair";
  params = "0x01" ∷ [];
  context = none;
  creation_block = pos 7;
}

abbrev s : BlockState C
s = record {
  entity_cache = renamed;
  deterministic_errors = [];
  created_data_sources = [];
  handler_created_data_sources = [];
  in_handler = false;
}

abbrev actions : List (Action C)
actions =
    Action.entity u1 (EntityOp.update (user "cat"))
    ∷ Action.create pair_template
    ∷ Action.entity u1 EntityOp.remove
    ∷ []

s-IsReady : IsReady s
s-IsReady = (refl, refl, refl, λ key. HashMap.get-new key_discrete key)

good_handler_lem_example :
    (s' : BlockState C) × (good_handler actions s ≡ done s')
    × IsReady s'
    × (s'.created_data_sources ≡ [] ++ created actions)
    × (s'.deterministic_errors ≡ [])
    × ((key : EntityKey) (e : Option (Entity S))
        → SameView (shown key s'.entity_cache e) (applied key actions (shown key s.entity_cache e)))
good_handler_lem_example = good_handler_lem actions s s-IsReady

failing_handler_lem_example :
    (s' : BlockState C) × (failing_handler actions "division by zero" s ≡ done s')
    × IsReady s'
    × (s'.created_data_sources ≡ [])
    × (s'.deterministic_errors ≡ [] ++ "division by zero" ∷ [])
    × (s'.entity_cache.updates ≡ s.entity_cache.updates)
    × ((key : EntityKey) (e : Option (Entity S))
        → shown key s'.entity_cache e ≡ shown key s.entity_cache e)
failing_handler_lem_example = failing_handler_lem actions "division by zero" s s-IsReady
