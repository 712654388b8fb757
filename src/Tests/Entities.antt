-- ===== src/Tests/Entities.antt =====
-- The entity cache over a store in memory that holds one entity, and the properties at that state.
use test_ci_for_massbitproto.Prelude.{
  List, ℕ, true, false, none, some, Option, String, [], ◌∷◌, ite, ◌≡◌, refl, sym, ap, ◌∙◌, arith,
  text_discrete, ℕ_discrete, inl,
}
use test_ci_for_massbitproto.Prelude.HashMap
use test_ci_for_massbitproto.Prelude.Outcome.{done}
use test_ci_for_massbitproto.Data.Value.{Scalars, Value}
use test_ci_for_massbitproto.Data.Entity
use test_ci_for_massbitproto.Data.Entity.{Entity, IdResult}
use test_ci_for_massbitproto.LfuCache.ListQueue.Concrete.{list_queue}
use test_ci_for_massbitproto.LfuCache.Invariant.{new-IsValid}
use test_ci_for_massbitproto.EntityCache.Op.{EntityOp, apply_to, accumulate}
use test_ci_for_massbitproto.EntityCache.Op.View.{SameView, apply_to-accumulate}
use test_ci_for_massbitproto.LfuCache.Ops as Lfu
use test_ci_for_massbitproto.LfuCache.Access.{find}
use test_ci_for_massbitproto.EntityCache.State.{
  EntityOperation, EntityKey, key_discrete, Env, types, entity_types, EntityLfu, EntityCache,
  Updates,
}
use test_ci_for_massbitproto.EntityCache.Ops as Cache
use test_ci_for_massbitproto.EntityCache.Ops.{entity_op, exit_handler}
use test_ci_for_massbitproto.EntityCache.Handler.{shown, shown-entity_op}
use test_ci_for_massbitproto.EntityCache.Exit.{
  IsIdle, exit_handler_lem, failing_handler, discard_lem,
}
use test_ci_for_massbitproto.EntityCache.Extension.{extend_lem, append_lem, appended}
use test_ci_for_massbitproto.EntityCache.Lookup.{cached, IsValidLfu, Loaded, get_shown}
use test_ci_for_massbitproto.EntityCache.Decide.{Content}
use test_ci_for_massbitproto.EntityCache.Fetch.{key_of, Serves, Grows}
use test_ci_for_massbitproto.EntityCache.Modifications.{ModificationsAndCache, as_modifications}
use test_ci_for_massbitproto.EntityCache.Commit.{Committed}
use test_ci_for_massbitproto.EntityCache.Result.{IsOwnOps, as_modifications-Committed}
use test_ci_for_massbitproto.Tests.MemoryStore.{memory_store, memory-Serves}

abbrev pub S : Scalars
S = record {
  BigDecimal = ℕ;
  BigInt = ℕ;
  decimal_discrete = ℕ_discrete;
  integer_discrete = ℕ_discrete;
}

-- an entity with an id and a name
pub user : String → Entity S
user name =
    Entity.insert "name" (Value.string name) (Entity.insert "id" (Value.string "u1") Entity.new)

abbrev pub u1 : EntityKey
u1 = key_of "Qm" "User" "u1"

pub content : Content S
content key = ite (key_discrete key u1) (some (user "ann")) none

abbrev pub E : Env
E = record {
  scalars = S;
  key_weight = λ k. 1;
  value_weight = λ v. 1;
  entry_size = 1;
  queue = list_queue (entity_types S (λ k. 1) (λ v. 1) 1);
  store = memory_store "Qm" content;
  StoredDataSource = String;
}

program : Unit {0}
unfolding Entity.id Entity.get Entity.insert Entity.new Entity.merge Entity.merge_remove_null_fields
    Entity.merge_field Entity.remove HashMap.get HashMap.insert HashMap.new HashMap.lookup
    text_discrete HashMap.for_each user
program = tt

user-id : (name : String) → Entity.id (user name) ≡ IdResult.ok "u1"
unfolding program
user-id name = refl

content-keyed :
    (t i : String) (e : Entity S) → content (key_of "Qm" t i) ≡ some e → Entity.id e ≡ IdResult.ok i
unfolding content
content-keyed t i e h = elim (key_discrete (key_of "Qm" t i) u1) [
  | yes same ↦
      let is_user : e ≡ user "ann" = ground arith in
      ap Entity.id is_user
      ∙ user-id "ann"
      ∙ sym (ap (λ (k : EntityKey). IdResult.ok k.entity_id) same)
  | no other ↦ absurd (ground arith)
]

content-u1 : content u1 ≡ some (user "ann")
unfolding content
content-u1 = ground arith

content-Serves : Serves E "Qm" content
content-Serves = memory-Serves E "Qm" content refl content-keyed

-- the cache after an update of the name outside of a handler
abbrev ops : Updates S
ops = Cache.accumulate_at u1 (EntityOp.update (user "bob")) (HashMap.new key_discrete)

abbrev pub renamed : EntityCache E
renamed = record {
  current = Lfu.new (types E) E.queue;
  updates = ops;
  handler_updates = HashMap.new key_discrete;
  in_handler = false;
  data_sources = [];
}

-- the same cache in a handler that has removed the entity
abbrev in_handler : EntityCache E
in_handler = record renamed {
  handler_updates = Cache.accumulate_at u1 EntityOp.remove (HashMap.new key_discrete);
  in_handler = true;
}

new_valid : IsValidLfu E renamed.current
new_valid = new-IsValid (types E) E.queue

new_cached : (key : EntityKey) → cached E key renamed.current ≡ none
unfolding Lfu.new find
new_cached key = refl

ops_own : IsOwnOps E "Qm" renamed.updates.entries
unfolding Cache.accumulate_at HashMap.insert HashMap.new
ops_own = (refl, tt)

as_modifications-Committed_example :
    (r : ModificationsAndCache E) × (as_modifications E renamed ≡ done r)
    × (r.data_sources ≡ renamed.data_sources)
    × (fetched : EntityLfu E) × Grows E content renamed.current fetched
    × Committed E renamed.updates.entries content fetched r.entity_lfu_cache r.modifications
as_modifications-Committed_example =
    as_modifications-Committed E "Qm" content renamed new_valid (λ key. inl (new_cached key))
      content-Serves ops_own refl

exit_handler_lem_example :
    (c' : EntityCache E) × (exit_handler E in_handler ≡ done c')
    × (c'.in_handler ≡ false)
    × IsIdle c'
    × ((key : EntityKey) (entity : Option (Entity S))
        → SameView (shown key c' entity) (shown key in_handler entity))
exit_handler_lem_example = exit_handler_lem in_handler refl

discard_lem_example :
    (c' : EntityCache E) × (failing_handler renamed ((u1, EntityOp.remove) ∷ []) ≡ done c')
    × (c'.in_handler ≡ false)
    × IsIdle c'
    × (c'.updates ≡ renamed.updates)
    × ((key : EntityKey) (entity : Option (Entity S))
        → shown key c' entity ≡ shown key renamed entity)
discard_lem_example =
    discard_lem renamed ((u1, EntityOp.remove) ∷ []) refl (λ key. HashMap.get-new key_discrete key)

shown-entity_op_example :
    SameView (shown u1 (entity_op E u1 EntityOp.remove renamed) (content u1)) (
      ite
        (key_discrete u1 u1)
        (apply_to EntityOp.remove (shown u1 renamed (content u1)))
        (shown u1 renamed (content u1)))
shown-entity_op_example =
    shown-entity_op u1 u1 EntityOp.remove renamed (content u1)
      (λ h. HashMap.get-new key_discrete u1)

apply_to-accumulate_example :
    SameView
      (apply_to (accumulate (EntityOp.update (user "ann")) (EntityOp.update (user "bob"))) none)
      (apply_to (EntityOp.update (user "bob")) (apply_to (EntityOp.update (user "ann")) none))
apply_to-accumulate_example =
    apply_to-accumulate (EntityOp.update (user "ann")) (EntityOp.update (user "bob")) none

get_shown_example :
    (current' : EntityLfu E) × (Cache.get E u1 renamed
      ≡ done (
        record renamed { current = current' },
        shown u1 renamed (some (Entity.remove "__typename" (user "ann"))),
      ))
    × Loaded E u1 (some (Entity.remove "__typename" (user "ann"))) renamed.current current'
get_shown_example =
    get_shown E u1 renamed (some (Entity.remove "__typename" (user "ann"))) new_valid
      (ground (arith, new_cached u1, content-u1))

-- another cache, which removes the user
abbrev removal : EntityCache E
removal = record renamed {
  updates = Cache.accumulate_at u1 EntityOp.remove (HashMap.new key_discrete);
}

extend_lem_example :
    (c' : EntityCache E) × (Cache.extend E renamed removal ≡ done c')
    × ((key : EntityKey) (entity : Option (Entity S))
        → SameView (shown key c' entity) (
            Cache.apply_update
              (HashMap.get key_discrete key removal.updates)
              (shown key renamed entity)))
extend_lem_example = extend_lem renamed removal refl (λ h key. HashMap.get-new key_discrete key)

abbrev operations : List (EntityOperation S)
operations = EntityOperation.remove u1 ∷ EntityOperation.set u1 (user "cat") ∷ []

append_lem_example :
    (c' : EntityCache E) × (Cache.append E operations renamed ≡ done c')
    × (c'.in_handler ≡ false)
    × IsIdle c'
    × ((key : EntityKey) (entity : Option (Entity S))
        → SameView (shown key c' entity) (appended key operations (shown key renamed entity)))
append_lem_example = append_lem operations renamed refl (λ key. HashMap.get-new key_discrete key)
