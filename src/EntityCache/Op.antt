-- ===== src/EntityCache/Op.antt =====
-- `EntityOp` of massbit/src/components/store.rs: the accumulated change of one entity.
pub mod View
use test_ci_for_massbitproto.Prelude.{Option, none, some}
use test_ci_for_massbitproto.Data.Value.{Scalars}
use test_ci_for_massbitproto.Data.Entity.{Entity, merge, merge_remove_null_fields}

pub data EntityOp (S : Scalars) : Type 0 where
  remove : EntityOp S
  update : Entity S → EntityOp S
  overwrite : Entity S → EntityOp S

module _ {S : Scalars} where
  unfoldable pub apply_to : EntityOp S → Option (Entity S) → Option (Entity S)
  apply_to remove entity = none
  apply_to (overwrite new) entity = some new
  apply_to (update new) none = some new
  apply_to (update updates) (some entity) = some (merge_remove_null_fields entity updates)

  -- `op` is the receiver, `next` the change that follows it.
  unfoldable pub accumulate : EntityOp S → EntityOp S → EntityOp S
  accumulate op remove = remove
  accumulate op (overwrite new) = overwrite new
  accumulate remove (update new) = overwrite new
  accumulate (update current) (update new) = update (merge current new)
  accumulate (overwrite current) (update new) = overwrite (merge current new)
