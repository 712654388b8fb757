-- ===== src/EntityCache/Exit.antt =====
-- The end of a handler: its operations are kept, or dropped.
use test_ci_for_massbitproto.Prelude.{
  true, false, List, [], ◌∷◌, Option, none, some, ◌≡◌, refl, arith, Option-cases, inl, inr,
}
use test_ci_for_massbitproto.Prelude.HashMap
use test_ci_for_massbitproto.Prelude.HashMap.{for_each}
use test_ci_for_massbitproto.Prelude.Outcome.{Outcome, done, ◌>>=◌}
use test_ci_for_massbitproto.Data.Entity.{Entity}
use test_ci_for_massbitproto.EntityCache.Op.{EntityOp}
use test_ci_for_massbitproto.EntityCache.Op.View.{SameView}
use test_ci_for_massbitproto.EntityCache.State.{EntityKey, key_discrete, Env, Updates, EntityCache}
use test_ci_for_massbitproto.EntityCache.Ops.{
  next_op, accumulate_at, apply_update, entity_op, enter_handler, exit_handler,
  exit_handler_and_discard_changes,
}
use test_ci_for_massbitproto.EntityCache.Handler.{
  shown, for_each-entity_op, get-for_each-accumulate_at, SameView-refl, SameView-of_eq,
  apply_update-next_op,
}

-- No operation is pending for a handler.
abbrev pub IsIdle : {E : Env} → EntityCache E → Type 0
IsIdle d = (key : EntityKey) → HashMap.get key_discrete key d.handler_updates ≡ none

module _ {E : Env} (c : EntityCache E) where
  abbrev merged : EntityCache E
  merged = record c {
    in_handler = false;
    handler_updates = HashMap.new key_discrete;
    updates = for_each accumulate_at c.handler_updates.entries c.updates;
  }

  exit_handler-merged : c.in_handler ≡ true → exit_handler E c ≡ done merged
  unfolding exit_handler
  exit_handler-merged inside = ground (
    arith,
    for_each-entity_op c.handler_updates.entries
        (record c { handler_updates = HashMap.new key_discrete }) c.updates,
  )

  shown-merged :
      (key : EntityKey) (entity : Option (Entity E.scalars))
      → SameView (shown key merged entity) (shown key c entity)
  unfolding apply_update
  shown-merged key entity =
      let u = HashMap.get key_discrete key c.updates in
      let new = HashMap.get-new key_discrete {V = EntityOp E.scalars} key in
      let all = get-for_each-accumulate_at c.handler_updates c.updates key in
      elim (Option-cases (HashMap.get key_discrete key c.handler_updates)) [
        | inl n ↦
            SameView-of_eq {a' = shown key c entity} (ground (arith, new, all)) refl
              (SameView-refl (shown key c entity))
        | inr (op, p) ↦
            SameView-of_eq {a' = apply_update (some (next_op u op)) entity}
              (ground (arith, new, all)) (ground arith) (apply_update-next_op u op entity)
      ]

  -- A handler that ends well, where one is running: the cache has left the handler, nothing is pending
  -- for it, and each entity is shown as before, up to attributes that are `Null`.
  pub exit_handler_lem :
      c.in_handler ≡ true
      → (c' : EntityCache E) × (exit_handler E c ≡ done c')
        × (c'.in_handler ≡ false)
        × IsIdle c'
        × ((key : EntityKey) (entity : Option (Entity E.scalars))
            → SameView (shown key c' entity) (shown key c entity))
  exit_handler_lem inside = (
    merged,
    exit_handler-merged inside,
    refl,
    λ key. HashMap.get-new key_discrete key,
    shown-merged,
  )

  -- The operations of a handler that runs from `c`, and then fails.
  abbrev pub failing_handler : List (EntityKey × EntityOp E.scalars) → Outcome (EntityCache E)
  failing_handler ops = do
    d ← enter_handler E c
    exit_handler_and_discard_changes E (for_each (entity_op E) ops d)

  pub inside_handler :
      (ops : List (EntityKey × EntityOp E.scalars)) (u : Updates E.scalars)
      → for_each (entity_op E) ops (record c { in_handler = true; handler_updates = u })
        ≡ record c { in_handler = true; handler_updates = for_each accumulate_at ops u }
  unfolding for_each entity_op
  inside_handler [] u = refl
  inside_handler ((key, op) ∷ ops) u = inside_handler ops (accumulate_at key op u)

  -- A handler that starts outside of any other and fails, whatever operations it made, leaves the
  -- cache outside of handlers and idle, with the main updates and every shown entity as they were.
  pub discard_lem :
      (ops : List (EntityKey × EntityOp E.scalars))
      → c.in_handler ≡ false
      → IsIdle c
      → (c' : EntityCache E) × (failing_handler ops ≡ done c')
        × (c'.in_handler ≡ false)
        × IsIdle c'
        × (c'.updates ≡ c.updates)
        × ((key : EntityKey) (entity : Option (Entity E.scalars))
            → shown key c' entity ≡ shown key c entity)
  unfolding enter_handler exit_handler_and_discard_changes
  discard_lem ops out idle = (
    record c { in_handler = false; handler_updates = HashMap.new key_discrete },
    ground (arith, inside_handler ops c.handler_updates),
    refl,
    λ key. HashMap.get-new key_discrete key,
    refl,
    λ key entity.
        ground (arith, idle key, HashMap.get-new key_discrete {V = EntityOp E.scalars} key),
  )
