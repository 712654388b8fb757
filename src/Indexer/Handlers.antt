-- ===== src/Indexer/Handlers.antt =====
-- Whole handlers on a block state: what is kept where a handler ends well, and where it fails.
use test_ci_for_massbitproto.Prelude.{
  true, false, Option, ite, List, [], ◌∷◌, ◌++◌, ◌≡◌, refl, sym, ap, ◌∙◌, arith, append_nil,
  append_one,
}
use test_ci_for_massbitproto.Prelude.HashMap.{for_each}
use test_ci_for_massbitproto.Prelude.Outcome.{Outcome, done, ◌>>=◌}
use test_ci_for_massbitproto.Data.Entity.{Entity}
use test_ci_for_massbitproto.EntityCache.Op.{EntityOp, apply_to}
use test_ci_for_massbitproto.EntityCache.Op.View.{SameView, SameView-trans, step-SameView}
use test_ci_for_massbitproto.EntityCache.State.{Env, EntityKey, key_discrete, EntityCache}
use test_ci_for_massbitproto.EntityCache.Ops as Cache
use test_ci_for_massbitproto.EntityCache.Handler.{shown, shown-entity_op, SameView-refl}
use test_ci_for_massbitproto.EntityCache.Exit.{IsIdle, exit_handler_lem, discard_lem}
use test_ci_for_massbitproto.Indexer.BlockState.{
  Chain, DataSourceTemplateInfo, BlockState, enter_handler, exit_handler,
  exit_handler_and_discard_changes_due_to_error, push_created_data_source,
}

-- What a handler does to the block state: an operation on an entity, or a new data source.
pub data Action (C : Chain) : Type 0 where
  entity : EntityKey → EntityOp C.env.scalars → Action C
  create : DataSourceTemplateInfo C → Action C

entity_op-inside :
    {E : Env} (key : EntityKey) (op : EntityOp E.scalars) (c : EntityCache E)
    → c.in_handler ≡ true
    → (Cache.entity_op E key op c).in_handler ≡ true
unfolding Cache.entity_op
entity_op-inside key op c inside = ground arith

module _ {C : Chain} where
  -- The block state is outside of handlers, with its cache, and nothing is left of a handler.
  abbrev pub IsReady : BlockState C → Type 0
  IsReady s =
      (s.in_handler ≡ false)
      × (s.entity_cache.in_handler ≡ false)
      × (s.handler_created_data_sources ≡ [])
      × IsIdle s.entity_cache

  abbrev pub act : Action C → BlockState C → Outcome (BlockState C)
  act (entity key op) s =
      done (record s { entity_cache = Cache.entity_op C.env key op s.entity_cache })
  act (create ds) s = push_created_data_source C ds s

  abbrev pub run : List (Action C) → BlockState C → Outcome (BlockState C)
  run [] s = done s
  run (a ∷ actions) s = act a s >>= run actions

  abbrev pub created : List (Action C) → List (DataSourceTemplateInfo C)
  created [] = []
  created (create ds ∷ actions) = ds ∷ created actions
  created (a ∷ actions) = created actions

  -- The entity of a key after the actions, each applied in turn.
  abbrev pub applied :
      EntityKey → List (Action C) → Option (Entity C.env.scalars) → Option (Entity C.env.scalars)
  applied key [] e = e
  applied key (entity k op ∷ actions) e =
      applied key actions (ite (key_discrete k key) (apply_to op e) e)
  applied key (create ds ∷ actions) e = applied key actions e

  abbrev pub good_handler : List (Action C) → BlockState C → Outcome (BlockState C)
  good_handler actions s = enter_handler C s >>= run actions >>= exit_handler C

  abbrev pub failing_handler :
      List (Action C) → C.IndexerError → BlockState C → Outcome (BlockState C)
  failing_handler actions e s =
      enter_handler C s >>= run actions >>= exit_handler_and_discard_changes_due_to_error C e

  abbrev cache_after : List (Action C) → EntityCache C.env → EntityCache C.env
  cache_after [] c = c
  cache_after (entity key op ∷ actions) c = cache_after actions (Cache.entity_op C.env key op c)
  cache_after (create ds ∷ actions) c = cache_after actions c

  applied-SameView :
      (key : EntityKey) (actions : List (Action C)) (a b : Option (Entity C.env.scalars))
      → SameView a b
      → SameView (applied key actions a) (applied key actions b)
  applied-SameView key [] a b h = h
  applied-SameView key (create ds ∷ actions) a b h = applied-SameView key actions a b h
  applied-SameView key (entity k op ∷ actions) a b h =
      let d = key_discrete k key in
      applied-SameView key actions (ite d (apply_to op a) a) (ite d (apply_to op b) b)
        (step-SameView d op a b h)

  cache_after-inside :
      (actions : List (Action C)) (c : EntityCache C.env)
      → c.in_handler ≡ true
      → (cache_after actions c).in_handler ≡ true
  cache_after-inside [] c h = h
  cache_after-inside (create ds ∷ actions) c h = cache_after-inside actions c h
  cache_after-inside (entity key op ∷ actions) c h =
      cache_after-inside actions (Cache.entity_op C.env key op c) (entity_op-inside key op c h)

  shown-cache_after :
      (j : EntityKey) (actions : List (Action C)) (c : EntityCache C.env)
      (e : Option (Entity C.env.scalars))
      → c.in_handler ≡ true
      → SameView (shown j (cache_after actions c) e) (applied j actions (shown j c e))
  shown-cache_after j [] c e h = SameView-refl (shown j c e)
  shown-cache_after j (create ds ∷ actions) c e h = shown-cache_after j actions c e h
  shown-cache_after j (entity key op ∷ actions) c e h =
      let c' = Cache.entity_op C.env key op c in
      let rest = shown-cache_after j actions c' e (entity_op-inside key op c h) in
      let first = shown-entity_op key j op c e (λ out. absurd (ground arith)) in
      SameView-trans _ _ _ rest (
        applied-SameView j actions (shown j c' e)
          (ite (key_discrete key j) (apply_to op (shown j c e)) (shown j c e)) first)

  operations : List (Action C) → List (EntityKey × EntityOp C.env.scalars)
  operations [] = []
  operations (entity key op ∷ actions) = (key, op) ∷ operations actions
  operations (create ds ∷ actions) = operations actions

  cache_after-for_each :
      (actions : List (Action C)) (c : EntityCache C.env)
      → cache_after actions c ≡ for_each (Cache.entity_op C.env) (operations actions) c
  unfolding operations for_each
  cache_after-for_each [] c = refl
  cache_after-for_each (create ds ∷ actions) c = cache_after-for_each actions c
  cache_after-for_each (entity key op ∷ actions) c =
      cache_after-for_each actions (Cache.entity_op C.env key op c)

  inside : BlockState C → EntityCache C.env → List (DataSourceTemplateInfo C) → BlockState C
  inside s c sources = record s {
    in_handler = true;
    entity_cache = c;
    handler_created_data_sources = sources;
  }

  run-inside :
      (actions : List (Action C)) (s : BlockState C) (c : EntityCache C.env)
      (sources : List (DataSourceTemplateInfo C))
      → run actions (inside s c sources)
        ≡ done (inside s (cache_after actions c) (sources ++ created actions))
  unfolding inside push_created_data_source
  run-inside [] s c sources = ap (λ l. done (inside s c l)) (sym (append_nil sources))
  run-inside (entity key op ∷ actions) s c sources =
      run-inside actions s (Cache.entity_op C.env key op c) sources
  run-inside (create ds ∷ actions) s c sources =
      run-inside actions s c (sources ++ ds ∷ [])
      ∙ ap (λ l. done (inside s (cache_after actions c) l))
          (append_one sources ds (created actions))

  -- A handler that ends well, run from a block state that is ready: the block state is ready again,
  -- with the data sources that the handler created after those it had, in their order, and with no
  -- further error. Each entity is shown as before with the handler's operations on it applied, each
  -- after the one before, up to attributes that are `Null`.
  pub good_handler_lem :
      (actions : List (Action C)) (s : BlockState C)
      → IsReady s
      → (s' : BlockState C) × (good_handler actions s ≡ done s')
        × IsReady s'
        × (s'.created_data_sources ≡ s.created_data_sources ++ created actions)
        × (s'.deterministic_errors ≡ s.deterministic_errors)
        × ((key : EntityKey) (e : Option (Entity C.env.scalars))
            → SameView
                (shown key s'.entity_cache e)
                (applied key actions (shown key s.entity_cache e)))
  unfolding enter_handler exit_handler Cache.enter_handler inside
  good_handler_lem actions s (out, cache_out, none_created, idle) =
      let c = record s.entity_cache { in_handler = true } in
      let d = cache_after actions c in
      let stays = cache_after-inside actions c refl in
      let (c', exits, left, idle', same) = exit_handler_lem d stays in
      (
        record s {
          in_handler = false;
          entity_cache = c';
          created_data_sources = s.created_data_sources ++ created actions;
          handler_created_data_sources = [];
        },
        ground (arith, run-inside actions s c [], exits),
        (refl, left, refl, idle'),
        refl,
        refl,
        λ key e. SameView-trans _ _ _ (same key e) (shown-cache_after key actions c e refl),
      )

  -- A handler that fails, run from a block state that is ready: the block state is ready again, with
  -- one error more. The data sources, the main updates and every shown entity are what they were.
  pub failing_handler_lem :
      (actions : List (Action C)) (error : C.IndexerError) (s : BlockState C)
      → IsReady s
      → (s' : BlockState C) × (failing_handler actions error s ≡ done s')
        × IsReady s'
        × (s'.created_data_sources ≡ s.created_data_sources)
        × (s'.deterministic_errors ≡ s.deterministic_errors ++ error ∷ [])
        × (s'.entity_cache.updates ≡ s.entity_cache.updates)
        × ((key : EntityKey) (e : Option (Entity C.env.scalars))
            → shown key s'.entity_cache e ≡ shown key s.entity_cache e)
  unfolding enter_handler exit_handler_and_discard_changes_due_to_error Cache.enter_handler inside
  failing_handler_lem actions error s (out, cache_out, none_created, idle) =
      let c = record s.entity_cache { in_handler = true } in
      let (c', exits, left, idle', updates, same) =
        discard_lem s.entity_cache (operations actions) cache_out idle in
      (
        record s {
          in_handler = false;
          entity_cache = c';
          handler_created_data_sources = [];
          deterministic_errors = s.deterministic_errors ++ error ∷ [];
        },
        ground (arith, run-inside actions s c [], cache_after-for_each actions c, exits),
        (refl, left, refl, idle'),
        refl,
        refl,
        updates,
        same,
      )
