-- ===== src/Indexer/Manager/Blocks.antt =====
-- What `process_block` of manager/src/indexer/instance_manager.rs returns and writes.
use test_ci_for_massbitproto.Prelude.{
  ℕ, Bool, true, false, not, none, some, List, [], ◌∷◌, ◌++◌, map, ◌≡◌, ◌⊎◌, inl, inr, refl, sym,
  ap, ◌∙◌, subst, arith, Bool-cases,
}
use test_ci_for_massbitproto.Prelude.Outcome.{Outcome, assert, bind_inversion, done-injective}
use test_ci_for_massbitproto.LfuCache.Ops as Lfu
use test_ci_for_massbitproto.EntityCache.State.{Env, types, EntityCache}
use test_ci_for_massbitproto.EntityCache.Ops as Cache
use test_ci_for_massbitproto.EntityCache.Modifications.{
  as_modifications, fetch_missing, modify_all, ModificationsAndCache,
}
use test_ci_for_massbitproto.Indexer.BlockState.{Chain, BlockState, has_created_data_sources}
use test_ci_for_massbitproto.Indexer.BlockState as State
use test_ci_for_massbitproto.Indexer.Runtime.{
  Runtime, MappingError, Run, ok, err, panicked, unfinished, of_outcome, ok-injective,
  run_inversion, of_outcome_inversion,
}
use test_ci_for_massbitproto.Indexer.Manager.Triggers.{process_triggers}
use test_ci_for_massbitproto.Indexer.Manager.Recorded.{AreBuilt}
use test_ci_for_massbitproto.Indexer.Manager.Kept.{sources, process_triggers_keeps}
use test_ci_for_massbitproto.Indexer.Manager.Loop.{joined, extended, process_all_created-IsGrown}
use test_ci_for_massbitproto.Indexer.Manager.{
  BlockProcessingError, IndexingState, Transaction, Processed, process_all_created, write_block,
  finish_block, after_triggers, process_block,
}

as_modifications_sources :
    (E : Env) (c : EntityCache E) (r : ModificationsAndCache E)
    → as_modifications E c ≡ Outcome.done r
    → r.data_sources ≡ c.data_sources
unfolding as_modifications
as_modifications_sources E c r h =
    let (u, out, h₁) = bind_inversion (assert (not c.in_handler)) _ r h in
    let (current, fetched, h₂) = bind_inversion (fetch_missing E c) _ r h₁ in
    let ((current', mods), modified, last) =
      bind_inversion (modify_all E c.updates.entries current) _ r h₂ in
    ap (λ (m : ModificationsAndCache E). m.data_sources) (sym (done-injective last))

pub List-cases : {A : Type 0} (xs : List A) → (xs ≡ []) ⊎ ((x : A) × (ys : List A) × (xs ≡ x ∷ ys))
List-cases [] = inl refl
List-cases (x ∷ xs) = inr (x, xs, refl)

module _ {C : Chain} (R : Runtime C) (entity_cache_size : ℕ)
    (transact_block_operations : Transaction R → Outcome (Unit {0})) where
  -- a transaction was made for the block, with the data sources of the block state
  abbrev IsFinished : Bool → R.Block → Bool → IndexingState R × BlockState C → Processed R → Type 0
  IsFinished is_canceled block needs_restart (ctx, s) p =
      (t : Transaction R) × (p.written ≡ some t)
      × (t.block_ptr ≡ R.ptr block)
      × (is_canceled ≡ false)
      × (transact_block_operations t ≡ Outcome.done tt)
      × (t.data_sources ≡ sources s)
      × (p.state.instance ≡ ctx.instance)
      × (p.state.filter ≡ ctx.filter)
      × (p.needs_restart ≡ needs_restart)

  write_block-IsFinished :
      (block : R.Block) (needs_restart : Bool) (ctx : IndexingState R) (s : BlockState C)
      (p : Processed R)
      → write_block R entity_cache_size transact_block_operations block needs_restart (ctx, s)
        ≡ ok p
      → IsFinished false block needs_restart (ctx, s) p
  unfolding write_block
  write_block-IsFinished block needs_restart ctx s p h =
      let (r, committed, h₁) =
        run_inversion
          (of_outcome BlockProcessingError.unknown (as_modifications C.env s.entity_cache)) _ p h in
      let ((cache, stats), evicted, h₂) =
        run_inversion
          (of_outcome BlockProcessingError.unknown
            (Lfu.evict (types C.env) C.env.queue entity_cache_size r.entity_lfu_cache))
          _ p h₁ in
      let (u, unused, h₃) =
        run_inversion
          (of_outcome BlockProcessingError.unknown
            (assert (Lfu.is_empty (types C.env) C.env.queue ctx.entity_lfu_cache)))
          _ p h₂ in
      let t : Transaction R = record {
        block_ptr = R.ptr block;
        mods = r.modifications;
        data_sources = r.data_sources;
      } in
      let (v, transacted, last) =
        run_inversion
          (of_outcome
            (λ e.
              BlockProcessingError.unknown "Error while processing block stream for a indexer: {}")
            (transact_block_operations t))
          _ p h₃ in
      subst (IsFinished false block needs_restart (ctx, s)) (ok-injective last) (
        t,
        refl,
        refl,
        refl,
        of_outcome_inversion _ _ _ transacted,
        as_modifications_sources C.env s.entity_cache r (of_outcome_inversion _ _ _ committed),
        refl,
        refl,
        refl,
      )

  finish_block-IsFinished :
      (is_canceled : Bool) (block : R.Block) (needs_restart : Bool) (ctx : IndexingState R)
      (s : BlockState C) (p : Processed R)
      → finish_block R entity_cache_size transact_block_operations is_canceled block needs_restart
          (ctx, s)
        ≡ ok p
      → IsFinished is_canceled block needs_restart (ctx, s) p
  unfolding finish_block
  finish_block-IsFinished is_canceled block needs_restart ctx s p h =
      elim (List-cases s.deterministic_errors) [
        | inr (e, es, errors) ↦ absurd (ground (arith, rw (errors, finish_block) at h))
        | inl clean ↦ elim (Bool-cases is_canceled) [
          | inl stopped ↦ absurd (ground (arith, rw (clean, stopped, finish_block) at h))
          | inr running ↦
              subst (λ b. IsFinished b block needs_restart (ctx, s) p) (sym running)
                (write_block-IsFinished block needs_restart ctx s p
                  (rw (clean, running, finish_block) at h))
        ]
      ]

  module _
      (keeps : (host : R.Host) (ptr : R.BlockPtr) (trigger : R.MappingTrigger) (s s' : BlockState C)
        → R.process_mapping_trigger host ptr trigger s ≡ ok s'
        → s'.entity_cache.data_sources ≡ s.entity_cache.data_sources) where
    -- what `process_block` returns: with no transaction, or with one
    abbrev IsProcessed : Bool → R.Block → IndexingState R → Processed R → Type 0
    IsProcessed is_canceled block ctx p =
        ((p.written ≡ none)
          × (p.needs_restart ≡ true)
          × (p.state.instance ≡ ctx.instance)
          × (p.state.filter ≡ ctx.filter))
        ⊎ ((t : Transaction R) × (p.written ≡ some t)
            × (t.block_ptr ≡ R.ptr block)
            × (is_canceled ≡ false)
            × (transact_block_operations t ≡ Outcome.done tt)
            × (batches : List (List R.DataSource)) × (new : List R.Host) × (p.state.instance.hosts
                ≡ ctx.instance.hosts ++ new)
            × AreBuilt R (joined batches) new
            × (t.data_sources ≡ map R.as_stored_dynamic_data_source (joined batches))
            × (p.state.filter ≡ extended R batches ctx.filter)
            × (p.needs_restart ≡ false → batches ≡ []))

    after_triggers-IsProcessed :
        (fuel : ℕ) (is_canceled : Bool) (block : R.Block) (ctx : IndexingState R)
        (m : Run MappingError (BlockState C)) (p : Processed R)
        → ((s : BlockState C) → m ≡ ok s → sources s ≡ [])
        → after_triggers R entity_cache_size transact_block_operations fuel is_canceled block ctx m
          ≡ ok p
        → IsProcessed is_canceled block ctx p
    unfolding after_triggers
    after_triggers-IsProcessed fuel is_canceled block ctx (ok s) p fresh h =
        let (needs_restart, known, h₁) =
          run_inversion (of_outcome BlockProcessingError.unknown (has_created_data_sources C s)) _ p
            h in
        let ((ctx', s'), looped, finishes) =
          run_inversion (process_all_created R fuel block (ctx, s)) _ p h₁ in
        let (batches, ((new, hosts, built), recorded, filter), nothing) =
          process_all_created-IsGrown R keeps fuel block ctx s (ctx', s') looped in
        let (t, written, at, running, transacted, its, instance', filter', restart) =
          finish_block-IsFinished is_canceled block needs_restart ctx' s' p finishes in
        inr (
          t,
          written,
          at,
          running,
          transacted,
          batches,
          new,
          ap (λ i. i.hosts) instance' ∙ hosts,
          built,
          its
              ∙ recorded
              ∙ ap (λ l. l ++ map R.as_stored_dynamic_data_source (joined batches)) (fresh s refl),
          filter' ∙ filter,
          λ stays.
              nothing (of_outcome_inversion _ _ _ known ∙ ap Outcome.done (sym restart ∙ stays)),
        )
    after_triggers-IsProcessed fuel is_canceled block ctx (err (MappingError.unknown e)) p fresh h =
        absurd (ground (arith, h))
    after_triggers-IsProcessed fuel is_canceled block ctx (err (MappingError.possible_reorg e)) p
          fresh h =
        subst (IsProcessed is_canceled block ctx) (ok-injective h) (inl (refl, refl, refl, refl))
    after_triggers-IsProcessed fuel is_canceled block ctx panicked p fresh h =
        absurd (ground (arith, h))
    after_triggers-IsProcessed fuel is_canceled block ctx unfinished p fresh h =
        absurd (ground (arith, h))

    -- Where the handlers keep the data sources in the entity cache, and `process_block` returns: either
    -- it wrote nothing, asks for a restart and left the hosts and the filter as they were; or it was
    -- not canceled and one transaction was made for the block. Then the new hosts are behind the
    -- others, and they were built, one for one and in order, for the data sources that the transaction
    -- records. The filter was extended by batches of these data sources, of which there are none where
    -- it asks for no restart.
    pub process_block_lem :
        (fuel : ℕ) (is_canceled : Bool) (block : R.Block) (triggers : List R.TriggerData)
        (ctx : IndexingState R) (p : Processed R)
        → process_block R entity_cache_size transact_block_operations fuel is_canceled block
            triggers ctx
          ≡ ok p
        → ((p.written ≡ none)
            × (p.needs_restart ≡ true)
            × (p.state.instance ≡ ctx.instance)
            × (p.state.filter ≡ ctx.filter))
          ⊎ ((t : Transaction R) × (p.written ≡ some t)
              × (t.block_ptr ≡ R.ptr block)
              × (is_canceled ≡ false)
              × (transact_block_operations t ≡ Outcome.done tt)
              × (batches : List (List R.DataSource)) × (new : List R.Host) × (p.state.instance.hosts
                  ≡ ctx.instance.hosts ++ new)
              × AreBuilt R (joined batches) new
              × (t.data_sources ≡ map R.as_stored_dynamic_data_source (joined batches))
              × (p.state.filter ≡ extended R batches ctx.filter)
              × (p.needs_restart ≡ false → batches ≡ []))
    unfolding process_block State.new Cache.with_current
    process_block_lem fuel is_canceled block triggers ctx p h =
        after_triggers-IsProcessed fuel is_canceled block
          (record ctx { entity_lfu_cache = Lfu.new (types C.env) C.env.queue })
          (process_triggers R ctx.instance block triggers (State.new C ctx.entity_lfu_cache)) p
          (λ s run.
            process_triggers_keeps R keeps ctx.instance block triggers
              (State.new C ctx.entity_lfu_cache) s run)
          h
