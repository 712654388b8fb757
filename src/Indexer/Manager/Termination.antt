-- ===== src/Indexer/Manager/Termination.antt =====
-- The end of the loop of `process_block` in manager/src/indexer/instance_manager.rs, where templates are
-- nested to some depth.
use test_ci_for_massbitproto.Prelude.{
  ℕ, zero, suc, ◌≤◌, ◌<◌, Bool, false, not, List, [], ◌∷◌, ◌≡◌, inl, inr, refl, sym, subst, arith,
  All, Bool-cases,
}
use test_ci_for_massbitproto.Prelude.Outcome.{Outcome, assert, bind_inversion, done-injective}
use test_ci_for_massbitproto.LfuCache.Ops as Lfu
use test_ci_for_massbitproto.EntityCache.State.{types}
use test_ci_for_massbitproto.EntityCache.Modifications.{as_modifications}
use test_ci_for_massbitproto.Indexer.BlockState.{
  Chain, BlockState, DataSourceTemplateInfo, has_created_data_sources, drain_created_data_sources,
}
use test_ci_for_massbitproto.Indexer.BlockState as State
use test_ci_for_massbitproto.Indexer.Runtime.{
  Runtime, MappingError, Run, ok, err, panicked, unfinished,
}
use test_ci_for_massbitproto.Indexer.Manager.Triggers.{process_triggers}
use test_ci_for_massbitproto.Indexer.Manager.Blocks.{List-cases}
use test_ci_for_massbitproto.Indexer.Manager.Rounds.{Bounded, process_created-Ends}
use test_ci_for_massbitproto.Indexer.Manager.Nesting.{
  Ends, bind-Ends, bind_outcome-Ends, Within, HostsWithin, triggers-Ends,
}
use test_ci_for_massbitproto.Indexer.Manager.{
  BlockProcessingError, IndexingState, Transaction, process_created, process_all_created,
  write_block, finish_block, after_triggers, process_block,
}

module _ {C : Chain} (R : Runtime C) (nesting : DataSourceTemplateInfo C → ℕ)
    (host_nesting : R.Host → ℕ) where
  nothing_created :
      (s : BlockState C) (created : Bool)
      → All (λ info. nesting info < 0) s.created_data_sources
      → has_created_data_sources C s ≡ Outcome.done created
      → created ≡ false
  unfolding has_created_data_sources
  nothing_created s created small h =
      let (u, out, last) =
        bind_inversion (assert (not s.in_handler)) _ created
          (rw (empty s.created_data_sources small, has_created_data_sources) at h) in
      sym (done-injective last)
    where
      empty :
          (infos : List (DataSourceTemplateInfo C))
          → All (λ info. nesting info < 0) infos
          → infos ≡ []
      empty [] h = refl
      empty (info ∷ infos) (h, hs) = absurd (omega (arith, h))

  module _
      (builds : (info : DataSourceTemplateInfo C) (ds : R.DataSource) (sender : R.Sender)
          (host : R.Host)
        → R.try_from info ≡ Outcome.done ds
        → R.build ds sender ≡ Outcome.done host
        → host_nesting host ≤ nesting info) where
    module _
        (creates : (n : ℕ) (host : R.Host) (ptr : R.BlockPtr) (trigger : R.MappingTrigger)
            (s : BlockState C)
          → host_nesting host ≤ n
          → Within R nesting host_nesting n s
          → Ends
              (Within R nesting host_nesting n)
              (R.process_mapping_trigger host ptr trigger s)) where
      loop-Ends :
          (fuel : ℕ) (block : R.Block) (ctx : IndexingState R) (s : BlockState C)
          → Within R nesting host_nesting fuel s
          → Ends (λ r. Unit) (process_all_created R fuel block (ctx, s))
      unfolding process_all_created
      loop-Ends zero block ctx s w =
          bind_outcome-Ends _ BlockProcessingError.unknown (has_created_data_sources C s) _
            (λ created known. rw (nothing_created s created w.0 known) tt)
      loop-Ends (suc n) block ctx s w =
          bind_outcome-Ends _ BlockProcessingError.unknown (has_created_data_sources C s) _
            (λ created known. elim (Bool-cases created) [
              | inl more ↦ rw more (
                  bind-Ends (Bounded R nesting host_nesting builds creates n) (λ r. Unit)
                    (process_created R block (ctx, s)) (process_all_created R n block)
                    (process_created-Ends R nesting host_nesting builds creates n block ctx s w)
                    (λ (ctx', s') w'. loop-Ends n block ctx' s' w'))
              | inr nothing ↦ rw nothing tt
            ])

      module _ (size : ℕ) (transact : Transaction R → Outcome (Unit {0})) where
        write-Ends :
            (block : R.Block) (needs_restart : Bool) (ctx : IndexingState R) (s : BlockState C)
            → Ends (λ p. Unit) (write_block R size transact block needs_restart (ctx, s))
        unfolding write_block
        write-Ends block needs_restart ctx s =
            bind_outcome-Ends _ BlockProcessingError.unknown (as_modifications C.env s.entity_cache)
              _
              (λ r committed.
                bind_outcome-Ends _ BlockProcessingError.unknown
                  (Lfu.evict (types C.env) C.env.queue size r.entity_lfu_cache) _
                  (λ (cache, stats) evicted.
                    bind_outcome-Ends _ BlockProcessingError.unknown
                      (assert (Lfu.is_empty (types C.env) C.env.queue ctx.entity_lfu_cache)) _
                      (λ u unused.
                        bind_outcome-Ends _
                          (λ e.
                            BlockProcessingError.unknown
                              "Error while processing block stream for a indexer: {}")
                          (transact (record {
                            block_ptr = R.ptr block;
                            mods = r.modifications;
                            data_sources = r.data_sources;
                          }))
                          _ (λ v transacted. tt))))

        finish-Ends :
            (is_canceled : Bool) (block : R.Block) (needs_restart : Bool) (ctx : IndexingState R)
            (s : BlockState C)
            → Ends
                (λ p. Unit)
                (finish_block R size transact is_canceled block needs_restart (ctx, s))
        unfolding finish_block
        finish-Ends is_canceled block needs_restart ctx s =
            elim (List-cases s.deterministic_errors) [
              | inr (e, es, errors) ↦ rw (errors, finish_block) tt
              | inl clean ↦ elim (Bool-cases is_canceled) [
                | inl stopped ↦ rw (clean, stopped, finish_block) tt
                | inr running ↦
                    rw (clean, running, finish_block) (write-Ends block needs_restart ctx s)
              ]
            ]

        after-Ends :
            (fuel : ℕ) (is_canceled : Bool) (block : R.Block) (ctx : IndexingState R)
            (m : Run MappingError (BlockState C))
            → Ends (Within R nesting host_nesting fuel) m
            → Ends (λ p. Unit) (after_triggers R size transact fuel is_canceled block ctx m)
        unfolding after_triggers
        after-Ends fuel is_canceled block ctx (ok s) w =
            bind_outcome-Ends _ BlockProcessingError.unknown (has_created_data_sources C s) _
              (λ restart known.
                bind-Ends (λ r. Unit) _ (process_all_created R fuel block (ctx, s)) _
                  (loop-Ends fuel block ctx s w)
                  (λ (ctx', s') u. finish-Ends is_canceled block restart ctx' s'))
        after-Ends fuel is_canceled block ctx (err (MappingError.unknown e)) w = tt
        after-Ends fuel is_canceled block ctx (err (MappingError.possible_reorg e)) w = tt
        after-Ends fuel is_canceled block ctx panicked w = tt
        after-Ends fuel is_canceled block ctx unfinished w = absurd w

        -- Where each data source has a depth of nesting that bounds that of its host, and the
        -- handlers of a host of depth at most `n` create only data sources of a depth less than `n`:
        -- with as much fuel as the hosts of the instance are deep, the loop of `process_block` ends.
        pub process_block-not-unfinished :
            (fuel : ℕ) (is_canceled : Bool) (block : R.Block) (triggers : List R.TriggerData)
            (ctx : IndexingState R)
            → HostsWithin R nesting host_nesting fuel ctx.instance.hosts
            → ¬ (process_block R size transact fuel is_canceled block triggers ctx ≡ unfinished)
        unfolding process_block State.new
        process_block-not-unfinished fuel is_canceled block triggers ctx within h =
            subst (Ends (λ p. Unit)) h (
              after-Ends fuel is_canceled block
                (record ctx { entity_lfu_cache = Lfu.new (types C.env) C.env.queue })
                (process_triggers R ctx.instance block triggers (State.new C ctx.entity_lfu_cache))
                (triggers-Ends R nesting host_nesting builds creates fuel ctx.instance block
                  triggers (State.new C ctx.entity_lfu_cache) within (tt, refl)))
