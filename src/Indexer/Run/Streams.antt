-- ===== src/Indexer/Run/Streams.antt =====
-- The block streams of `run_indexer` in manager/src/indexer/instance_manager.rs and their filters.
use test_ci_for_massbitproto.Prelude.{
  ℕ, Bool, false, some, List, [], ◌∷◌, ◌≡◌, inl, inr, sym, ap, ◌∙◌, subst, arith, Bool-cases,
}
use test_ci_for_massbitproto.Prelude.Int.{ℤ}
use test_ci_for_massbitproto.Prelude.Outcome as Outcome
use test_ci_for_massbitproto.Indexer.BlockState.{Chain, BlockState}
use test_ci_for_massbitproto.Indexer.Runtime.{
  Runtime, Run, ok, err, panicked, unfinished, of_outcome, ok-injective, run_inversion,
  of_outcome_inversion, map_err, map_err_inversion,
}
use test_ci_for_massbitproto.Indexer.Manager.{IndexingState, Transaction, Processed, process_block}
use test_ci_for_massbitproto.Indexer.Manager.Loop.{extended}
use test_ci_for_massbitproto.Indexer.Manager.Blocks.{process_block_lem}
use test_ci_for_massbitproto.Indexer.Run.{
  Event, Stop, stop_of, number_of, Inputs, Indexing, start, with_transaction, continue, on_event,
  on_events, end, run_indexer,
}

module _ {C : Chain} {R : Runtime C} (I : Inputs R) where
  -- the stream was made with the present filter
  abbrev HasStream : Indexing I → Type 0
  HasStream this =
      (from : ℤ) × (I.new_block_stream from this.ctx.filter ≡ Outcome.done this.block_stream)

  start-HasStream :
      (ctx : IndexingState R) (written : List (Transaction R)) (this : Indexing I)
      → start I ctx written ≡ ok this
      → HasStream this
  unfolding start
  start-HasStream ctx written this h =
      let (ptr, known, h₁) =
        run_inversion (of_outcome Stop.failed (I.block_ptr written)) _ this h in
      let (stream, made, last) =
        run_inversion (of_outcome Stop.failed (I.new_block_stream (number_of ptr) ctx.filter)) _
          this h₁ in
      subst HasStream (ok-injective last) (number_of ptr, of_outcome_inversion _ _ _ made)

  module _
      (keeps : (host : R.Host) (ptr : R.BlockPtr) (trigger : R.MappingTrigger) (s s' : BlockState C)
        → R.process_mapping_trigger host ptr trigger s ≡ ok s'
        → s'.entity_cache.data_sources ≡ s.entity_cache.data_sources) where
    -- where no restart is needed, the filter is the old one
    same_filter :
        (fuel : ℕ) (is_canceled : Bool) (block : R.Block) (triggers : List R.TriggerData)
        (ctx : IndexingState R) (p : Processed R)
        → process_block R I.entity_cache_size I.transact_block_operations fuel is_canceled block
            triggers ctx
          ≡ ok p
        → p.needs_restart ≡ false
        → p.state.filter ≡ ctx.filter
    same_filter fuel is_canceled block triggers ctx p h stays =
        elim (process_block_lem R I.entity_cache_size I.transact_block_operations keeps fuel
          is_canceled block triggers ctx p h) [
            | inl (nothing, restart, instance', filter) ↦ filter
            | inr
                  (
                    t, written, at, running, made, batches, new, hosts, built, its, filter,
                    none_new,
                  ) ↦
                filter ∙ ap (λ bs. extended R bs ctx.filter) (none_new stays)
          ]

    on_event-HasStream :
        (fuel : ℕ) (event : Event R) (this this' : Indexing I)
        → HasStream this
        → on_event I fuel event this ≡ ok this'
        → HasStream this'
    unfolding on_event continue
    on_event-HasStream fuel (Event.stream_error e) this this' has h =
        subst HasStream (ok-injective h) has
    on_event-HasStream fuel (Event.process block triggers is_canceled) this this' (from, made) h =
        let run =
          process_block R I.entity_cache_size I.transact_block_operations fuel is_canceled block
            triggers this.ctx in
        let (p, processed, rest) =
          run_inversion (map_err (stop_of I) run) (λ p. continue I p this) this' h in
        elim (Bool-cases p.needs_restart) [
          | inl again ↦
              start-HasStream p.state (with_transaction I p.written this.written) this'
                (rw (again, continue) at rest)
          | inr stays ↦ subst HasStream (ok-injective (rw (stays, continue) at rest)) (
            from,
            subst (λ f. I.new_block_stream from f ≡ Outcome.done this.block_stream)
                (sym (
                  same_filter fuel is_canceled block triggers this.ctx p
                    (map_err_inversion (stop_of I) run p processed) stays))
                made,
          )
        ]

    on_events-HasStream :
        (fuel : ℕ) (events : List (Event R)) (this this' : Indexing I)
        → HasStream this
        → on_events I fuel events this ≡ ok this'
        → HasStream this'
    unfolding on_events
    on_events-HasStream fuel [] this this' has h = subst HasStream (ok-injective h) has
    on_events-HasStream fuel (event ∷ events) this this' has h =
        let (this₁, first, rest) = run_inversion (on_event I fuel event this) _ this' h in
        on_events-HasStream fuel events this₁ this'
          (on_event-HasStream fuel event this this₁ has first) rest

    end_lem :
        (m : Run Stop (Indexing I)) (this : Indexing I) → end I m ≡ ok (some this) → m ≡ ok this
    unfolding end
    end_lem (ok that) this h = ground (arith, ok-injective h)
    end_lem (err Stop.canceled) this h = absurd (ground (arith, ok-injective h))
    end_lem (err (Stop.failed e)) this h = absurd (ground (arith, h))
    end_lem panicked this h = absurd (ground (arith, h))
    end_lem unfinished this h = absurd (ground (arith, h))

    -- Where the handlers keep the data sources in the entity cache: after any events, as long as the
    -- indexer runs, its block stream is one that the chain made with the filter that the indexer then
    -- has.
    pub run_indexer_lem :
        (fuel : ℕ) (events : List (Event R)) (ctx : IndexingState R) (this : Indexing I)
        → run_indexer I fuel events ctx ≡ ok (some this)
        → (from : ℤ) × (I.new_block_stream from this.ctx.filter ≡ Outcome.done this.block_stream)
    unfolding run_indexer
    run_indexer_lem fuel events ctx this h =
        let (this₁, starts, rest) =
          run_inversion (start I ctx []) (on_events I fuel events) this (end_lem _ this h) in
        on_events-HasStream fuel events this₁ this (start-HasStream ctx [] this₁ starts) rest
