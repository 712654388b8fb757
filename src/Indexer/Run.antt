-- ===== src/Indexer/Run.antt =====
-- `run_indexer` of manager/src/indexer/instance_manager.rs, over the events of its block streams.
pub mod Streams
use test_ci_for_massbitproto.Prelude.{
  ℕ, Bool, true, String, Option, none, some, List, [], ◌∷◌, ◌++◌, if◌then◌else◌,
}
use test_ci_for_massbitproto.Prelude.Int.{ℤ, pos}
use test_ci_for_massbitproto.Prelude.Outcome.{Outcome}
use test_ci_for_massbitproto.Indexer.BlockState.{Chain}
use test_ci_for_massbitproto.Indexer.Runtime.{
  Runtime, Run, ok, err, panicked, unfinished, ◌>>=◌, map_err, of_outcome,
}
use test_ci_for_massbitproto.Indexer.Manager.{
  BlockProcessingError, IndexingState, Transaction, Processed, process_block,
}

-- What a block stream produces, and for a block, whether the stream was canceled when the block was
-- about to be written.
pub data Event {C : Chain} (R : Runtime C) : Type 0 where
  stream_error : String → Event R
  process : R.Block → List R.TriggerData → Bool → Event R

-- `map_or(0, |ptr| ptr.number)`
unfoldable pub number_of : Option ℤ → ℤ
number_of none = pos 0
number_of (some number) = number

-- The store, by what was written to it, and the streams of the chain.
pub record Inputs {C : Chain} (R : Runtime C) : Type 1 where
  pub BlockStream : Type 0
  pub entity_cache_size : ℕ
  pub transact_block_operations : Transaction R → Outcome (Unit {0})
  pub block_ptr : List (Transaction R) → Outcome (Option ℤ)
  -- `format!("{:#}", e)`, with tabs in place of line breaks
  pub message : BlockProcessingError C → String
  pub new_block_stream : ℤ → R.TriggerFilter → Outcome BlockStream

-- How the loop ends: by a cancellation, or with an error.
pub data Stop : Type 0 where
  canceled : Stop
  failed : String → Stop

module _ {C : Chain} {R : Runtime C} (I : Inputs R) where
  -- the inner loop: its context, its stream, and whether the indexer is among the running instances
  pub record Indexing : Type 0 where
    pub ctx : IndexingState R
    pub block_stream : I.BlockStream
    pub is_registered : Bool
    pub written : List (Transaction R)

  -- the start of the outer loop
  unfoldable pub start : IndexingState R → List (Transaction R) → Run Stop Indexing
  start ctx written = do
    ptr ← of_outcome Stop.failed (I.block_ptr written)
    block_stream ← of_outcome Stop.failed (I.new_block_stream (number_of ptr) ctx.filter)
    ok (record { ctx = ctx; block_stream = block_stream; is_registered = true; written = written })

  unfoldable pub with_transaction :
      Option (Transaction R) → List (Transaction R) → List (Transaction R)
  with_transaction none written = written
  with_transaction (some t) written = written ++ t ∷ []

  -- a block that was processed: the loop goes on, or the stream is made anew
  unfoldable pub continue : Processed R → Indexing → Run Stop Indexing
  continue p this =
      let written' = with_transaction p.written this.written in
      if p.needs_restart
      then start p.state written'
      else ok (record this { ctx = p.state; written = written' })

  -- an error of `process_block`: a cancellation ends the loop well, and any other error is shown
  unfoldable pub stop_of : BlockProcessingError C → Stop
  stop_of BlockProcessingError.canceled = Stop.canceled
  stop_of (BlockProcessingError.unknown e) =
      Stop.failed (I.message (BlockProcessingError.unknown e))
  stop_of (BlockProcessingError.deterministic e) =
      Stop.failed (I.message (BlockProcessingError.deterministic e))

  unfoldable pub on_event : ℕ → Event R → Indexing → Run Stop Indexing
  on_event fuel (Event.stream_error e) this = ok this
  on_event fuel (Event.process block triggers is_canceled) this = do
    p ← map_err stop_of (
        process_block R I.entity_cache_size I.transact_block_operations fuel is_canceled block
          triggers this.ctx)
    continue p this

  unfoldable pub on_events : ℕ → List (Event R) → Indexing → Run Stop Indexing
  on_events fuel [] this = ok this
  on_events fuel (event ∷ events) this = on_event fuel event this >>= on_events fuel events

  -- `none` where the indexer was stopped
  unfoldable pub end : Run Stop Indexing → Run String (Option Indexing)
  end (ok this) = ok (some this)
  end (err Stop.canceled) = ok none
  end (err (Stop.failed e)) = err e
  end panicked = panicked
  end unfinished = unfinished

  -- the state of the loop after the events that its streams have produced so far
  unfoldable pub run_indexer : ℕ → List (Event R) → IndexingState R → Run String (Option Indexing)
  run_indexer fuel events ctx = end (start ctx [] >>= on_events fuel events)
