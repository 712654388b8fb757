-- ===== src/BlockStream/Polling.antt =====
-- `PollingBlockStream::new`, `get_next_step`, `next_blocks` and `poll_next` of
-- massbit/src/blockchain/polling_block_stream.rs.
use test_ci_for_massbitproto.Prelude.{
  ℕ, ◌+◌, ◌*◌, Bool, true, false, if◌then◌else◌, List, [], ◌∷◌, sum,
}
use test_ci_for_massbitproto.Prelude.Outcome.{Outcome, done, panic, ◌>>=◌, checked_sub}
use test_ci_for_massbitproto.BlockStream.Types.{
  Blockchain, BlockWithTriggers, trigger_count, BlockStreamContext, BlockStreamState,
  PollingBlockStream, Answer, Poll, Polled, checked_i32, min_nat,
}

module _ (C : Blockchain) where
  unfoldable pub new : ℕ → ℕ → ℕ → PollingBlockStream C
  new stream_ptr max_block_range_size target = record {
    state = BlockStreamState.begin_reconciliation;
    ctx = record {
      stream_ptr = stream_ptr;
      previous_triggers_per_block = C.float.of_nat 1000000;
      previous_block_range_size = 1;
      max_block_range_size = max_block_range_size;
      target_triggers_per_block_range = target;
    };
  }

  -- the size of the range, at most `upper`
  unfoldable pub range_size : BlockStreamContext C → ℕ → ℕ
  range_size ctx upper =
      if C.float.is_zero ctx.previous_triggers_per_block
      then upper
      else C.float.to_i32 (
          C.float.min
            (C.float.max
              (C.float.div (C.float.of_nat ctx.target_triggers_per_block_range)
                ctx.previous_triggers_per_block)
              (C.float.of_nat 1))
            (C.float.of_nat upper))

  -- The range that `get_next_step` scans: its ends and its size.
  unfoldable pub get_next_step : BlockStreamContext C → Outcome (ℕ × ℕ × ℕ)
  get_next_step ctx = do
    from ← checked_i32 (ctx.stream_ptr + 1)
    scaled ← checked_i32 (ctx.previous_block_range_size * 10)
    let size = range_size ctx (min_nat ctx.max_block_range_size scaled)
    end ← checked_i32 (from + size)
    to ← checked_sub end 1
    done (from, to, size)

  -- the context after a range of `size` blocks with these triggers
  unfoldable pub advance :
      List (BlockWithTriggers C) → ℕ → BlockStreamContext C → Outcome (BlockStreamContext C)
  advance next_blocks size ctx = do
    ptr ← checked_i32 (ctx.stream_ptr + size)
    done (record ctx {
      previous_triggers_per_block =
          C.float.div (C.float.of_nat (sum trigger_count next_blocks)) (C.float.of_nat size);
      previous_block_range_size = size;
      stream_ptr = ptr;
    })

  -- Where the loop of `poll_next` gets to without an answer of the future: a block to yield, or a
  -- future to poll.
  pub data Settled : Type 0 where
    yields : BlockWithTriggers C → List (BlockWithTriggers C) → Settled
    waits : BlockStreamContext C → (finished : Bool) → Settled

  unfoldable pub settle : BlockStreamContext C → BlockStreamState C → Settled
  settle ctx BlockStreamState.begin_reconciliation = waits ctx false
  settle ctx (BlockStreamState.reconciliation future finished) = waits future finished
  settle ctx (BlockStreamState.yielding_blocks []) = waits ctx false
  settle ctx (BlockStreamState.yielding_blocks (b ∷ rest)) = yields b rest

  abbrev pub stopped : BlockStreamContext C → BlockStreamState C → Poll C → Polled C
  stopped ctx state result = record {
    stream = record { state = state; ctx = ctx };
    result = result;
    scanned = [];
  }

  -- The future has finished with an answer: `next` is the loop's next round.
  unfoldable pub on_answer :
      (PollingBlockStream C → Outcome (Polled C))
      → BlockStreamContext C
      → BlockStreamContext C
      → ℕ × ℕ × ℕ
      → Answer C
      → Outcome (Polled C)
  on_answer next ctx future (from, to, size) Answer.pending =
      done (stopped ctx (BlockStreamState.reconciliation future false) Poll.pending)
  on_answer next ctx future (from, to, size) (Answer.failure e) =
      done (stopped ctx (BlockStreamState.reconciliation future true) (Poll.error e))
  on_answer next ctx future (from, to, size) (Answer.blocks next_blocks) = do
    ctx' ← advance next_blocks size ctx
    polled ← next (record { state = BlockStreamState.yielding_blocks next_blocks; ctx = ctx' })
    done (record polled { scanned = ((from, to), next_blocks) ∷ polled.scanned })

  -- A finished future that is polled again panics.
  unfoldable pub on_settled :
      (PollingBlockStream C → Outcome (Polled C))
      → BlockStreamContext C
      → Answer C
      → Settled
      → Outcome (Polled C)
  on_settled next ctx answer (yields b rest) =
      done (stopped ctx (BlockStreamState.yielding_blocks rest) (Poll.process_block b))
  on_settled next ctx answer (waits future true) = panic
  on_settled next ctx answer (waits future false) = do
    step ← get_next_step future
    on_answer next ctx future step answer

  -- The answers are those of the futures that are polled in this call, in their order. After the last
  -- of them the future is pending.
  unfoldable pub poll_next : List (Answer C) → PollingBlockStream C → Outcome (Polled C)
  poll_next [] s = on_settled (λ next. panic) s.ctx Answer.pending (settle s.ctx s.state)
  poll_next (answer ∷ answers) s =
      on_settled (poll_next answers) s.ctx answer (settle s.ctx s.state)
