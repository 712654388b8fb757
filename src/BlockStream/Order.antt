-- ===== src/BlockStream/Order.antt =====
-- The order in which massbit/src/blockchain/polling_block_stream.rs yields the blocks.
use test_ci_for_massbitproto.Prelude.{
  ℕ, true, false, ◌≤◌, List, [], ◌∷◌, ◌++◌, ◌≡◌, refl, subst, arith, append_nil,
}
use test_ci_for_massbitproto.Prelude.Outcome.{Outcome, done, panic, bind_inversion, done-injective}
use test_ci_for_massbitproto.BlockStream.Types.{
  Blockchain, BlockWithTriggers, BlockStreamContext, BlockStreamState, PollingBlockStream, Answer,
  Poll, Polled, block_number_max,
}
use test_ci_for_massbitproto.BlockStream.Polling.{
  get_next_step, advance, Settled, settle, on_answer, on_settled, poll_next,
}
use test_ci_for_massbitproto.BlockStream.Scans.{HasSizes, IsPollable, reach, poll_next_lem}

module _ {C : Blockchain} where
  -- the blocks that wait to be yielded
  abbrev pub queue : BlockStreamState C → List (BlockWithTriggers C)
  queue BlockStreamState.begin_reconciliation = []
  queue (BlockStreamState.reconciliation future finished) = []
  queue (BlockStreamState.yielding_blocks blocks) = blocks

  -- the block that a poll yields, if any, before others
  abbrev pub yielded : Poll C → List (BlockWithTriggers C) → List (BlockWithTriggers C)
  yielded Poll.pending rest = rest
  yielded (Poll.error e) rest = rest
  yielded (Poll.process_block b) rest = b ∷ rest

  abbrev pub received : List ((ℕ × ℕ) × List (BlockWithTriggers C)) → List (BlockWithTriggers C)
  received [] = []
  received ((range, blocks) ∷ scanned) = blocks ++ received scanned

  -- From the queue `before`, the poll neither loses nor repeats a block.
  abbrev Keeps : List (BlockWithTriggers C) → Polled C → Type 0
  Keeps before r = before ++ received r.scanned ≡ yielded r.result (queue r.stream.state)

  abbrev settled_queue : Settled C → List (BlockWithTriggers C)
  settled_queue (Settled.yields b rest) = b ∷ rest
  settled_queue (Settled.waits future finished) = []

  queue-settle :
      (ctx : BlockStreamContext C) (state : BlockStreamState C)
      → settled_queue (settle C ctx state) ≡ queue state
  unfolding settle
  queue-settle ctx BlockStreamState.begin_reconciliation = refl
  queue-settle ctx (BlockStreamState.reconciliation future finished) = refl
  queue-settle ctx (BlockStreamState.yielding_blocks []) = refl
  queue-settle ctx (BlockStreamState.yielding_blocks (b ∷ rest)) = refl

  on_settled-Keeps :
      (next : PollingBlockStream C → Outcome (Polled C)) (ctx : BlockStreamContext C)
      (answer : Answer C) (st : Settled C) (r : Polled C)
      → on_settled C next ctx answer st ≡ done r
      → ((blocks : List (BlockWithTriggers C)) (d : BlockStreamContext C) (r' : Polled C)
          → next (record { state = BlockStreamState.yielding_blocks blocks; ctx = d }) ≡ done r'
          → Keeps blocks r')
      → Keeps (settled_queue st) r
  unfolding on_settled on_answer
  on_settled-Keeps next ctx answer (Settled.yields b rest) r h keeps =
      subst (Keeps (b ∷ rest)) (done-injective h) (append_nil (b ∷ rest))
  on_settled-Keeps next ctx answer (Settled.waits future true) r h keeps =
      absurd (ground (arith, h))
  on_settled-Keeps next ctx Answer.pending (Settled.waits future false) r h keeps =
      let (step, first, ends) = bind_inversion (get_next_step C future) _ r h in
      subst (Keeps []) (done-injective ends) refl
  on_settled-Keeps next ctx (Answer.failure e) (Settled.waits future false) r h keeps =
      let (step, first, ends) = bind_inversion (get_next_step C future) _ r h in
      subst (Keeps []) (done-injective ends) refl
  on_settled-Keeps next ctx (Answer.blocks blocks) (Settled.waits future false) r h keeps =
      let (step, first, ends) = bind_inversion (get_next_step C future) _ r h in
      let (d, second, ends') = bind_inversion (advance C blocks step.2 ctx) _ r ends in
      let (polled, third, last) =
        bind_inversion (next (record { state = BlockStreamState.yielding_blocks blocks; ctx = d }))
          _ r ends' in
      subst (Keeps []) (done-injective last) (keeps blocks d polled third)

  poll_next-Keeps :
      (answers : List (Answer C)) (s : PollingBlockStream C) (r : Polled C)
      → poll_next C answers s ≡ done r
      → Keeps (queue s.state) r
  unfolding poll_next
  poll_next-Keeps [] s r h =
      subst (λ q. Keeps q r) (queue-settle s.ctx s.state)
        (on_settled-Keeps (λ next. panic) s.ctx Answer.pending (settle C s.ctx s.state) r h
          (λ blocks d r' p. absurd (ground (arith, p))))
  poll_next-Keeps (answer ∷ answers) s r h =
      subst (λ q. Keeps q r) (queue-settle s.ctx s.state)
        (on_settled-Keeps (poll_next C answers) s.ctx answer (settle C s.ctx s.state) r h
          (λ blocks d r' p.
            poll_next-Keeps answers
              (record { state = BlockStreamState.yielding_blocks blocks; ctx = d }) r' p))

  -- A poll of a stream whose future, if any, is not finished, where the previous size of a range is at
  -- least 1 and at most the greatest one, ten times the greatest size is at most `i32::MAX`, and no block
  -- number can exceed `i32::MAX` with these answers, gives a result that neither loses nor repeats a block
  -- nor changes the order: the blocks that waited and then those that the adapter answered with are the block that is yielded, if any,
  -- and then those that wait.
  pub poll_next-order :
      (answers : List (Answer C)) (s : PollingBlockStream C)
      → HasSizes s.ctx
      → IsPollable s
      → reach s.ctx.stream_ptr s.ctx.max_block_range_size answers ≤ block_number_max
      → (r : Polled C) × (poll_next C answers s ≡ done r)
        × (queue s.state ++ received r.scanned ≡ yielded r.result (queue r.stream.state))
  poll_next-order answers s sizes pollable room =
      let (r, e, sizes', tiles, after) = poll_next_lem answers s sizes pollable room in
      (r, e, poll_next-Keeps answers s r e)
