-- ===== src/BlockStream/Errors.antt =====
-- What follows an error of a stream of massbit/src/blockchain/polling_block_stream.rs.
use test_ci_for_massbitproto.Prelude.{String, true, false, List, [], ◌∷◌, ◌≡◌, refl, subst, arith}
use test_ci_for_massbitproto.Prelude.Outcome.{Outcome, done, panic, bind_inversion, done-injective}
use test_ci_for_massbitproto.BlockStream.Types.{
  Blockchain, BlockStreamContext, BlockStreamState, PollingBlockStream, Answer, Poll, Polled,
}
use test_ci_for_massbitproto.BlockStream.Polling.{
  get_next_step, advance, Settled, settle, on_answer, on_settled, poll_next,
}
use test_ci_for_massbitproto.BlockStream.Scans.{IsFinished}

module _ {C : Blockchain} where
  settled_panic :
      (next : PollingBlockStream C → Outcome (Polled C)) (s : PollingBlockStream C)
      (state : BlockStreamState C)
      → IsFinished (record s { state = state })
      → (answer : Answer C) → on_settled C next s.ctx answer (settle C s.ctx state) ≡ panic
  unfolding settle on_settled
  settled_panic next s BlockStreamState.begin_reconciliation h answer = absurd h
  settled_panic next s (BlockStreamState.yielding_blocks blocks) h answer = absurd h
  settled_panic next s (BlockStreamState.reconciliation future true) h answer = refl
  settled_panic next s (BlockStreamState.reconciliation future false) h answer =
      absurd (ground (arith, h))

  -- where the result is an error, the future of the stream is finished
  abbrev Ends : Poll C → PollingBlockStream C → Type 0
  Ends Poll.pending s = Unit
  Ends (Poll.error e) s = IsFinished s
  Ends (Poll.process_block b) s = Unit

  on_settled-Ends :
      (next : PollingBlockStream C → Outcome (Polled C)) (ctx : BlockStreamContext C)
      (answer : Answer C) (st : Settled C) (r : Polled C)
      → on_settled C next ctx answer st ≡ done r
      → ((s : PollingBlockStream C) (r' : Polled C) → next s ≡ done r' → Ends r'.result r'.stream)
      → Ends r.result r.stream
  unfolding on_settled on_answer
  on_settled-Ends next ctx answer (Settled.yields b rest) r h ends =
      subst (λ r. Ends r.result r.stream) (done-injective h) tt
  on_settled-Ends next ctx answer (Settled.waits future true) r h ends = absurd (ground (arith, h))
  on_settled-Ends next ctx Answer.pending (Settled.waits future false) r h ends =
      let (step, first, last) = bind_inversion (get_next_step C future) _ r h in
      subst (λ r. Ends r.result r.stream) (done-injective last) tt
  on_settled-Ends next ctx (Answer.failure e) (Settled.waits future false) r h ends =
      let (step, first, last) = bind_inversion (get_next_step C future) _ r h in
      subst (λ r. Ends r.result r.stream) (done-injective last) refl
  on_settled-Ends next ctx (Answer.blocks blocks) (Settled.waits future false) r h ends =
      let (step, first, rest) = bind_inversion (get_next_step C future) _ r h in
      let (d, second, rest') = bind_inversion (advance C blocks step.2 ctx) _ r rest in
      let s : PollingBlockStream C = record {
        state = BlockStreamState.yielding_blocks blocks;
        ctx = d;
      } in
      let (polled, third, last) = bind_inversion (next s) _ r rest' in
      subst (λ r. Ends r.result r.stream) (done-injective last) (ends s polled third)

  poll_next-Ends :
      (answers : List (Answer C)) (s : PollingBlockStream C) (r : Polled C)
      → poll_next C answers s ≡ done r
      → Ends r.result r.stream
  unfolding poll_next
  poll_next-Ends [] s r h =
      on_settled-Ends (λ next. panic) s.ctx Answer.pending (settle C s.ctx s.state) r h
        (λ s' r' p. absurd (ground (arith, p)))
  poll_next-Ends (answer ∷ answers) s r h =
      on_settled-Ends (poll_next C answers) s.ctx answer (settle C s.ctx s.state) r h
        (λ s' r' p. poll_next-Ends answers s' r' p)

  polled_panic :
      (answers : List (Answer C)) (s : PollingBlockStream C)
      → IsFinished s
      → poll_next C answers s ≡ panic
  unfolding poll_next
  polled_panic [] s h = settled_panic (λ next. panic) s s.state h Answer.pending
  polled_panic (answer ∷ answers) s h = settled_panic (poll_next C answers) s s.state h answer

  -- After a poll whose result is an error, whatever the stream and the answers were, the next poll
  -- panics, whatever the adapter would answer.
  pub poll_next-error :
      (answers later : List (Answer C)) (s : PollingBlockStream C) (r : Polled C) (e : String)
      → poll_next C answers s ≡ done r
      → r.result ≡ Poll.error e
      → poll_next C later r.stream ≡ panic
  poll_next-error answers later s r e h failed =
      polled_panic later r.stream
        (subst (λ p. Ends p r.stream) failed (poll_next-Ends answers s r h))
