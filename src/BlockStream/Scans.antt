-- ===== src/BlockStream/Scans.antt =====
-- The ranges of blocks that massbit/src/blockchain/polling_block_stream.rs scans.
use test_ci_for_massbitproto.Prelude.{
  ℕ, ◌+◌, ◌*◌, ◌≤◌, true, false, List, [], ◌∷◌, ◌≡◌, refl, arith, sum, subst,
}
use test_ci_for_massbitproto.Prelude.Outcome.{Outcome, done, panic}
use test_ci_for_massbitproto.BlockStream.Types.{
  Blockchain, BlockWithTriggers, trigger_count, BlockStreamContext, BlockStreamState,
  PollingBlockStream, Answer, Poll, Polled, min_nat, block_number_max,
}
use test_ci_for_massbitproto.BlockStream.Polling.{
  range_size, get_next_step, advance, Settled, settle, stopped, on_answer, on_settled, poll_next,
}

-- Ranges that follow each other without a gap or an overlap, from the block after `start` to `stop`.
abbrev pub Tiles : {B : Type 0} → ℕ → List ((ℕ × ℕ) × B) → ℕ → Type 0
Tiles start [] stop = start ≡ stop
Tiles start (((from, to), blocks) ∷ rest) stop =
    (from ≡ start + 1) × (from ≤ to) × Tiles to rest stop

-- What the block pointer may reach with these answers, and the range that is asked for next.
abbrev pub reach {ℓ} : {A : Type ℓ} → ℕ → ℕ → List A → ℕ
reach ptr size [] = ptr + 1 + size
reach ptr size (a ∷ answers) = reach (ptr + size) size answers

reach_mono :
    {A : Type 0} (answers : List A) (size p q : ℕ)
    → p ≤ q
    → reach p size answers ≤ reach q size answers
reach_mono [] size p q h = omega (arith, h)
reach_mono (a ∷ answers) size p q h =
    reach_mono answers size (p + size) (q + size) (omega (arith, h))

reach-room : {A : Type 0} (answers : List A) (size p : ℕ) → p + 1 + size ≤ reach p size answers
reach-room [] size p = omega arith
reach-room (a ∷ answers) size p = omega (arith, reach-room answers size (p + size))

module _ {C : Blockchain} where
  -- The sizes of the ranges, the previous one and the greatest, are sensible.
  abbrev pub HasSizes : BlockStreamContext C → Type 0
  HasSizes ctx =
      (1 ≤ ctx.previous_block_range_size)
      × (ctx.previous_block_range_size ≤ ctx.max_block_range_size)
      × (ctx.max_block_range_size * 10 ≤ block_number_max)

  -- A future that is polled has the stream's context, and is not finished.
  abbrev pub IsPollable : PollingBlockStream C → Type 0
  IsPollable s = elim s.state [
    | BlockStreamState.begin_reconciliation ↦ Unit
    | BlockStreamState.reconciliation future finished ↦ (future ≡ s.ctx) × (finished ≡ false)
    | BlockStreamState.yielding_blocks blocks ↦ Unit
  ]

  range_size-bounds :
      (ctx : BlockStreamContext C) (upper : ℕ)
      → 1 ≤ upper
      → (1 ≤ range_size C ctx upper) × (range_size C ctx upper ≤ upper)
  unfolding range_size
  range_size-bounds ctx upper h =
      let bounds =
        C.float.clamp
          (C.float.div (C.float.of_nat ctx.target_triggers_per_block_range)
            ctx.previous_triggers_per_block)
          upper h in
      ground (arith, bounds.0, bounds.1)

  get_next_step_lem :
      (ctx : BlockStreamContext C)
      → HasSizes ctx
      → ctx.stream_ptr + 1 + ctx.max_block_range_size ≤ block_number_max
      → (size : ℕ) × (1 ≤ size)
        × (size ≤ ctx.max_block_range_size)
        × (get_next_step C ctx ≡ done (ctx.stream_ptr + 1, ctx.stream_ptr + size, size))
  unfolding get_next_step
  get_next_step_lem ctx (some_size, at_most, small) room =
      let upper = min_nat ctx.max_block_range_size (ctx.previous_block_range_size * 10) in
      let bounds = range_size-bounds ctx upper (ground arith) in
      let size = range_size C ctx upper in
      let under : size ≤ ctx.max_block_range_size = ground (arith, bounds.1) in
      (size, bounds.0, under, ground (arith, bounds.0, under))

  -- The stream holds a future that is finished.
  abbrev pub IsFinished : PollingBlockStream C → Type 0
  IsFinished s = elim s.state [
    | BlockStreamState.begin_reconciliation ↦ ⊥
    | BlockStreamState.reconciliation future finished ↦ finished ≡ true
    | BlockStreamState.yielding_blocks blocks ↦ ⊥
  ]

  -- After an error the stream holds a finished future; after any other result it can be polled.
  abbrev pub After : Poll C → PollingBlockStream C → Type 0
  After Poll.pending s = IsPollable s
  After (Poll.error e) s = IsFinished s
  After (Poll.process_block b) s = IsPollable s

  -- A poll gives a result, and the ranges it scanned follow each other from the pointer on.
  abbrev pub Scans : BlockStreamContext C → Outcome (Polled C) → Type 0
  Scans ctx outcome =
      (r : Polled C) × (outcome ≡ done r)
      × HasSizes r.stream.ctx
      × Tiles ctx.stream_ptr r.scanned r.stream.ctx.stream_ptr
      × After r.result r.stream

  abbrev IsReady : BlockStreamContext C → Settled C → Type 0
  IsReady ctx (Settled.yields b rest) = Unit
  IsReady ctx (Settled.waits future finished) = (future ≡ ctx) × (finished ≡ false)

  settle-IsReady :
      (s : PollingBlockStream C) (state : BlockStreamState C)
      → IsPollable (record s { state = state })
      → IsReady s.ctx (settle C s.ctx state)
  unfolding settle
  settle-IsReady s BlockStreamState.begin_reconciliation h = (refl, refl)
  settle-IsReady s (BlockStreamState.reconciliation future finished) h = h
  settle-IsReady s (BlockStreamState.yielding_blocks []) h = (refl, refl)
  settle-IsReady s (BlockStreamState.yielding_blocks (b ∷ rest)) h = tt

  advance_lem :
      (blocks : List (BlockWithTriggers C)) (size : ℕ) (ctx : BlockStreamContext C)
      → HasSizes ctx
      → 1 ≤ size
      → size ≤ ctx.max_block_range_size
      → ctx.stream_ptr + size ≤ block_number_max
      → (d : BlockStreamContext C) × (advance C blocks size ctx ≡ done d)
        × HasSizes d
        × (d.stream_ptr ≡ ctx.stream_ptr + size)
        × (d.max_block_range_size ≡ ctx.max_block_range_size)
  unfolding advance
  advance_lem blocks size ctx (a, b, c) some_size at_most room = (
    record ctx {
      previous_triggers_per_block =
          C.float.div (C.float.of_nat (sum trigger_count blocks)) (C.float.of_nat size);
      previous_block_range_size = size;
      stream_ptr = ctx.stream_ptr + size;
    },
    ground (arith, room),
    (some_size, at_most, c),
    refl,
    refl,
  )

  -- One round of the loop, where the next one scans ranges that follow each other.
  on_settled_lem :
      (next : PollingBlockStream C → Outcome (Polled C)) (ctx : BlockStreamContext C)
      (answer : Answer C) (st : Settled C)
      → HasSizes ctx
      → IsReady ctx st
      → ctx.stream_ptr + 1 + ctx.max_block_range_size ≤ block_number_max
      → ((blocks : List (BlockWithTriggers C)) (d : BlockStreamContext C)
          → answer ≡ Answer.blocks blocks
          → HasSizes d
          → d.max_block_range_size ≡ ctx.max_block_range_size
          → d.stream_ptr ≤ ctx.stream_ptr + ctx.max_block_range_size
          → Scans d (next (record { state = BlockStreamState.yielding_blocks blocks; ctx = d })))
      → Scans ctx (on_settled C next ctx answer st)
  unfolding on_settled on_answer
  on_settled_lem next ctx answer (Settled.yields b rest) sizes ready room goes =
      (_, refl, sizes, refl, tt)
  on_settled_lem next ctx answer (Settled.waits future true) sizes ready room goes =
      absurd (ground (arith, ready.1))
  on_settled_lem next ctx Answer.pending (Settled.waits future false) sizes ready room goes =
      let (size, some_size, at_most, step) = get_next_step_lem ctx sizes room in
      (
        stopped C ctx (BlockStreamState.reconciliation future false) Poll.pending,
        ground (arith, step, ready.0),
        sizes,
        refl,
        (ready.0, refl),
      )
  on_settled_lem next ctx (Answer.failure e) (Settled.waits future false) sizes ready room goes =
      let (size, some_size, at_most, step) = get_next_step_lem ctx sizes room in
      (
        stopped C ctx (BlockStreamState.reconciliation future true) (Poll.error e),
        ground (arith, step, ready.0),
        sizes,
        refl,
        refl,
      )
  on_settled_lem next ctx (Answer.blocks blocks) (Settled.waits future false) sizes ready room
        goes =
      let (size, some_size, at_most, step) = get_next_step_lem ctx sizes room in
      let (d, advances, sizes', ptr, max') =
        advance_lem blocks size ctx sizes some_size at_most (omega (arith, room, at_most)) in
      let (r, polls, sizes'', tiles, after) =
        goes blocks d refl sizes' max' (omega (arith, ptr, at_most)) in
      (
        record r { scanned = ((ctx.stream_ptr + 1, ctx.stream_ptr + size), blocks) ∷ r.scanned },
        ground (arith, step, ready.0, advances, polls),
        sizes'',
        (
          refl,
          omega (arith, some_size),
          subst (λ p. Tiles p r.scanned r.stream.ctx.stream_ptr) ptr tiles,
        ),
        after,
      )

  -- A poll of a stream whose future, if any, is not finished, where the previous size of a range is at
  -- least 1 and at most the greatest one, ten times the greatest size is at most `i32::MAX`, and no block
  -- number can exceed `i32::MAX` with these answers: it gives a result, whatever the adapter answers, and
  -- the ranges for which the adapter answered with blocks follow each other without a gap or an overlap,
  -- from the block after the pointer of the stream before the poll to the one of the stream after it. The stream can be polled
  -- again, unless the result is an error: then its future is finished.
  pub poll_next_lem :
      (answers : List (Answer C)) (s : PollingBlockStream C)
      → HasSizes s.ctx
      → IsPollable s
      → reach s.ctx.stream_ptr s.ctx.max_block_range_size answers ≤ block_number_max
      → Scans s.ctx (poll_next C answers s)
  unfolding poll_next
  poll_next_lem [] s sizes pollable room =
      on_settled_lem (λ next. panic) s.ctx Answer.pending (settle C s.ctx s.state) sizes
        (settle-IsReady s s.state pollable) room (λ blocks d p. absurd (ground (arith, p)))
  poll_next_lem (answer ∷ answers) s sizes pollable room =
      on_settled_lem (poll_next C answers) s.ctx answer (settle C s.ctx s.state) sizes
        (settle-IsReady s s.state pollable)
        (omega
          (arith, room, reach-room (answer ∷ answers) s.ctx.max_block_range_size s.ctx.stream_ptr))
        (λ blocks d p sizes' same ptr.
          poll_next_lem answers
            (record { state = BlockStreamState.yielding_blocks blocks; ctx = d }) sizes' tt
            (ground (
              arith,
              same,
              room,
              reach_mono answers s.ctx.max_block_range_size d.stream_ptr
                  (s.ctx.stream_ptr + s.ctx.max_block_range_size) ptr,
            )))
