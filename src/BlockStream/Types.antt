-- ===== src/BlockStream/Types.antt =====
-- The state of massbit/src/blockchain/polling_block_stream.rs. Block numbers are those from 0 on, as for a
-- stream that starts at a block of the chain; an `i32` that overflows is a panic.
use test_ci_for_massbitproto.Prelude.{ℕ, ◌≤◌, Bool, leb, if◌then◌else◌, String, List, length}
use test_ci_for_massbitproto.Prelude.Outcome.{Outcome, done, panic}

-- What is used of `f64`. `clamp`: the conversion to `i32` of `x.max(1.0).min(n)` lies between 1 and
-- `n`, for every `x`.
pub record Float64 : Type 1 where
  pub F : Type 0
  pub is_zero : F → Bool
  pub of_nat : ℕ → F
  pub div : F → F → F
  pub max : F → F → F
  pub min : F → F → F
  pub to_i32 : F → ℕ
  pub clamp :
      (x : F) (n : ℕ)
      → 1 ≤ n
      → (1 ≤ to_i32 (min (max x (of_nat 1)) (of_nat n)))
        × (to_i32 (min (max x (of_nat 1)) (of_nat n)) ≤ n)

-- The chain's types, and the floating-point numbers.
pub record Blockchain : Type 1 where
  pub Block : Type 0
  pub TriggerData : Type 0
  pub float : Float64

pub record BlockWithTriggers (C : Blockchain) : Type 0 where
  pub block : C.Block
  pub trigger_data : List C.TriggerData

abbrev pub trigger_count : {C : Blockchain} → BlockWithTriggers C → ℕ
trigger_count b = length b.trigger_data

pub record BlockStreamContext (C : Blockchain) : Type 0 where
  pub stream_ptr : ℕ
  pub previous_triggers_per_block : C.float.F
  pub previous_block_range_size : ℕ
  pub max_block_range_size : ℕ
  pub target_triggers_per_block_range : ℕ

-- A future of `next_blocks` has the copy of the context that it was made with, and may be finished.
pub data BlockStreamState (C : Blockchain) : Type 0 where
  begin_reconciliation : BlockStreamState C
  reconciliation : BlockStreamContext C → (finished : Bool) → BlockStreamState C
  yielding_blocks : List (BlockWithTriggers C) → BlockStreamState C

pub record PollingBlockStream (C : Blockchain) : Type 0 where
  pub state : BlockStreamState C
  pub ctx : BlockStreamContext C

-- What the future gives when it is polled, as the adapter's `scan_triggers` answers.
pub data Answer (C : Blockchain) : Type 0 where
  pending : Answer C
  failure : String → Answer C
  blocks : List (BlockWithTriggers C) → Answer C

-- `Poll<Option<Result<BlockStreamEvent, Error>>>`; the stream does not end.
pub data Poll (C : Blockchain) : Type 0 where
  pending : Poll C
  error : String → Poll C
  process_block : BlockWithTriggers C → Poll C

-- The outcome of a poll: the stream, what is returned, and the calls of `scan_triggers` that were answered
-- with blocks: the range `[from, to]` of each and its blocks, in the order of the calls.
pub record Polled (C : Blockchain) : Type 0 where
  pub stream : PollingBlockStream C
  pub result : Poll C
  pub scanned : List ((ℕ × ℕ) × List (BlockWithTriggers C))

-- `i32::MAX`
abbrev pub block_number_max : ℕ
block_number_max = 2147483647

abbrev pub checked_i32 : ℕ → Outcome ℕ
checked_i32 n = if leb n block_number_max then done n else panic

abbrev pub min_nat : ℕ → ℕ → ℕ
min_nat a b = if leb a b then a else b
