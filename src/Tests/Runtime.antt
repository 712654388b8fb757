-- ===== src/Tests/Runtime.antt =====
-- A stream of blocks, a timed cache, a heap in memory and block pointers.
use test_ci_for_massbitproto.Prelude.{
  true, ℕ, ◌+◌, ◌/◌, ◌≤◌, text_discrete, leb, ◌==◌, if◌then◌else◌, String, none, some, List, [],
  ◌∷◌, ◌++◌, ◌≡◌, refl, arith,
}
use test_ci_for_massbitproto.Prelude.Int.{pos, negsuc}
use test_ci_for_massbitproto.Prelude.Outcome.{done, failed, panic}
use test_ci_for_massbitproto.BlockStream.Types.{
  Float64, Blockchain, Answer, PollingBlockStream, min_nat,
}
use test_ci_for_massbitproto.BlockStream.Polling as Stream
use test_ci_for_massbitproto.BlockStream.Scans.{Scans, poll_next_lem}
use test_ci_for_massbitproto.BlockStream.Errors.{poll_next-error}
use test_ci_for_massbitproto.BlockStream.Types.{Poll, Polled, BlockStreamState}
use test_ci_for_massbitproto.BlockStream.Order.{queue, received, yielded, poll_next-order}
use test_ci_for_massbitproto.TimedCache
use test_ci_for_massbitproto.TimedCache.{Call, get_at-run}
use test_ci_for_massbitproto.BlockPtr.{from_u64, from_i64, try_from_bytes}

abbrev max_nat : ℕ → ℕ → ℕ
max_nat a b = if leb a b then b else a

clamp_nat : (x n : ℕ) → 1 ≤ n → (1 ≤ min_nat (max_nat x 1) n) × (min_nat (max_nat x 1) n ≤ n)
clamp_nat x n h = (ground arith, ground arith)

-- numbers without a fraction
abbrev whole_numbers : Float64
whole_numbers = record {
  F = ℕ;
  is_zero = λ x. x == 0;
  of_nat = λ n. n;
  div = λ a b. a / b;
  max = max_nat;
  min = min_nat;
  to_i32 = λ x. x;
  clamp = clamp_nat;
}

abbrev C : Blockchain
C = record { Block = ℕ; TriggerData = String; float = whole_numbers }

abbrev stream : PollingBlockStream C
stream = Stream.new C 41 1000 100

-- no block with triggers in the first range, and two in the second
abbrev answers : List (Answer C)
answers =
    Answer.blocks []
    ∷ Answer.blocks (
        record { block = 45; trigger_data = "a" ∷ "b" ∷ [] }
        ∷ record { block = 47; trigger_data = "c" ∷ [] }
        ∷ [])
    ∷ []

poll_next_lem_example : Scans stream.ctx (Stream.poll_next C answers stream)
unfolding Stream.new
poll_next_lem_example =
    poll_next_lem answers stream (omega arith, omega arith, omega arith) tt (omega arith)

abbrev calls : List (Call String ℕ)
calls = Call.set "a" 1 10 ∷ Call.set "b" 2 20 ∷ Call.clear_all ∷ Call.set "a" 3 30 ∷ []

get_at-run_example :
    TimedCache.get_at text_discrete "a" 35
      (TimedCache.run text_discrete calls (TimedCache.new text_discrete 5))
    ≡ elim (TimedCache.last_set text_discrete "a" calls none) [
      | none ↦ none
      | some (value, time) ↦ if leb 35 (time + 5) then some value else none
    ]
get_at-run_example = get_at-run text_discrete calls 5 "a" 35

-- a hash that is too short, whatever the number
short_hash :
    try_from_bytes (1 ∷ []) (negsuc 0) ≡ failed "invalid H256 value `{}` has {} bytes instead of {}"
unfolding try_from_bytes
short_hash = refl

beyond_i32 : from_i64 (1 ∷ []) (pos 2147483648) ≡ panic
unfolding from_i64 from_u64
beyond_i32 = refl

poll_next-order_example :
    (r : Polled C) × (Stream.poll_next C answers stream ≡ done r)
    × (queue stream.state ++ received r.scanned ≡ yielded r.result (queue r.stream.state))
unfolding Stream.new
poll_next-order_example =
    poll_next-order answers stream (omega arith, omega arith, omega arith) tt (omega arith)

-- an error of the first scan
abbrev failed_poll : Polled C
failed_poll = record {
  stream = record stream { state = BlockStreamState.reconciliation stream.ctx true };
  result = Poll.error "timeout";
  scanned = [];
}

fails : Stream.poll_next C (Answer.failure "timeout" ∷ []) stream ≡ done failed_poll
unfolding Stream.new Stream.poll_next Stream.on_settled Stream.on_answer Stream.settle
    Stream.get_next_step Stream.range_size
fails = refl

poll_next-error_example : Stream.poll_next C (Answer.blocks [] ∷ []) failed_poll.stream ≡ panic
poll_next-error_example =
    poll_next-error (Answer.failure "timeout" ∷ []) (Answer.blocks [] ∷ []) stream failed_poll
      "timeout" fails refl
