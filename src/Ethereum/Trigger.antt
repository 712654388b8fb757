-- ===== src/Ethereum/Trigger.antt =====
-- `EthereumTrigger` of chain/ethereum/src/trigger.rs: its equality and its order, by which the triggers of
-- a block are sorted.
use test_ci_for_massbitproto.Prelude.{
  ℕ, List, Bool, true, false, Option, none, some, ◌≡◌, refl, ap, arith, ◌≤◌, if◌then◌else◌, ◌==◌,
  leb,
}
use Prim.Native.Nat.{Ordering, compare}
use test_ci_for_massbitproto.Prelude.Int.{ℤ, pos}
use test_ci_for_massbitproto.BlockPtr.{block_number_max}
use test_ci_for_massbitproto.Prelude.Outcome.{Outcome, done, panic, ◌>>=◌}
use test_ci_for_massbitproto.Ethereum.Types.{Web3, EthereumCall}

pub data EthereumBlockTriggerType (W : Web3) : Type 0 where
  every : EthereumBlockTriggerType W
  with_call_to : W.Address → EthereumBlockTriggerType W

-- The fields of web3's `Log` that are read here.
pub record Log (W : Web3) : Type 0 where
  pub address : W.Address
  pub topics : List W.H256
  pub block_number : Option ℕ
  pub block_hash : Option W.H256
  pub transaction_hash : Option W.H256
  pub log_index : Option ℕ
  pub transaction_index : Option ℕ

-- `BlockPtr` of a block trigger is the block's number and hash.
pub data EthereumTrigger (W : Web3) : Type 0 where
  block : ℤ → W.H256 → EthereumBlockTriggerType W → EthereumTrigger W
  call : EthereumCall W → EthereumTrigger W
  log : Log W → EthereumTrigger W

abbrev pub unwrap : {A : Type 0} → Option A → Outcome A
unwrap none = panic
unwrap (some n) = done n

-- `cmp` of `Option<U256>`: `None` is the least.
abbrev pub compare_option : Option ℕ → Option ℕ → Ordering
compare_option none none = Ordering.eq
compare_option none (some b) = Ordering.lt
compare_option (some a) none = Ordering.gt
compare_option (some a) (some b) = compare a b

abbrev is_eq : ℕ → ℕ → Bool
is_eq a b = a == b

abbrev pub reverse : Ordering → Ordering
reverse Ordering.lt = Ordering.gt
reverse Ordering.eq = Ordering.eq
reverse Ordering.gt = Ordering.lt

abbrev pub reversed : Outcome Ordering → Outcome Ordering
reversed o = o >>= λ r. done (reverse r)

-- The order is there and is not `Greater`.
abbrev pub not_after : Outcome Ordering → Bool
not_after (done Ordering.gt) = false
not_after (done r) = true
not_after o = false

compare-reverse : (a b : ℕ) → compare b a ≡ reverse (compare a b)
compare-reverse a b = ground arith

compare_option-reverse : (a b : Option ℕ) → compare_option b a ≡ reverse (compare_option a b)
compare_option-reverse none none = refl
compare_option-reverse none (some b) = refl
compare_option-reverse (some a) none = refl
compare_option-reverse (some a) (some b) = compare-reverse a b

module _ {W : Web3} where
  unfoldable pub cmp : EthereumTrigger W → EthereumTrigger W → Outcome Ordering
  cmp (block n h kind) (block n' h' kind') = done Ordering.eq
  cmp (block n h kind) (call b) = done Ordering.gt
  cmp (block n h kind) (log b) = done Ordering.gt
  cmp (call a) (block n h kind) = done Ordering.lt
  cmp (log a) (block n h kind) = done Ordering.lt
  cmp (call a) (call b) = done (compare a.transaction_index b.transaction_index)
  cmp (log a) (log b) = done (compare_option a.log_index b.log_index)
  cmp (call a) (log b) = do
    index ← unwrap b.transaction_index
    done
        (if is_eq a.transaction_index index then Ordering.gt else compare a.transaction_index index)
  cmp (log a) (call b) = do
    index ← unwrap a.transaction_index
    done
        (if is_eq index b.transaction_index then Ordering.lt else compare index b.transaction_index)

  -- a log's block number panics where it is none or exceeds `i32::MAX`
  unfoldable pub block_number : EthereumTrigger W → Outcome ℤ
  block_number (block n h kind) = done n
  block_number (call a) = done a.block_number
  block_number (log a) = do
    n ← unwrap a.block_number
    if leb n block_number_max then done (pos n) else panic

  unfoldable pub block_hash : EthereumTrigger W → Outcome W.H256
  block_hash (block n h kind) = done h
  block_hash (call a) = done a.block_hash
  block_hash (log a) = unwrap a.block_hash

  -- The order of two triggers is the reverse of that of the two swapped, and panics where that does.
  pub cmp-reversed : (a b : EthereumTrigger W) → cmp b a ≡ reversed (cmp a b)
  unfolding cmp
  cmp-reversed (block n h kind) (block n' h' kind') = refl
  cmp-reversed (block n h kind) (call b) = refl
  cmp-reversed (block n h kind) (log b) = refl
  cmp-reversed (call a) (block n h kind) = refl
  cmp-reversed (log a) (block n h kind) = refl
  cmp-reversed (call a) (call b) = ap done (compare-reverse a.transaction_index b.transaction_index)
  cmp-reversed (log a) (log b) = ap done (compare_option-reverse a.log_index b.log_index)
  cmp-reversed (call a) (log b) = ground arith
  cmp-reversed (log a) (call b) = ground arith

  block-last :
      (a : EthereumTrigger W) (n : ℤ) (h : W.H256) (kind : EthereumBlockTriggerType W)
      → not_after (cmp a (block n h kind)) ≡ true
  unfolding cmp
  block-last (block n' h' kind') n h kind = refl
  block-last (call a) n h kind = refl
  block-last (log a) n h kind = refl

  -- The logs of a block are numbered in the order of its transactions: `tx_of` is the transaction
  -- of the log with a number.
  abbrev pub IsIn : (ℕ → ℕ) → EthereumTrigger W → Type 0
  IsIn tx_of (block n h kind) = Unit
  IsIn tx_of (call a) = Unit
  IsIn tx_of (log l) = (i : ℕ) × (l.log_index ≡ some i) × (l.transaction_index ≡ some (tx_of i))

  -- For the triggers of one block, whose logs are numbered in the order of the transactions, the order
  -- is transitive: what does not come after a trigger that does not come after a third one does not
  -- come after that one.
  pub cmp_trans :
      (tx_of : ℕ → ℕ)
      → ((i j : ℕ) → i ≤ j → tx_of i ≤ tx_of j)
      → (a b c : EthereumTrigger W) → IsIn tx_of a
      → IsIn tx_of b
      → IsIn tx_of c
      → not_after (cmp a b) ≡ true
      → not_after (cmp b c) ≡ true
      → not_after (cmp a c) ≡ true
  unfolding cmp
  cmp_trans tx_of mono a b (block n h kind) p q r f g = block-last a n h kind
  cmp_trans tx_of mono a (block n h kind) (call c) p q r f g = absurd (ground arith)
  cmp_trans tx_of mono a (block n h kind) (log c) p q r f g = absurd (ground arith)
  cmp_trans tx_of mono (block n h kind) (call b) c p q r f g = absurd (ground arith)
  cmp_trans tx_of mono (block n h kind) (log b) c p q r f g = absurd (ground arith)
  cmp_trans tx_of mono (call a) (call b) (call c) p q r f g = ground arith
  cmp_trans tx_of mono (call a) (call b) (log c) p q r f g = ground arith
  cmp_trans tx_of mono (call a) (log b) (call c) p q r f g = ground arith
  cmp_trans tx_of mono (log a) (call b) (call c) p q r f g = ground arith
  cmp_trans tx_of mono (call a) (log b) (log c) p q r f g = ground (arith, mono q.0 r.0)
  cmp_trans tx_of mono (log a) (call b) (log c) p q r f g = ground (arith, mono r.0 p.0)
  cmp_trans tx_of mono (log a) (log b) (call c) p q r f g = ground (arith, mono p.0 q.0)
  cmp_trans tx_of mono (log a) (log b) (log c) p q r f g = ground arith
