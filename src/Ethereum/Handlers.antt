-- ===== src/Ethereum/Handlers.antt =====
-- Which handlers of a data source a trigger is for: `DataSource` of chain/ethereum/src/data_source.rs.
use test_ci_for_massbitproto.Prelude.{
  ℕ, ◌+◌, Bool, true, false, not, ◌&&◌, ◌||◌, is_some, ltb, if◌then◌else◌, Option, none, some, ite,
  List, [], ◌∷◌, ◌++◌,
}
use test_ci_for_massbitproto.Prelude.Outcome.{Outcome, done, failed, panic, ◌>>=◌}
use test_ci_for_massbitproto.Ethereum.Types.{
  Web3, DataSource, EthereumCall, FunctionSelector, MappingCallHandler, MappingBlockHandler,
  MappingEventHandler, BlockHandlerFilter, selector_discrete, first_four, event_topic0,
}
use test_ci_for_massbitproto.Ethereum.Trigger.{EthereumTrigger, EthereumBlockTriggerType, Log}

pub data IndexerManifestValidationError : Type 0 where
  source_address_required data_source_block_handler_limit_exceeded : IndexerManifestValidationError

abbrev pub has_no_filter : MappingBlockHandler → Bool
has_no_filter handler = not (is_some handler.filter)

abbrev pub has_call_filter : MappingBlockHandler → Bool
has_call_filter handler = elim handler.filter [
  | none ↦ false
  | some f ↦ elim f [ BlockHandlerFilter.call ↦ true ]
]

-- `iter().find(..)`
abbrev pub find {ℓ} : {A : Type ℓ} → (A → Bool) → List A → Option A
find pred [] = none
find pred (x ∷ xs) = let rest = find pred xs in if pred x then some x else rest

abbrev pub filter {ℓ} : {A : Type ℓ} → (A → Bool) → List A → List A
filter pred [] = []
filter pred (x ∷ xs) = let rest = filter pred xs in if pred x then x ∷ rest else rest

-- the number of the elements that satisfy a test
abbrev pub count {ℓ} : {A : Type ℓ} → (A → Bool) → List A → ℕ
count pred [] = 0
count pred (x ∷ xs) = (if pred x then 1 else 0) + count pred xs

abbrev pub is_empty {ℓ} : {A : Type ℓ} → List A → Bool
is_empty [] = true
is_empty (x ∷ xs) = false

module _ (W : Web3) where
  abbrev pub has_topic0 : W.H256 → MappingEventHandler W → Bool
  has_topic0 topic0 handler = ite (W.h256_discrete topic0 (event_topic0 W handler)) true false

  unfoldable pub handlers_for_log : DataSource W → Log W → Outcome (List (MappingEventHandler W))
  handlers_for_log ds log = elim log.topics [
    | [] ↦ failed "Ethereum event has no topics"
    | topic0 ∷ rest ↦ done (filter (has_topic0 topic0) ds.mapping.event_handlers)
  ]

  abbrev pub has_selector : FunctionSelector → MappingCallHandler → Bool
  has_selector target handler =
      ite (selector_discrete target (W.keccak256_selector handler.function)) true false

  -- `ensure!` that there are four bytes, and the slice of them
  unfoldable pub target_method_id : List ℕ → Outcome FunctionSelector
  target_method_id input = elim (first_four input) [
    | done id ↦ done id
    | failed e ↦ failed e
    | panic ↦ failed "Ethereum call has input with less than 4 bytes"
  ]

  unfoldable pub handler_for_call :
      DataSource W → EthereumCall W → Outcome (Option MappingCallHandler)
  handler_for_call ds call = do
    target ← target_method_id call.input
    done (find (has_selector target) ds.mapping.call_handlers)

  unfoldable pub handler_for_block :
      DataSource W → EthereumBlockTriggerType W → Option MappingBlockHandler
  handler_for_block ds EthereumBlockTriggerType.every = find has_no_filter ds.mapping.block_handlers
  handler_for_block ds (EthereumBlockTriggerType.with_call_to address) =
      find has_call_filter ds.mapping.block_handlers

  abbrev pub same_address : W.Address → W.Address → Bool
  same_address a b = ite (W.address_discrete a b) true false

  unfoldable pub matches_address : W.Address → EthereumTrigger W → Bool
  matches_address ds_address (EthereumTrigger.block n h EthereumBlockTriggerType.every) = true
  matches_address ds_address
        (EthereumTrigger.block n h (EthereumBlockTriggerType.with_call_to address)) =
      same_address ds_address address
  matches_address ds_address (EthereumTrigger.call c) = same_address ds_address c.to
  matches_address ds_address (EthereumTrigger.log l) = same_address ds_address l.address

  -- A data source without an address matches every trigger.
  unfoldable pub matches_trigger_address : DataSource W → EthereumTrigger W → Bool
  matches_trigger_address ds trigger = elim ds.source.address [
    | none ↦ true
    | some ds_address ↦ matches_address ds_address trigger
  ]

  unfoldable pub validate : DataSource W → List IndexerManifestValidationError
  validate ds =
      let m = ds.mapping in
      (if not (is_some ds.source.address)
          && (not (is_empty m.call_handlers) || not (is_empty m.block_handlers))
        then IndexerManifestValidationError.source_address_required ∷ []
        else [])
      ++ (if ltb 1 (count has_no_filter m.block_handlers)
            || ltb 1 (count (λ h. is_some h.filter) m.block_handlers)
          then IndexerManifestValidationError.data_source_block_handler_limit_exceeded ∷ []
          else [])
