-- ===== src/Tests/Filters.antt =====
-- The filters and the triggers of two contracts.
use test_ci_for_massbitproto.Prelude.{
  ℕ, ◌<◌, Bool, length, ◌⊎◌, ◌↔◌, ◌≢◌, true, false, ◌||◌, String, none, some, List, [], ◌∷◌, ◌≡◌,
  refl, inl, inr, ℕ_discrete, ite, text_discrete,
}
use test_ci_for_massbitproto.Prelude.Int.{pos}
use test_ci_for_massbitproto.Prelude.HashMap
use test_ci_for_massbitproto.Prelude.Outcome.{done, panic}
use test_ci_for_massbitproto.Ethereum.Types.{
  Web3, FunctionSelector, DataSource, EthereumCall, BlockHandlerFilter, selector_discrete,
}
use test_ci_for_massbitproto.Ethereum.Types.{
  event_topic0, MappingCallHandler, MappingEventHandler, MappingBlockHandler,
}
use test_ci_for_massbitproto.Ethereum.TriggerFilter as Filter
use test_ci_for_massbitproto.Ethereum.Growth.{trigger_filter-handler_for_call}
use test_ci_for_massbitproto.Ethereum.LogFilter as Logs
use test_ci_for_massbitproto.Ethereum.CallFilter as Calls
use test_ci_for_massbitproto.Ethereum.BlockFilter as Blocks
use test_ci_for_massbitproto.Ethereum.Matching.{AllSpecific, matches-items}
use test_ci_for_massbitproto.Ethereum.Requests.{matches-from_data_sources}
use test_ci_for_massbitproto.Ethereum.ShortCalls.{matches-short}
use test_ci_for_massbitproto.Ethereum.Topics.{logs_filters_lem}
use test_ci_for_massbitproto.Ethereum.Handlers.{
  target_method_id, handler_for_call, handlers_for_log, handler_for_block, validate,
}
use test_ci_for_massbitproto.Ethereum.Completeness.{
  matches-handler_for_call, logs_filter-handlers_for_log,
}
use test_ci_for_massbitproto.Ethereum.Validation.{handler_for_block-validate}
use test_ci_for_massbitproto.Prelude.Any.{Any}
use test_ci_for_massbitproto.Ethereum.Extension.{matches-extend}
use test_ci_for_massbitproto.Ethereum.Trigger.{EthereumBlockTriggerType, Log}

abbrev pub selector : ℕ → FunctionSelector
selector n = record { byte0 = n; byte1 = 0; byte2 = 0; byte3 = 1 }

-- The hash of a signature is that of its being `transfer` or not.
abbrev pub hash : String → FunctionSelector
hash text = ite (text_discrete text "transfer") (selector 7) (selector 8)

abbrev pub W : Web3
W = record {
  Address = ℕ;
  address_discrete = ℕ_discrete;
  H256 = ℕ;
  keccak256_selector = hash;
  h256_discrete = ℕ_discrete;
  event_hash = λ e. 9;
}

abbrev source : ℕ → String → DataSource W
source address function = record {
  source = record { address = some address; start_block = pos 100 };
  mapping = record {
    block_handlers = (record { handler = "h"; filter = some BlockHandlerFilter.call }) ∷ [];
    call_handlers = (record { function = function; handler = "f" }) ∷ [];
    event_handlers = (record { event = "E"; topic0 = none; handler = "e" }) ∷ [];
  };
}

abbrev transfers : DataSource W
transfers = source 1 "transfer"

abbrev mints : DataSource W
mints = source 2 "mint"

abbrev pub call_with : List ℕ → EthereumCall W
call_with input = record {
  to = 1;
  input = input;
  block_number = pos 100;
  block_hash = 5;
  transaction_hash = some 6;
  transaction_index = 0;
}

abbrev a_call : EthereumCall W
a_call = call_with (7 ∷ 0 ∷ 0 ∷ 1 ∷ 5 ∷ [])

-- a transfer of ether, without any input
abbrev pub short_call : EthereumCall W
short_call = call_with []

abbrev entry : Logs.EthGetLogsFilter W
entry = record { contracts = 1 ∷ []; event_signatures = 9 ∷ [] }

logs_filters_lem_example :
    Any (λ g. g ≡ entry) (Logs.from_data_sources W (transfers ∷ mints ∷ [])).eth_logs_filters
    ↔ Any
        (λ ds.
          Any
            (λ h.
              (topic : W.H256) × ((h.topic0 ≡ some topic)
                ⊎ ((h.topic0 ≡ none) × (topic ≡ W.event_hash h.event)))
              × ((entry.event_signatures ≡ topic ∷ [])
                  × (((ds.source.address ≡ none) × (entry.contracts ≡ []))
                      ⊎ ((contract : W.Address) × (ds.source.address ≡ some contract)
                          × (entry.contracts ≡ contract ∷ [])))))
            ds.mapping.event_handlers)
        (transfers ∷ mints ∷ [])
logs_filters_lem_example = logs_filters_lem W (transfers ∷ mints ∷ []) entry

from_data_sources_lem_example :
    ((Blocks.from_data_sources W (transfers ∷ [])).contract_addresses
      ≡ HashMap.new (Blocks.contract_discrete W))
    × (((Blocks.from_data_sources W (transfers ∷ [])).trigger_every_block ≡ true)
        ↔ Any
            (λ ds.
              ((address : W.Address) × (ds.source.address ≡ some address))
              × Any (λ h. h.filter ≡ none) ds.mapping.block_handlers)
            (transfers ∷ []))
from_data_sources_lem_example = Blocks.from_data_sources_lem W (transfers ∷ [])

matches-from_data_sources_example :
    (b : Bool) × (Calls.matches W (Calls.from_data_sources W (transfers ∷ mints ∷ [])) a_call
      ≡ done b)
    × ((b ≡ true)
        ↔ Any
            (λ ds.
              (ds.source.address ≡ some 1)
              × Any (λ h. W.keccak256_selector h.function ≡ selector 7) ds.mapping.call_handlers)
            (transfers ∷ mints ∷ []))
matches-from_data_sources_example =
    matches-from_data_sources W (transfers ∷ mints ∷ []) a_call (selector 7) refl

filter_run : Unit {0}
unfolding Calls.from_data_sources Calls.from_iter Calls.collect Calls.collect_item Calls.lower
    Calls.with_default Calls.add_signature Calls.matches Calls.matches_wanted HashMap.get
    HashMap.insert HashMap.new HashMap.lookup HashMap.contains_key selector_discrete ℕ_discrete
    text_discrete
filter_run = tt

first_matches : Calls.matches W (Calls.from_data_sources W (transfers ∷ [])) a_call ≡ done true
unfolding filter_run
first_matches = refl

second_matches : Calls.matches W (Calls.from_data_sources W (mints ∷ [])) a_call ≡ done false
unfolding filter_run
second_matches = refl

matches-extend_example :
    AllSpecific W (
      Calls.extend W
        (Calls.from_data_sources W (transfers ∷ []))
        (Calls.from_data_sources W (mints ∷ [])))
    × (Calls.matches W
          (Calls.extend W
            (Calls.from_data_sources W (transfers ∷ []))
            (Calls.from_data_sources W (mints ∷ [])))
          a_call
        ≡ done (false || true))
matches-extend_example =
    matches-extend W (Calls.from_data_sources W (transfers ∷ []))
      (Calls.from_data_sources W (mints ∷ [])) a_call (selector 7)
      ((matches-items W (transfers ∷ []) a_call (selector 7) refl).0)
      ((matches-items W (mints ∷ []) a_call (selector 7) refl).0) refl true false first_matches
      second_matches

matches-short_example :
    (Calls.matches W (Calls.from_data_sources W (transfers ∷ [])) short_call ≡ panic) ↔ (
      (length short_call.input < 4)
      × Any
          (λ ds. (ds.source.address ≡ some short_call.to) × (ds.mapping.call_handlers ≢ []))
          (transfers ∷ []))
matches-short_example = matches-short W (transfers ∷ []) short_call

handlers_run : Unit {0}
unfolding handler_for_call target_method_id handlers_for_log handler_for_block validate
    selector_discrete ℕ_discrete text_discrete event_topic0
handlers_run = tt

abbrev transfer_handler : MappingCallHandler
transfer_handler = record { function = "transfer"; handler = "f" }

transfers-handler_for_call : handler_for_call W transfers a_call ≡ done (some transfer_handler)
unfolding handlers_run
transfers-handler_for_call = refl

matches-handler_for_call_example :
    Calls.matches W (Calls.from_data_sources W (mints ∷ transfers ∷ [])) a_call ≡ done true
matches-handler_for_call_example =
    matches-handler_for_call W (mints ∷ transfers ∷ []) transfers a_call transfer_handler
      (inr (inl refl)) refl transfers-handler_for_call

abbrev event_log : Log W
event_log = record {
  address = 1;
  topics = 9 ∷ 3 ∷ [];
  block_number = some 100;
  block_hash = some 5;
  transaction_hash = some 6;
  log_index = some 0;
  transaction_index = some 0;
}

abbrev event_handler : MappingEventHandler W
event_handler = record { event = "E"; topic0 = none; handler = "e" }

transfers-handlers_for_log : handlers_for_log W transfers event_log ≡ done (event_handler ∷ [])
unfolding handlers_run
transfers-handlers_for_log = refl

logs_filter-handlers_for_log_example :
    Any
      (λ f.
        (f.event_signatures ≡ 9 ∷ [])
        × (((transfers.source.address ≡ none) × (f.contracts ≡ []))
            ⊎ ((contract : W.Address) × (transfers.source.address ≡ some contract)
                × (f.contracts ≡ contract ∷ []))))
      (Logs.from_data_sources W (mints ∷ transfers ∷ [])).eth_logs_filters
logs_filter-handlers_for_log_example =
    logs_filter-handlers_for_log W (mints ∷ transfers ∷ []) transfers event_log 9 (3 ∷ [])
      (event_handler ∷ []) event_handler (inr (inl refl)) refl transfers-handlers_for_log (inl refl)

transfers-validate : validate W transfers ≡ []
unfolding handlers_run
transfers-validate = refl

abbrev call_block_handler : MappingBlockHandler
call_block_handler = record { handler = "h"; filter = some BlockHandlerFilter.call }

handler_for_block-validate_example :
    handler_for_block W transfers (EthereumBlockTriggerType.with_call_to 1)
    ≡ some call_block_handler
handler_for_block-validate_example =
    handler_for_block-validate W transfers (EthereumBlockTriggerType.with_call_to 1)
      call_block_handler transfers-validate (inl refl) refl

trigger_filter-handler_for_call_example :
    Calls.matches W
      (Filter.extend W (transfers ∷ []) (Filter.from_data_sources W (mints ∷ []))).call
      a_call
    ≡ done true
trigger_filter-handler_for_call_example =
    trigger_filter-handler_for_call W (mints ∷ []) (transfers ∷ []) transfers a_call
      transfer_handler (inr (inl refl)) refl transfers-handler_for_call
