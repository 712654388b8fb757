-- ===== src/Ethereum/TriggerFilter.antt =====
-- `TriggerFilter` of chain/ethereum/src/adapter.rs, and the call filter of a block filter.
use test_ci_for_massbitproto.Prelude.{List, [], ◌∷◌}
use test_ci_for_massbitproto.Prelude.HashMap
use test_ci_for_massbitproto.Ethereum.Types.{Web3, DataSource, selector_discrete}
use test_ci_for_massbitproto.Ethereum.LogFilter as Logs
use test_ci_for_massbitproto.Ethereum.CallFilter as Calls
use test_ci_for_massbitproto.Ethereum.BlockFilter as Blocks

pub record TriggerFilter (W : Web3) : Type 0 where
  pub log : Logs.EthereumLogFilter W
  pub call : Calls.EthereumCallFilter W
  pub block : Blocks.EthereumBlockFilter W

module _ (W : Web3) where
  unfoldable pub new : TriggerFilter W
  new = record { log = Logs.new W; call = Calls.new W; block = Blocks.new W }

  unfoldable pub extend : List (DataSource W) → TriggerFilter W → TriggerFilter W
  extend data_sources this = record {
    log = Logs.extend W this.log (Logs.from_data_sources W data_sources);
    call = Calls.extend W this.call (Calls.from_data_sources W data_sources);
    block = Blocks.extend W this.block (Blocks.from_data_sources W data_sources);
  }

  unfoldable pub from_data_sources : List (DataSource W) → TriggerFilter W
  from_data_sources data_sources = extend data_sources new

  insert_all : List (Blocks.Contract W × Unit {0}) → Calls.Lookup W → Calls.Lookup W
  insert_all [] lookup = lookup
  insert_all ((contract, u) ∷ rest) lookup = insert_all rest (
      HashMap.insert W.address_discrete contract.address
        (contract.start_block, HashMap.new selector_discrete) lookup)

  -- `EthereumCallFilter::from` of a block filter: every call of its contracts
  unfoldable pub call_filter_of : Blocks.EthereumBlockFilter W → Calls.EthereumCallFilter W
  unfolding insert_all
  call_filter_of ethereum_block_filter = record {
    contract_addresses_function_signatures =
        insert_all ethereum_block_filter.contract_addresses.entries
          (HashMap.new W.address_discrete);
  }
