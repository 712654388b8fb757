-- ===== src/Ethereum/LogFilter.antt =====
-- `EthereumLogFilter` of chain/ethereum/src/adapter.rs.
use test_ci_for_massbitproto.Prelude.{
  Bool, true, false, Option, none, some, List, [], ◌∷◌, ◌++◌, map, ◌≡◌, refl, sym, ◌∙◌, append_nil,
  append_one,
}
use test_ci_for_massbitproto.Ethereum.Types.{Web3, DataSource, MappingEventHandler, event_topic0}

pub record EthGetLogsFilter (W : Web3) : Type 0 where
  pub contracts : List W.Address
  pub event_signatures : List W.H256

pub record EthereumLogFilter (W : Web3) : Type 0 where
  pub eth_logs_filters : List (EthGetLogsFilter W)

module _ (W : Web3) where
  unfoldable pub new : EthereumLogFilter W
  new = record { eth_logs_filters = [] }

  -- what the event handlers of a data source ask for
  unfoldable pub logs_filter : Option W.Address → W.H256 → EthGetLogsFilter W
  logs_filter (some contract) event_sig = record {
    contracts = contract ∷ [];
    event_signatures = event_sig ∷ [];
  }
  logs_filter none event_sig = record { contracts = []; event_signatures = event_sig ∷ [] }

  push_all : List W.H256 → Option W.Address → EthereumLogFilter W → EthereumLogFilter W
  push_all [] address this = this
  push_all (event_sig ∷ rest) address this =
      push_all rest address
        (record { eth_logs_filters = this.eth_logs_filters ++ logs_filter address event_sig ∷ [] })

  add_sources : List (DataSource W) → EthereumLogFilter W → EthereumLogFilter W
  unfolding push_all
  add_sources [] this = this
  add_sources (ds ∷ rest) this =
      add_sources rest
        (push_all (map (event_topic0 W) ds.mapping.event_handlers) ds.source.address this)

  unfoldable pub from_data_sources : List (DataSource W) → EthereumLogFilter W
  unfolding add_sources
  from_data_sources sources = add_sources sources new

  unfoldable pub extend : EthereumLogFilter W → EthereumLogFilter W → EthereumLogFilter W
  extend this other = record { eth_logs_filters = this.eth_logs_filters ++ other.eth_logs_filters }

  unfoldable pub is_empty : EthereumLogFilter W → Bool
  is_empty this = elim this.eth_logs_filters [ [] ↦ true | f ∷ rest ↦ false ]

  -- what each event handler of the data sources asks for, in their order
  abbrev pub wanted : List (DataSource W) → List (EthGetLogsFilter W)
  wanted [] = []
  wanted (ds ∷ rest) =
      map (λ handler. logs_filter ds.source.address (event_topic0 W handler))
        ds.mapping.event_handlers
      ++ wanted rest

  push_all_lem :
      (handlers : List (MappingEventHandler W)) (address : Option W.Address)
      (this : EthereumLogFilter W) (more : List (EthGetLogsFilter W))
      → (push_all (map (event_topic0 W) handlers) address this).eth_logs_filters ++ more
        ≡ this.eth_logs_filters
          ++ (map (λ handler. logs_filter address (event_topic0 W handler)) handlers ++ more)
  unfolding push_all
  push_all_lem [] address this more = refl
  push_all_lem (handler ∷ rest) address this more =
      let f = logs_filter address (event_topic0 W handler) in
      push_all_lem rest address (record { eth_logs_filters = this.eth_logs_filters ++ f ∷ [] }) more
      ∙ append_one this.eth_logs_filters f
          (map (λ h. logs_filter address (event_topic0 W h)) rest ++ more)

  add_sources_lem :
      (sources : List (DataSource W)) (this : EthereumLogFilter W)
      → (add_sources sources this).eth_logs_filters ≡ this.eth_logs_filters ++ wanted sources
  unfolding add_sources
  add_sources_lem [] this = sym (append_nil this.eth_logs_filters)
  add_sources_lem (ds ∷ rest) this =
      add_sources_lem rest
        (push_all (map (event_topic0 W) ds.mapping.event_handlers) ds.source.address this)
      ∙ push_all_lem ds.mapping.event_handlers ds.source.address this (wanted rest)

  -- The log filter of data sources has what each of their event handlers asks for.
  pub from_data_sources_lem :
      (sources : List (DataSource W))
      → (from_data_sources sources).eth_logs_filters ≡ wanted sources
  unfolding from_data_sources new
  from_data_sources_lem sources = add_sources_lem sources new
