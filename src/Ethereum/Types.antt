-- ===== src/Ethereum/Types.antt =====
-- The data sources of chain/ethereum/src/data_source.rs, in the fields that the filters read.
use test_ci_for_massbitproto.Prelude.{ℕ, ℕ_discrete, String, Option, none, some, List, ◌∷◌}
use test_ci_for_massbitproto.Prelude.Int.{ℤ}
use test_ci_for_massbitproto.Prelude.HashMap.{HashMap}
use test_ci_for_massbitproto.Prelude.Outcome.{Outcome, done, panic}

-- `[u8; 4]`
pub record FunctionSelector : Type 0 where
  pub byte0 : ℕ
  pub byte1 : ℕ
  pub byte2 : ℕ
  pub byte3 : ℕ

unfoldable pub selector_discrete : Discrete FunctionSelector
selector_discrete = hlevel ℕ_discrete

-- `&bytes[..4]`, which panics where there are fewer.
abbrev pub first_four : List ℕ → Outcome FunctionSelector
first_four (a ∷ b ∷ c ∷ d ∷ rest) = done (record { byte0 = a; byte1 = b; byte2 = c; byte3 = d })
first_four bytes = panic

-- The types of the web3 library, and the hashes: the first four bytes of `keccak256` of a signature,
-- and `string_to_h256` of an event without the word `indexed`.
pub record Web3 : Type 1 where
  pub Address : Type 0
  pub address_discrete : Discrete Address
  pub H256 : Type 0
  pub h256_discrete : Discrete H256
  pub keccak256_selector : String → FunctionSelector
  pub event_hash : String → H256

pub data BlockHandlerFilter : Type 0 where
  call : BlockHandlerFilter

pub record MappingBlockHandler : Type 0 where
  pub handler : String
  pub filter : Option BlockHandlerFilter

pub record MappingCallHandler : Type 0 where
  pub function : String
  pub handler : String

pub record MappingEventHandler (W : Web3) : Type 0 where
  pub event : String
  pub topic0 : Option W.H256
  pub handler : String

pub record Mapping (W : Web3) : Type 0 where
  pub block_handlers : List MappingBlockHandler
  pub call_handlers : List MappingCallHandler
  pub event_handlers : List (MappingEventHandler W)

pub record Source (W : Web3) : Type 0 where
  pub address : Option W.Address
  pub start_block : ℤ

pub record DataSource (W : Web3) : Type 0 where
  pub source : Source W
  pub mapping : Mapping W

-- `MappingEventHandler::topic0`
unfoldable pub event_topic0 : (W : Web3) → MappingEventHandler W → W.H256
event_topic0 W handler = elim handler.topic0 [ none ↦ W.event_hash handler.event | some h ↦ h ]

-- The fields of `EthereumCall` that are read here.
pub record EthereumCall (W : Web3) : Type 0 where
  pub to : W.Address
  pub input : List ℕ
  pub block_number : ℤ
  pub block_hash : W.H256
  pub transaction_hash : Option W.H256
  pub transaction_index : ℕ

-- `HashSet<FunctionSelector>`
abbrev pub Selectors : Type 0
Selectors = HashMap selector_discrete (Unit {0})
