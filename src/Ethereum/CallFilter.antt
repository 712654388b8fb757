-- ===== src/Ethereum/CallFilter.antt =====
-- `EthereumCallFilter` of chain/ethereum/src/adapter.rs.
use test_ci_for_massbitproto.Prelude.{
  ℕ, Bool, true, false, Option, none, some, List, [], ◌∷◌, ◌++◌, map, if◌then◌else◌,
}
use test_ci_for_massbitproto.Prelude.Int.{ℤ, le_int, min_int}
use test_ci_for_massbitproto.Prelude.HashMap
use test_ci_for_massbitproto.Prelude.HashMap.{HashMap, for_each}
use test_ci_for_massbitproto.Prelude.Outcome.{Outcome, done, ◌>>=◌}
use test_ci_for_massbitproto.Ethereum.Types.{
  Web3, DataSource, EthereumCall, MappingCallHandler, FunctionSelector, Selectors,
  selector_discrete, first_four,
}

-- the start block of a contract and the functions asked for
abbrev pub Wanted : Type 0
Wanted = ℤ × Selectors

abbrev pub Lookup : Web3 → Type 0
Lookup W = HashMap W.address_discrete Wanted

pub record EthereumCallFilter (W : Web3) : Type 0 where
  pub contract_addresses_function_signatures : Lookup W

-- `HashSet::is_empty`, `HashSet::insert` and `HashSet::extend`
abbrev pub is_empty : Selectors → Bool
is_empty sigs = elim sigs.entries [ [] ↦ true | x ∷ xs ↦ false ]

unfoldable pub add_signature : FunctionSelector → Unit {0} → Selectors → Selectors
add_signature sig u sigs = HashMap.insert selector_discrete sig u sigs

module _ (W : Web3) where
  unfoldable pub new : EthereumCallFilter W
  new = record { contract_addresses_function_signatures = HashMap.new W.address_discrete }

  unfoldable pub matches_wanted : List ℕ → Option Wanted → Outcome Bool
  matches_wanted input none = done false
  matches_wanted input (some (start_block, sigs)) =
      if is_empty sigs
      then done true
      else (first_four input >>= λ sig. done (HashMap.contains_key selector_discrete sig sigs))

  unfoldable pub matches : EthereumCallFilter W → EthereumCall W → Outcome Bool
  matches this call =
      matches_wanted call.input
        (HashMap.get W.address_discrete call.to this.contract_addresses_function_signatures)

  -- one item of `from_iter`: the entry is made where there is none, then lowered and extended
  unfoldable pub with_default : ℤ → Option Wanted → Wanted
  with_default start_block none = (start_block, HashMap.new selector_discrete)
  with_default start_block (some wanted) = wanted

  unfoldable pub lower : ℤ → FunctionSelector → Wanted → Wanted
  lower start_block sig (start, sigs) =
      (if le_int start start_block then start else start_block, add_signature sig tt sigs)

  unfoldable pub collect_item : ℤ × W.Address × FunctionSelector → Lookup W → Lookup W
  collect_item (start_block, address, sig) lookup =
      let wanted = with_default start_block (HashMap.get W.address_discrete address lookup) in
      HashMap.insert W.address_discrete address (lower start_block sig wanted) lookup

  unfoldable pub collect : List (ℤ × W.Address × FunctionSelector) → Lookup W → Lookup W
  collect [] lookup = lookup
  collect (item ∷ items) lookup = collect items (collect_item item lookup)

  unfoldable pub from_iter : List (ℤ × W.Address × FunctionSelector) → EthereumCallFilter W
  from_iter items = record {
    contract_addresses_function_signatures = collect items (HashMap.new W.address_discrete);
  }

  abbrev pub item_of : ℤ → W.Address → MappingCallHandler → ℤ × W.Address × FunctionSelector
  item_of start_block address handler =
      (start_block, address, W.keccak256_selector handler.function)

  abbrev pub items_of : DataSource W → List (ℤ × W.Address × FunctionSelector)
  items_of ds = elim ds.source.address [
    | none ↦ []
    | some address ↦ map (item_of ds.source.start_block address) ds.mapping.call_handlers
  ]

  abbrev pub items : List (DataSource W) → List (ℤ × W.Address × FunctionSelector)
  items [] = []
  items (ds ∷ rest) = items_of ds ++ items rest

  unfoldable pub from_data_sources : List (DataSource W) → EthereumCallFilter W
  from_data_sources sources = from_iter (items sources)

  unfoldable pub joined : Option Wanted → Wanted → Wanted
  joined none new_wanted = new_wanted
  joined (some (existing_start_block, existing_sigs)) (proposed_start_block, new_sigs) = (
    min_int proposed_start_block existing_start_block,
    for_each add_signature new_sigs.entries existing_sigs,
  )

  unfoldable pub extend_at : W.Address → Wanted → Lookup W → Lookup W
  extend_at address wanted lookup =
      HashMap.insert W.address_discrete address
        (joined (HashMap.get W.address_discrete address lookup) wanted) lookup

  unfoldable pub extend : EthereumCallFilter W → EthereumCallFilter W → EthereumCallFilter W
  extend this other = record {
    contract_addresses_function_signatures =
        for_each extend_at other.contract_addresses_function_signatures.entries
          this.contract_addresses_function_signatures;
  }
