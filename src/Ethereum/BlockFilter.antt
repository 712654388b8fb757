-- ===== src/Ethereum/BlockFilter.antt =====
-- `EthereumBlockFilter` of chain/ethereum/src/adapter.rs.
use test_ci_for_massbitproto.Prelude.{
  Bool, true, false, not, ◌&&◌, ◌||◌, Option, none, some, List, [], ◌∷◌, if◌then◌else◌, ite,
  is_some, ◌≡◌, ◌↔◌, refl, sym, ◌∙◌, ap, arith, Bool-cases, Option-cases, inl, inr,
}
use test_ci_for_massbitproto.Prelude.Any.{Any}
use test_ci_for_massbitproto.Prelude.Int.{ℤ, ℤ_discrete, min_int}
use test_ci_for_massbitproto.Prelude.HashMap
use test_ci_for_massbitproto.Prelude.HashMap.{HashMap}
use test_ci_for_massbitproto.Ethereum.Types.{
  Web3, DataSource, MappingBlockHandler, BlockHandlerFilter,
}

-- the pair `(BlockNumber, Address)`
pub record Contract (W : Web3) : Type 0 where
  pub start_block : ℤ
  pub address : W.Address

unfoldable pub contract_discrete : (W : Web3) → Discrete (Contract W)
contract_discrete W a b = elim (ℤ_discrete a.start_block b.start_block) [
  | yes p ↦ elim (W.address_discrete a.address b.address) [
    | yes q ↦ yes (λ i. record { start_block = p i; address = q i })
    | no n ↦ no (λ h. n (ap (λ (c : Contract W). c.address) h))
  ]
  | no n ↦ no (λ h. n (ap (λ (c : Contract W). c.start_block) h))
]

-- `HashSet<(BlockNumber, Address)>`
abbrev pub Contracts : Web3 → Type 0
Contracts W = HashMap (contract_discrete W) (Unit {0})

pub record EthereumBlockFilter (W : Web3) : Type 0 where
  pub contract_addresses : Contracts W
  pub trigger_every_block : Bool

abbrev pub has_filter : Option BlockHandlerFilter → Bool
has_filter (some BlockHandlerFilter.call) = true
has_filter none = false

-- `has_block_handler_with_call_filter` and `has_block_handler_without_filter`
abbrev pub any_with_call_filter : List MappingBlockHandler → Bool
any_with_call_filter [] = false
any_with_call_filter (h ∷ handlers) = has_filter h.filter || any_with_call_filter handlers

abbrev pub any_without_filter : List MappingBlockHandler → Bool
any_without_filter [] = false
any_without_filter (h ∷ handlers) = not (is_some h.filter) || any_without_filter handlers

module _ (W : Web3) where
  unfoldable pub new : EthereumBlockFilter W
  new = record {
    contract_addresses = HashMap.new (contract_discrete W);
    trigger_every_block = false;
  }

  abbrev pub find : W.Address → List (Contract W × Unit {0}) → Option (Contract W)
  find address [] = none
  find address ((contract, u) ∷ rest) =
      let found = find address rest in
      ite (W.address_discrete address contract.address) (some contract) found

  -- the contract that goes into the set for one of the first filter
  abbrev pub lowered : List (Contract W × Unit {0}) → Contract W → Contract W
  lowered others contract = elim (find contract.address others) [
    | none ↦ contract
    | some other ↦ record {
      start_block = min_int other.start_block contract.start_block;
      address = other.address;
    }
  ]

  fold : List (Contract W × Unit {0}) → List (Contract W × Unit {0}) → Contracts W → Contracts W
  fold [] others addresses = addresses
  fold ((contract, u) ∷ rest) others addresses =
      fold rest others (HashMap.insert (contract_discrete W) (lowered others contract) tt addresses)

  unfoldable pub extend : EthereumBlockFilter W → EthereumBlockFilter W → EthereumBlockFilter W
  unfolding fold
  extend this other = record {
    trigger_every_block = this.trigger_every_block || other.trigger_every_block;
    contract_addresses =
        fold this.contract_addresses.entries other.contract_addresses.entries
          (HashMap.new (contract_discrete W));
  }

  -- the filter of one data source that has an address
  unfoldable pub filter_of : DataSource W → W.Address → EthereumBlockFilter W
  filter_of ds address = record {
    trigger_every_block = any_without_filter ds.mapping.block_handlers;
    contract_addresses =
        if any_with_call_filter ds.mapping.block_handlers
        then HashMap.insert (contract_discrete W)
            (record { start_block = ds.source.start_block; address = address }) tt
            (HashMap.new (contract_discrete W))
        else HashMap.new (contract_discrete W);
  }

  -- The data sources without an address are filtered out.
  add_source : DataSource W → Option W.Address → EthereumBlockFilter W → EthereumBlockFilter W
  add_source ds none filter_opt = filter_opt
  add_source ds (some address) filter_opt = extend filter_opt (filter_of ds address)

  add_sources : List (DataSource W) → EthereumBlockFilter W → EthereumBlockFilter W
  unfolding add_source
  add_sources [] filter_opt = filter_opt
  add_sources (ds ∷ rest) filter_opt = add_sources rest (add_source ds ds.source.address filter_opt)

  unfoldable pub from_data_sources : List (DataSource W) → EthereumBlockFilter W
  unfolding add_sources
  from_data_sources sources = add_sources sources new

  -- Some data source with an address has a block handler without a filter.
  abbrev pub any_every_block : List (DataSource W) → Bool
  any_every_block [] = false
  any_every_block (ds ∷ rest) =
      (is_some ds.source.address && any_without_filter ds.mapping.block_handlers)
      || any_every_block rest

  add_source_lem :
      (ds : DataSource W) (address : Option W.Address) (this : EthereumBlockFilter W)
      → this.contract_addresses ≡ HashMap.new (contract_discrete W)
      → ((add_source ds address this).contract_addresses ≡ HashMap.new (contract_discrete W))
        × ((add_source ds address this).trigger_every_block
            ≡ this.trigger_every_block
              || (is_some address && any_without_filter ds.mapping.block_handlers))
  unfolding add_source extend filter_of fold HashMap.new
  add_source_lem ds none this h = (h, ground arith)
  add_source_lem ds (some address) this h = (
    ap
        (λ c.
          fold c.entries (filter_of ds address).contract_addresses.entries
            (HashMap.new (contract_discrete W)))
        h,
    refl,
  )

  add_sources_lem :
      (sources : List (DataSource W)) (this : EthereumBlockFilter W)
      → this.contract_addresses ≡ HashMap.new (contract_discrete W)
      → ((add_sources sources this).contract_addresses ≡ HashMap.new (contract_discrete W))
        × ((add_sources sources this).trigger_every_block
            ≡ this.trigger_every_block || any_every_block sources)
  unfolding add_sources
  add_sources_lem [] this h = (h, ground arith)
  add_sources_lem (ds ∷ rest) this h =
      let (empty, every) = add_source_lem ds ds.source.address this h in
      let (empty', every') = add_sources_lem rest (add_source ds ds.source.address this) empty in
      (empty', ground (arith, every, every'))

  any_without_filter_iff :
      (handlers : List MappingBlockHandler)
      → (any_without_filter handlers ≡ true) ↔ Any (λ h. h.filter ≡ none) handlers
  any_without_filter_iff [] = (λ h. absurd (ground (arith, h)), λ h. absurd h)
  any_without_filter_iff (h ∷ handlers) = elim (Option-cases h.filter) [
    | inl unfiltered ↦ (λ e. inl unfiltered, λ m. ground (arith, unfiltered))
    | inr (f, filtered) ↦ (
      λ e. inr ((any_without_filter_iff handlers).0 (ground (arith, e, filtered))),
      λ m. elim m [
        | inl unfiltered ↦ absurd (ground (arith, unfiltered, filtered))
        | inr later ↦ ground (arith, (any_without_filter_iff handlers).1 later)
      ],
    )
  ]

  -- a data source with an address that has a block handler without a filter
  abbrev pub EveryBlock : DataSource W → Type 0
  EveryBlock ds =
      ((address : W.Address) × (ds.source.address ≡ some address))
      × Any (λ h. h.filter ≡ none) ds.mapping.block_handlers

  any_every_block_iff :
      (sources : List (DataSource W)) → (any_every_block sources ≡ true) ↔ Any EveryBlock sources
  any_every_block_iff [] = (λ h. absurd (ground (arith, h)), λ h. absurd h)
  any_every_block_iff (ds ∷ rest) =
      let handlers = any_without_filter_iff ds.mapping.block_handlers in
      let others = any_every_block_iff rest in
      (
        λ e. elim (Bool-cases (any_every_block rest)) [
          | inl later ↦ inr (others.0 later)
          | inr none_later ↦ elim (Option-cases ds.source.address) [
            | inl missing ↦ absurd (ground (arith, e, none_later, missing))
            | inr address ↦ inl (address, handlers.0 (ground (arith, e, none_later, address.1)))
          ]
        ],
        λ m. elim m [
          | inl (address, unfiltered) ↦ ground (arith, address.1, handlers.1 unfiltered)
          | inr later ↦ ground (arith, others.1 later)
        ],
      )

  -- The block filter of data sources triggers every block exactly where some data source that has an
  -- address has a block handler without a filter. It has no contract addresses, whatever the
  -- block handlers with a call filter.
  pub from_data_sources_lem :
      (sources : List (DataSource W))
      → ((from_data_sources sources).contract_addresses ≡ HashMap.new (contract_discrete W))
        × (((from_data_sources sources).trigger_every_block ≡ true)
            ↔ Any
                (λ ds.
                  ((address : W.Address) × (ds.source.address ≡ some address))
                  × Any (λ h. h.filter ≡ none) ds.mapping.block_handlers)
                sources)
  unfolding new from_data_sources
  from_data_sources_lem sources =
      let (empty, every) = add_sources_lem sources new refl in
      let iff = any_every_block_iff sources in
      (empty, (λ e. iff.0 (sym every ∙ e), λ m. every ∙ iff.1 m))
