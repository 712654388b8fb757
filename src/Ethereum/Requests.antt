-- ===== src/Ethereum/Requests.antt =====
-- What the filters of chain/ethereum/src/adapter.rs ask for, by the handlers of the data sources that
-- they are made of.
use test_ci_for_massbitproto.Prelude.{
  Bool, true, Option, none, some, List, [], ◌∷◌, map, ◌≡◌, ◌↔◌, inl, inr, ap, ◌∙◌, arith,
  Bool-cases,
}
use test_ci_for_massbitproto.Prelude.Any.{Any}
use test_ci_for_massbitproto.Prelude.Int.{ℤ}
use test_ci_for_massbitproto.Prelude.Outcome.{done}
use test_ci_for_massbitproto.Ethereum.Types.{
  Web3, DataSource, EthereumCall, FunctionSelector, MappingCallHandler, selector_discrete,
  first_four,
}
use test_ci_for_massbitproto.Ethereum.CallFilter.{
  item_of, items_of, items, from_data_sources, matches,
}
use test_ci_for_massbitproto.Ethereum.Matching.{any_item, matches-items}
use test_ci_for_massbitproto.Ethereum.Completeness.{any_item-append}

module _ (W : Web3) where
  module _ (to : W.Address) (sig : FunctionSelector) where
    -- a data source at the called address with a call handler for the called function
    abbrev Asks : DataSource W → Type 0
    Asks ds =
        (ds.source.address ≡ some to)
        × Any (λ h. W.keccak256_selector h.function ≡ sig) ds.mapping.call_handlers

    handlers_iff :
        (start_block : ℤ) (address : W.Address) (handlers : List MappingCallHandler)
        → (any_item W to sig (map (item_of W start_block address) handlers) ≡ true)
          ↔ ((address ≡ to) × Any (λ h. W.keccak256_selector h.function ≡ sig) handlers)
    handlers_iff start_block address [] = (λ h. absurd (ground (arith, h)), λ h. absurd h.1)
    handlers_iff start_block address (h ∷ handlers) =
        let ih = handlers_iff start_block address handlers in
        elim (W.address_discrete address to) [
          | yes p ↦ elim (selector_discrete (W.keccak256_selector h.function) sig) [
            | yes q ↦ (λ e. (p, inl q), λ m. ground arith)
            | no n ↦ (
              λ e. (p, inr (ih.0 (ground (arith, e, p, n))).1),
              λ m. elim m.1 [ inl q ↦ absurd (n q) | inr later ↦ ground (arith, ih.1 (p, later)) ],
            )
          ]
          | no n ↦ (λ e. absurd (n (ih.0 (ground (arith, e, n))).0), λ m. absurd (n m.0))
        ]

    source_iff : (ds : DataSource W) → (any_item W to sig (items_of W ds) ≡ true) ↔ Asks ds
    source_iff ds = at ds.source.address
      where
        at :
            (o : Option W.Address)
            → (any_item W to sig (elim o [
              | none ↦ []
              | some address ↦
                  map (item_of W ds.source.start_block address) ds.mapping.call_handlers
            ])
                ≡ true)
              ↔ ((o ≡ some to)
                  × Any (λ h. W.keccak256_selector h.function ≡ sig) ds.mapping.call_handlers)
        at none = (λ h. absurd (ground (arith, h)), λ h. absurd (ground (arith, h.0)))
        at (some address) =
            let iff = handlers_iff ds.source.start_block address ds.mapping.call_handlers in
            (λ e. let (p, m) = iff.0 e in (ap some p, m), λ m. iff.1 (ground (arith, m.0), m.1))

    sources_iff :
        (sources : List (DataSource W))
        → (any_item W to sig (items W sources) ≡ true) ↔ Any Asks sources
    sources_iff [] = (λ h. absurd (ground (arith, h)), λ h. absurd h)
    sources_iff (ds ∷ rest) =
        let split = any_item-append W to sig (items_of W ds) (items W rest) in
        (
          λ e. elim (Bool-cases (any_item W to sig (items_of W ds))) [
            | inl here ↦ inl ((source_iff ds).0 here)
            | inr absent ↦ inr ((sources_iff rest).0 (ground (arith, split, e, absent)))
          ],
          λ m. split ∙ elim m [
            | inl here ↦ ground (arith, (source_iff ds).1 here)
            | inr later ↦ ground (arith, (sources_iff rest).1 later)
          ],
        )

  -- The call filter of data sources says of a call whose input has four bytes or more whether it
  -- matches. It matches exactly where a data source has the called address and a call handler with a
  -- function whose hash begins with the first four bytes of the input.
  pub matches-from_data_sources :
      (sources : List (DataSource W)) (call : EthereumCall W) (sig : FunctionSelector)
      → first_four call.input ≡ done sig
      → (b : Bool) × (matches W (from_data_sources W sources) call ≡ done b)
        × ((b ≡ true)
            ↔ Any
                (λ ds.
                  (ds.source.address ≡ some call.to)
                  × Any (λ h. W.keccak256_selector h.function ≡ sig) ds.mapping.call_handlers)
                sources)
  matches-from_data_sources sources call sig four = (
    any_item W call.to sig (items W sources),
    (matches-items W sources call sig four).1,
    sources_iff call.to sig sources,
  )
