-- ===== src/Ethereum/ShortCalls.antt =====
-- Where the call filter of chain/ethereum/src/adapter.rs panics at a call whose input is too short.
use test_ci_for_massbitproto.Prelude.{
  ℕ, ◌<◌, length, Bool, true, false, ◌||◌, Option, none, some, is_some, List, [], ◌∷◌, ◌++◌, map,
  ite, ◌≡◌, ◌≢◌, ◌↔◌, inl, inr, refl, sym, ap, ◌∙◌, arith, Bool-cases,
}
use test_ci_for_massbitproto.Prelude.Any.{Any}
use test_ci_for_massbitproto.Prelude.Int.{ℤ}
use test_ci_for_massbitproto.Prelude.HashMap
use test_ci_for_massbitproto.Prelude.Outcome.{Outcome, done, panic}
use test_ci_for_massbitproto.Ethereum.Types.{
  Web3, DataSource, EthereumCall, FunctionSelector, MappingCallHandler, first_four,
}
use test_ci_for_massbitproto.Ethereum.CallFilter.{
  Wanted, Lookup, item_of, items_of, items, collect_item, collect, lower, with_default, from_iter,
  from_data_sources, matches_wanted, matches,
}
use test_ci_for_massbitproto.Ethereum.Matching.{got, IsSpecific, all-IsSpecific}

first_four-panic : (input : List ℕ) → (first_four input ≡ panic) ↔ (length input < 4)
first_four-panic [] = (λ h. omega arith, λ h. refl)
first_four-panic (a ∷ []) = (λ h. omega arith, λ h. refl)
first_four-panic (a ∷ b ∷ []) = (λ h. omega arith, λ h. refl)
first_four-panic (a ∷ b ∷ c ∷ []) = (λ h. omega arith, λ h. refl)
first_four-panic (a ∷ b ∷ c ∷ d ∷ rest) =
    (λ h. absurd (ground (arith, h)), λ h. absurd (omega (arith, h)))

module _ (W : Web3) where
  -- the address is that of some item
  abbrev any_address : W.Address → List (ℤ × W.Address × FunctionSelector) → Bool
  any_address to [] = false
  any_address to ((start_block, address, f) ∷ rest) =
      ite (W.address_discrete address to) true (any_address to rest)

  got-collect :
      (l : List (ℤ × W.Address × FunctionSelector)) (to : W.Address) (m : Lookup W)
      → is_some (got W to (collect W l m)) ≡ any_address to l || is_some (got W to m)
  unfolding collect collect_item
  got-collect [] to m = refl
  got-collect ((start_block, address, f) ∷ rest) to m =
      let w = lower W start_block f (with_default W start_block (got W address m)) in
      ground (
        arith,
        got-collect rest to (collect_item W (start_block, address, f) m),
        HashMap.get-insert W.address_discrete address to m w,
      )

  any_address-append :
      (to : W.Address) (xs ys : List (ℤ × W.Address × FunctionSelector))
      → any_address to (xs ++ ys) ≡ any_address to xs || any_address to ys
  any_address-append to [] ys = refl
  any_address-append to ((start, address, f) ∷ xs) ys = ground (arith, any_address-append to xs ys)

  handlers_at :
      (to address : W.Address) (start_block : ℤ) (handlers : List MappingCallHandler)
      → (any_address to (map (item_of W start_block address) handlers) ≡ true)
        ↔ ((address ≡ to) × (handlers ≢ []))
  handlers_at to address start_block [] = (λ h. absurd (ground (arith, h)), λ h. absurd (h.1 refl))
  handlers_at to address start_block (h ∷ handlers) =
      let ih = handlers_at to address start_block handlers in
      elim (W.address_discrete address to) [
        | yes p ↦ (λ e. (p, λ q. absurd (ground (arith, q))), λ m. ground arith)
        | no n ↦ (λ e. absurd (n (ih.0 (ground (arith, e, n))).0), λ m. absurd (n m.0))
      ]

  source_at :
      (to : W.Address) (ds : DataSource W)
      → (any_address to (items_of W ds) ≡ true)
        ↔ ((ds.source.address ≡ some to) × (ds.mapping.call_handlers ≢ []))
  source_at to ds = at ds.source.address
    where
      at :
          (o : Option W.Address)
          → (any_address to (elim o [
            | none ↦ []
            | some address ↦ map (item_of W ds.source.start_block address) ds.mapping.call_handlers
          ])
              ≡ true)
            ↔ ((o ≡ some to) × (ds.mapping.call_handlers ≢ []))
      at none = (λ h. absurd (ground (arith, h)), λ h. absurd (ground (arith, h.0)))
      at (some address) =
          let iff = handlers_at to address ds.source.start_block ds.mapping.call_handlers in
          (λ e. let (p, m) = iff.0 e in (ap some p, m), λ m. iff.1 (ground (arith, m.0), m.1))

  sources_at :
      (to : W.Address) (sources : List (DataSource W))
      → (any_address to (items W sources) ≡ true)
        ↔ Any (λ ds. (ds.source.address ≡ some to) × (ds.mapping.call_handlers ≢ [])) sources
  sources_at to [] = (λ h. absurd (ground (arith, h)), λ h. absurd h)
  sources_at to (ds ∷ rest) =
      let split = any_address-append to (items_of W ds) (items W rest) in
      (
        λ e. elim (Bool-cases (any_address to (items_of W ds))) [
          | inl here ↦ inl ((source_at to ds).0 here)
          | inr absent ↦ inr ((sources_at to rest).0 (ground (arith, split, e, absent)))
        ],
        λ m. split ∙ elim m [
          | inl here ↦ ground (arith, (source_at to ds).1 here)
          | inr later ↦ ground (arith, (sources_at to rest).1 later)
        ],
      )

  wanted_panic :
      (input : List ℕ) (o : Option Wanted)
      → IsSpecific o
      → (matches_wanted W input o ≡ panic) ↔ ((length input < 4) × (is_some o ≡ true))
  unfolding matches_wanted
  wanted_panic input none h = (λ e. absurd (ground (arith, e)), λ e. absurd (ground (arith, e.1)))
  wanted_panic input (some (start, sigs)) h = (
    λ e. ((first_four-panic input).0 (four (first_four input) refl e), refl),
    λ e. ground (arith, h, (first_four-panic input).1 e.0),
  )
    where
      four :
          (o : Outcome FunctionSelector)
          → first_four input ≡ o
          → matches_wanted W input (some (start, sigs)) ≡ panic
          → first_four input ≡ panic
      four (done sig) p e = absurd (ground (arith, h, p, e))
      four (Outcome.failed m) p e = absurd (ground (arith, h, p, e))
      four panic p e = p

  -- The call filter of data sources panics exactly at the calls whose input has fewer than four bytes and
  -- whose address is that of a data source with call handlers.
  pub matches-short :
      (sources : List (DataSource W)) (call : EthereumCall W)
      → (matches W (from_data_sources W sources) call ≡ panic) ↔ (
          (length call.input < 4)
          × Any
              (λ ds. (ds.source.address ≡ some call.to) × (ds.mapping.call_handlers ≢ []))
              sources)
  unfolding from_data_sources from_iter matches
  matches-short sources call =
      let asked = got W call.to (collect W (items W sources) (HashMap.new W.address_discrete)) in
      let iff = wanted_panic call.input asked (all-IsSpecific W sources call.to) in
      let there : is_some asked ≡ any_address call.to (items W sources) = ground (
        arith,
        got-collect (items W sources) call.to (HashMap.new W.address_discrete),
        HashMap.get-new W.address_discrete {V = Wanted} call.to,
      ) in
      (
        λ e.
            let (short, found) = iff.0 e in
            (short, (sources_at call.to sources).0 (sym there ∙ found)),
        λ m. iff.1 (m.0, there ∙ (sources_at call.to sources).1 m.1),
      )
