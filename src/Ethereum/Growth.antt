-- ===== src/Ethereum/Growth.antt =====
-- The trigger filter of chain/ethereum/src/adapter.rs that grows with the data sources that are created while
-- an indexer runs.
use test_ci_for_massbitproto.Prelude.{
  true, false, ◌||◌, some, List, ◌≡◌, ◌⊎◌, inl, inr, refl, sym, subst, arith,
}
use test_ci_for_massbitproto.Prelude.Any.{Any}
use test_ci_for_massbitproto.Prelude.HashMap
use test_ci_for_massbitproto.Prelude.Outcome.{done}
use test_ci_for_massbitproto.Ethereum.Types.{
  Web3, DataSource, EthereumCall, FunctionSelector, MappingCallHandler, first_four,
}
use test_ci_for_massbitproto.Ethereum.CallFilter as Calls
use test_ci_for_massbitproto.Ethereum.CallFilter.{Wanted}
use test_ci_for_massbitproto.Ethereum.TriggerFilter.{new, extend, from_data_sources}
use test_ci_for_massbitproto.Ethereum.Matching.{IsSpecific, AllSpecific, any_item, matches-items}
use test_ci_for_massbitproto.Ethereum.Extension.{matches-extend}
use test_ci_for_massbitproto.Ethereum.Handlers.{handler_for_call}
use test_ci_for_massbitproto.Ethereum.Completeness.{found_selector, matches-handler_for_call}

module _ (W : Web3) where
  new-AllSpecific : AllSpecific W (Calls.new W)
  unfolding Calls.new
  new-AllSpecific a = subst IsSpecific (sym (HashMap.get-new W.address_discrete {V = Wanted} a)) tt

  matches-new : (call : EthereumCall W) → Calls.matches W (Calls.new W) call ≡ done false
  unfolding Calls.matches Calls.new Calls.matches_wanted
  matches-new call = ground (arith, HashMap.get-new W.address_discrete {V = Wanted} call.to)

  -- The call filter of a trigger filter that was made for `old` and extended for `more`.
  grown :
      (old more : List (DataSource W)) (call : EthereumCall W) (sig : FunctionSelector)
      → first_four call.input ≡ done sig
      → Calls.matches W (extend W more (from_data_sources W old)).call call
        ≡ done (
            any_item W call.to sig (Calls.items W more)
            || (any_item W call.to sig (Calls.items W old) || false))
  unfolding extend from_data_sources new
  grown old more call sig four =
      let (old_specific, old_matches) = matches-items W old call sig four in
      let (more_specific, more_matches) = matches-items W more call sig four in
      let (specific, first) =
        matches-extend W (Calls.new W) (Calls.from_data_sources W old) call sig new-AllSpecific
          old_specific four false (any_item W call.to sig (Calls.items W old)) (matches-new call)
          old_matches in
      (matches-extend W (Calls.extend W (Calls.new W) (Calls.from_data_sources W old))
        (Calls.from_data_sources W more) call sig specific more_specific four
        (any_item W call.to sig (Calls.items W old) || false)
        (any_item W call.to sig (Calls.items W more)) first more_matches).1

  -- A call to the address of a data source that has a call handler for it passes the trigger filter that
  -- was made for some data sources and extended for more, if the data source is among either.
  pub trigger_filter-handler_for_call :
      (old more : List (DataSource W)) (ds : DataSource W) (call : EthereumCall W)
      (h : MappingCallHandler)
      → Any (λ d. d ≡ ds) old ⊎ Any (λ d. d ≡ ds) more
      → ds.source.address ≡ some call.to
      → handler_for_call W ds call ≡ done (some h)
      → Calls.matches W (extend W more (from_data_sources W old)).call call ≡ done true
  trigger_filter-handler_for_call old more ds call h m address found =
      let (sig, four, is_handler) = found_selector W ds call h (first_four call.input) refl found in
      let all = grown old more call sig four in
      elim m [
        | inl in_old ↦ ground (
          arith,
          all,
          matches-handler_for_call W old ds call h in_old address found,
          (matches-items W old call sig four).1,
        )
        | inr in_more ↦ ground (
          arith,
          all,
          matches-handler_for_call W more ds call h in_more address found,
          (matches-items W more call sig four).1,
        )
      ]
