-- ===== src/Ethereum/Completeness.antt =====
-- The filters of chain/ethereum/src/adapter.rs let every trigger through for which a data source has a handler,
-- as chain/ethereum/src/data_source.rs finds it.
use test_ci_for_massbitproto.Prelude.{
  true, false, ◌||◌, Option, none, some, ◌⊎◌, ite, List, [], ◌∷◌, ◌++◌, ◌≡◌, if◌then◌else◌, refl,
  sym, ap, ◌∙◌, subst, arith, inl, inr, map,
}
use test_ci_for_massbitproto.Prelude.Int.{ℤ}
use test_ci_for_massbitproto.Prelude.Any.{Any, Any-map, Any-append_left, Any-append_right}
use test_ci_for_massbitproto.Prelude.Outcome.{Outcome, done, failed, panic}
use test_ci_for_massbitproto.Ethereum.Types.{
  Web3, DataSource, EthereumCall, FunctionSelector, MappingCallHandler, MappingEventHandler,
  selector_discrete, first_four, event_topic0,
}
use test_ci_for_massbitproto.Ethereum.Trigger.{Log}
use test_ci_for_massbitproto.Ethereum.LogFilter as Logs
use test_ci_for_massbitproto.Ethereum.CallFilter as Calls
use test_ci_for_massbitproto.Ethereum.Matching.{any_item, matches-items}
use test_ci_for_massbitproto.Ethereum.Handlers.{
  find, filter, has_selector, has_topic0, target_method_id, handler_for_call, handlers_for_log,
}

module _ (W : Web3) where
  -- A call handler that is found makes an item of its contract and function.
  any_item-handlers :
      (start_block : ℤ) (to : W.Address) (sig : FunctionSelector)
      (handlers : List MappingCallHandler) (h : MappingCallHandler)
      → find (has_selector W sig) handlers ≡ some h
      → any_item W to sig (map (Calls.item_of W start_block to) handlers) ≡ true
  any_item-handlers start_block to sig [] h found = absurd (ground (arith, found))
  any_item-handlers start_block to sig (g ∷ handlers) h found =
      let ih = any_item-handlers start_block to sig handlers h in
      elim (selector_discrete sig (W.keccak256_selector g.function)) [
        | yes p ↦ ground arith
        | no n ↦ ground (arith, ih (ground (arith, found)))
      ]

  pub any_item-append :
      (to : W.Address) (sig : FunctionSelector) (xs ys : List (ℤ × W.Address × FunctionSelector))
      → any_item W to sig (xs ++ ys) ≡ any_item W to sig xs || any_item W to sig ys
  any_item-append to sig [] ys = refl
  any_item-append to sig ((start, address, f) ∷ xs) ys =
      ground (arith, any_item-append to sig xs ys)

  any_item-items :
      (sources : List (DataSource W)) (ds : DataSource W) (to : W.Address) (sig : FunctionSelector)
      → Any (λ d. d ≡ ds) sources
      → any_item W to sig (Calls.items_of W ds) ≡ true
      → any_item W to sig (Calls.items W sources) ≡ true
  any_item-items [] ds to sig m h = absurd m
  any_item-items (d ∷ rest) ds to sig (inl same) h =
      any_item-append to sig (Calls.items_of W d) (Calls.items W rest)
      ∙ ground (arith, h, ap (λ x. any_item W to sig (Calls.items_of W x)) same)
  any_item-items (d ∷ rest) ds to sig (inr m) h =
      any_item-append to sig (Calls.items_of W d) (Calls.items W rest)
      ∙ ground (arith, any_item-items rest ds to sig m h)

  pub found_selector :
      (ds : DataSource W) (call : EthereumCall W) (h : MappingCallHandler)
      (o : Outcome FunctionSelector)
      → first_four call.input ≡ o
      → handler_for_call W ds call ≡ done (some h)
      → (sig : FunctionSelector) × (first_four call.input ≡ done sig)
        × (find (has_selector W sig) ds.mapping.call_handlers ≡ some h)
  unfolding handler_for_call target_method_id
  found_selector ds call h (done sig) p found = (sig, p, ground (arith, p, found))
  found_selector ds call h (failed e) p found = absurd (ground (arith, p, found))
  found_selector ds call h panic p found = absurd (ground (arith, p, found))

  -- A call to the address of a data source that has a handler for it passes the call filter of any
  -- data sources among which that one is.
  pub matches-handler_for_call :
      (sources : List (DataSource W)) (ds : DataSource W) (call : EthereumCall W)
      (h : MappingCallHandler)
      → Any (λ d. d ≡ ds) sources
      → ds.source.address ≡ some call.to
      → handler_for_call W ds call ≡ done (some h)
      → Calls.matches W (Calls.from_data_sources W sources) call ≡ done true
  matches-handler_for_call sources ds call h m address found =
      let (sig, four, is_handler) = found_selector ds call h (first_four call.input) refl found in
      let item : any_item W call.to sig (Calls.items_of W ds) ≡ true = ground (
        arith,
        address,
        any_item-handlers ds.source.start_block call.to sig ds.mapping.call_handlers h is_handler,
      ) in
      (matches-items W sources call sig four).1
      ∙ ap done (any_item-items sources ds call.to sig m item)

  filter-member :
      (topic0 : W.H256) (handlers : List (MappingEventHandler W)) (h : MappingEventHandler W)
      → Any (λ g. g ≡ h) (filter (has_topic0 W topic0) handlers)
      → Any (λ g. (g ≡ h) × (event_topic0 W g ≡ topic0)) handlers
  filter-member topic0 [] h m = m
  filter-member topic0 (g ∷ handlers) h m =
      elim (W.h256_discrete topic0 (event_topic0 W g))
          as (λ d.
            Any (λ g. g ≡ h)
              (if ite d true false
                then g ∷ filter (has_topic0 W topic0) handlers
                else filter (has_topic0 W topic0) handlers)
            → Any (λ g. (g ≡ h) × (event_topic0 W g ≡ topic0)) (g ∷ handlers)) [
              | yes p ↦ λ m. elim m [
                | inl same ↦ inl (same, sym p)
                | inr other ↦ inr (filter-member topic0 handlers h other)
              ]
              | no n ↦ λ m. inr (filter-member topic0 handlers h m)
            ]
        m

  wanted-handler :
      (ds : DataSource W) (topic0 : W.H256) (handlers : List (MappingEventHandler W))
      (h : MappingEventHandler W)
      → Any (λ g. (g ≡ h) × (event_topic0 W g ≡ topic0)) handlers
      → Any
          (λ f. f ≡ Logs.logs_filter W ds.source.address topic0)
          (map (λ g. Logs.logs_filter W ds.source.address (event_topic0 W g)) handlers)
  wanted-handler ds topic0 [] h m = absurd m
  wanted-handler ds topic0 (g ∷ handlers) h (inl same) =
      inl (ap (Logs.logs_filter W ds.source.address) same.1)
  wanted-handler ds topic0 (g ∷ handlers) h (inr m) = inr (wanted-handler ds topic0 handlers h m)

  wanted-source :
      (sources : List (DataSource W)) (ds : DataSource W) (P : Logs.EthGetLogsFilter W → Type 0)
      → Any (λ d. d ≡ ds) sources
      → Any P (
          map
            (λ g. Logs.logs_filter W ds.source.address (event_topic0 W g))
            ds.mapping.event_handlers)
      → Any P (Logs.wanted W sources)
  wanted-source [] ds P m h = absurd m
  wanted-source (d ∷ rest) ds P (inl same) h =
      let all = λ (x : DataSource W).
        map (λ g. Logs.logs_filter W x.source.address (event_topic0 W g))
          x.mapping.event_handlers in
      Any-append_left P (all d) (Logs.wanted W rest) (subst (λ x. Any P (all x)) (sym same) h)
  wanted-source (d ∷ rest) ds P (inr m) h =
      Any-append_right P
        (map (λ g. Logs.logs_filter W d.source.address (event_topic0 W g)) d.mapping.event_handlers)
        (Logs.wanted W rest) (wanted-source rest ds P m h)

  -- What a log filter with one signature asks for, at the address if there is one.
  abbrev pub IsFor : Option W.Address → W.H256 → Logs.EthGetLogsFilter W → Type 0
  IsFor address topic f =
      (f.event_signatures ≡ topic ∷ [])
      × (((address ≡ none) × (f.contracts ≡ []))
          ⊎ ((contract : W.Address) × (address ≡ some contract) × (f.contracts ≡ contract ∷ [])))

  pub IsFor-logs_filter :
      (address : Option W.Address) (topic : W.H256) (f : Logs.EthGetLogsFilter W)
      → Logs.logs_filter W address topic ≡ f
      → IsFor address topic f
  unfolding Logs.logs_filter
  IsFor-logs_filter none topic f h = subst (IsFor none topic) h (refl, inl (refl, refl))
  IsFor-logs_filter (some a) topic f h = subst (IsFor (some a) topic) h (refl, inr (a, refl, refl))

  -- Where a data source has a handler for a log, the log filter of any data sources among which that
  -- one is has an entry whose only signature is the log's first topic, and whose only contract is the
  -- address of the data source, or which has no contract where the data source has no address.
  pub logs_filter-handlers_for_log :
      (sources : List (DataSource W)) (ds : DataSource W) (log : Log W) (topic0 : W.H256)
      (topics : List W.H256) (handlers : List (MappingEventHandler W)) (h : MappingEventHandler W)
      → Any (λ d. d ≡ ds) sources
      → log.topics ≡ topic0 ∷ topics
      → handlers_for_log W ds log ≡ done handlers
      → Any (λ g. g ≡ h) handlers
      → Any
          (λ f.
            (f.event_signatures ≡ topic0 ∷ [])
            × (((ds.source.address ≡ none) × (f.contracts ≡ []))
                ⊎ ((contract : W.Address) × (ds.source.address ≡ some contract)
                    × (f.contracts ≡ contract ∷ []))))
          (Logs.from_data_sources W sources).eth_logs_filters
  unfolding handlers_for_log
  logs_filter-handlers_for_log sources ds log topic0 topics handlers h m first found is_handler =
      let same : filter (has_topic0 W topic0) ds.mapping.event_handlers ≡ handlers =
        ground (arith, first, found) in
      Any-map (λ f. f ≡ Logs.logs_filter W ds.source.address topic0) _
        (Logs.from_data_sources W sources).eth_logs_filters
        (λ f same_filter. IsFor-logs_filter ds.source.address topic0 f (sym same_filter))
        (subst (Any (λ f. f ≡ Logs.logs_filter W ds.source.address topic0))
          (sym (Logs.from_data_sources_lem W sources))
          (wanted-source sources ds (λ f. f ≡ Logs.logs_filter W ds.source.address topic0) m
            (wanted-handler ds topic0 ds.mapping.event_handlers h (
              filter-member topic0 ds.mapping.event_handlers h
                (subst (Any (λ g. g ≡ h)) (sym same) is_handler)))))
