-- ===== src/Ethereum/Topics.antt =====
-- Which logs the log filter of chain/ethereum/src/adapter.rs asks for.
use test_ci_for_massbitproto.Prelude.{
  Option, none, some, List, [], ◌∷◌, ◌++◌, map, ◌≡◌, ◌⊎◌, ◌↔◌, inl, inr, refl, sym, ap, ◌∙◌, subst,
  arith,
}
use test_ci_for_massbitproto.Prelude.Any.{Any, Any-append_left, Any-append_right}
use test_ci_for_massbitproto.Ethereum.Types.{Web3, DataSource, MappingEventHandler, event_topic0}
use test_ci_for_massbitproto.Ethereum.LogFilter.{
  EthGetLogsFilter, logs_filter, wanted, from_data_sources, from_data_sources_lem,
}
use test_ci_for_massbitproto.Ethereum.Completeness.{IsFor, IsFor-logs_filter}

-- Some element of a list, or of one that follows it.
Any-append {ℓ} :
    {A : Type ℓ} (P : A → Type 0) (xs ys : List A) → Any P (xs ++ ys) → Any P xs ⊎ Any P ys
Any-append P [] ys h = inr h
Any-append P (x ∷ xs) ys (inl p) = inl (inl p)
Any-append P (x ∷ xs) ys (inr h) = elim (Any-append P xs ys h) [
  | inl q ↦ inl (inr q)
  | inr q ↦ inr q
]

module _ (W : Web3) where
  -- the topic of the handler: its own, or the hash of its event
  abbrev HasTopic : MappingEventHandler W → W.H256 → Type 0
  HasTopic h topic = (h.topic0 ≡ some topic) ⊎ ((h.topic0 ≡ none) × (topic ≡ W.event_hash h.event))

  HasTopic-event_topic0 : (h : MappingEventHandler W) → HasTopic h (event_topic0 W h)
  unfolding event_topic0
  HasTopic-event_topic0 h = at h.topic0
    where
      at :
          (o : Option W.H256)
          → (o ≡ some (elim o [ none ↦ W.event_hash h.event | some t ↦ t ]))
            ⊎ ((o ≡ none)
                × (elim o [ none ↦ W.event_hash h.event | some t ↦ t ] ≡ W.event_hash h.event))
      at none = inr (refl, refl)
      at (some t) = inl refl

  HasTopic-unique :
      (h : MappingEventHandler W) (topic : W.H256) → HasTopic h topic → event_topic0 W h ≡ topic
  unfolding event_topic0
  HasTopic-unique h topic (inl p) = ground (arith, p)
  HasTopic-unique h topic (inr (p, q)) = ground (arith, p, q)

  IsFor-unique :
      (address : Option W.Address) (topic : W.H256) (f : EthGetLogsFilter W)
      → IsFor W address topic f
      → logs_filter W address topic ≡ f
  unfolding logs_filter
  IsFor-unique none topic f (sigs, inl (p, q)) =
      λ i. record { contracts = sym q i; event_signatures = sym sigs i }
  IsFor-unique none topic f (sigs, inr (a, p, q)) = absurd (ground (arith, p))
  IsFor-unique (some b) topic f (sigs, inl (p, q)) = absurd (ground (arith, p))
  IsFor-unique (some b) topic f (sigs, inr (a, p, q)) =
      let same : b ≡ a = ground (arith, p) in
      λ i. record { contracts = (ap (λ c. c ∷ []) same ∙ sym q) i; event_signatures = sym sigs i }

  -- the filter is the one that the handler asks for, at the address of its data source
  abbrev IsWanted : DataSource W → EthGetLogsFilter W → MappingEventHandler W → Type 0
  IsWanted ds f h = (topic : W.H256) × HasTopic h topic × IsFor W ds.source.address topic f

  handlers_iff :
      (ds : DataSource W) (f : EthGetLogsFilter W) (handlers : List (MappingEventHandler W))
      → Any (λ g. g ≡ f) (map (λ h. logs_filter W ds.source.address (event_topic0 W h)) handlers)
        ↔ Any (IsWanted ds f) handlers
  handlers_iff ds f [] = (λ m. m, λ m. m)
  handlers_iff ds f (h ∷ handlers) =
      let ih = handlers_iff ds f handlers in
      (
        λ m. elim m [
          | inl e ↦ inl (
            event_topic0 W h,
            HasTopic-event_topic0 h,
            IsFor-logs_filter W ds.source.address (event_topic0 W h) f e,
          )
          | inr later ↦ inr (ih.0 later)
        ],
        λ m. elim m [
          | inl (topic, has, asks) ↦ inl (
              ap (logs_filter W ds.source.address) (HasTopic-unique h topic has)
              ∙ IsFor-unique ds.source.address topic f asks)
          | inr later ↦ inr (ih.1 later)
        ],
      )

  sources_iff :
      (f : EthGetLogsFilter W) (sources : List (DataSource W))
      → Any (λ g. g ≡ f) (wanted W sources)
        ↔ Any (λ ds. Any (IsWanted ds f) ds.mapping.event_handlers) sources
  sources_iff f [] = (λ m. m, λ m. m)
  sources_iff f (ds ∷ rest) =
      let here = handlers_iff ds f ds.mapping.event_handlers in
      let first =
        map (λ h. logs_filter W ds.source.address (event_topic0 W h)) ds.mapping.event_handlers in
      (
        λ m. elim (Any-append (λ g. g ≡ f) first (wanted W rest) m) [
          | inl q ↦ inl (here.0 q)
          | inr q ↦ inr ((sources_iff f rest).0 q)
        ],
        λ m. elim m [
          | inl q ↦ Any-append_left (λ g. g ≡ f) first (wanted W rest) (here.1 q)
          | inr q ↦ Any-append_right (λ g. g ≡ f) first (wanted W rest) ((sources_iff f rest).1 q)
        ],
      )

  -- The log filter of data sources has exactly the entries whose only signature is the topic of an
  -- event handler of a data source, its own or the hash of its event, and whose only contract is the
  -- address of that data source, or which have no contract where it has no address.
  pub logs_filters_lem :
      (sources : List (DataSource W)) (f : EthGetLogsFilter W)
      → Any (λ g. g ≡ f) (from_data_sources W sources).eth_logs_filters
        ↔ Any
            (λ ds.
              Any
                (λ h.
                  (topic : W.H256) × ((h.topic0 ≡ some topic)
                    ⊎ ((h.topic0 ≡ none) × (topic ≡ W.event_hash h.event)))
                  × ((f.event_signatures ≡ topic ∷ [])
                      × (((ds.source.address ≡ none) × (f.contracts ≡ []))
                          ⊎ ((contract : W.Address) × (ds.source.address ≡ some contract)
                              × (f.contracts ≡ contract ∷ [])))))
                ds.mapping.event_handlers)
            sources
  logs_filters_lem sources f =
      let iff = sources_iff f sources in
      let same = from_data_sources_lem W sources in
      (
        λ m. iff.0 (subst (Any (λ g. g ≡ f)) same m),
        λ m. subst (Any (λ g. g ≡ f)) (sym same) (iff.1 m),
      )
