-- ===== src/Ethereum/Validation.antt =====
-- What the validation of a data source in chain/ethereum/src/data_source.rs is good for.
use test_ci_for_massbitproto.Prelude.{
  ◌≤◌, Bool, true, false, is_some, Option, none, some, List, [], ◌∷◌, ◌≡◌, refl, ap, arith, inl,
  inr,
}
use test_ci_for_massbitproto.Prelude.Any.{Any}
use test_ci_for_massbitproto.Ethereum.Types.{
  Web3, DataSource, MappingBlockHandler, BlockHandlerFilter,
}
use test_ci_for_massbitproto.Ethereum.Trigger.{EthereumBlockTriggerType}
use test_ci_for_massbitproto.Ethereum.Handlers.{
  has_no_filter, has_call_filter, find, count, handler_for_block, validate,
}

count-positive :
    {A : Type 0} (pred : A → Bool) (l : List A) (h : A)
    → Any (λ x. x ≡ h) l
    → pred h ≡ true
    → 1 ≤ count pred l
count-positive pred [] h m p = absurd m
count-positive pred (x ∷ xs) h (inl same) p = ground (arith, p, ap pred same)
count-positive pred (x ∷ xs) h (inr m) p = omega (arith, count-positive pred xs h m p)

-- The only element that satisfies a test is the one that is found.
find_unique :
    {A : Type 0} (pred : A → Bool) (l : List A) (h : A)
    → Any (λ x. x ≡ h) l
    → pred h ≡ true
    → count pred l ≤ 1
    → find pred l ≡ some h
find_unique pred [] h m p few = absurd m
find_unique pred (x ∷ xs) h (inl same) p few = ground (arith, p, same, ap pred same)
find_unique pred (x ∷ xs) h (inr m) p few =
    ground (arith, count-positive pred xs h m p, find_unique pred xs h m p (ground arith))

has_call_filter_lem : (h : MappingBlockHandler) → is_some h.filter ≡ has_call_filter h
has_call_filter_lem h = by_filter h.filter
  where
    by_filter :
        (f : Option BlockHandlerFilter)
        → is_some f ≡ elim f [ none ↦ false | some g ↦ elim g [ BlockHandlerFilter.call ↦ true ] ]
    by_filter none = refl
    by_filter (some BlockHandlerFilter.call) = refl

count-filters :
    (l : List MappingBlockHandler) → count (λ h. is_some h.filter) l ≡ count has_call_filter l
count-filters [] = refl
count-filters (h ∷ l) = ground (arith, has_call_filter_lem h, count-filters l)

module _ (W : Web3) where
  -- A block handler is for the triggers without a filter, or for those of calls to the data source.
  abbrev pub wants : EthereumBlockTriggerType W → MappingBlockHandler → Bool
  wants EthereumBlockTriggerType.every h = has_no_filter h
  wants (EthereumBlockTriggerType.with_call_to address) h = has_call_filter h

  -- Where the validation of a data source finds no error, each of its block handlers is the one that a
  -- block trigger of the handler's kind gets: none is hidden by another one.
  pub handler_for_block-validate :
      (ds : DataSource W) (trigger_type : EthereumBlockTriggerType W) (h : MappingBlockHandler)
      → validate W ds ≡ []
      → Any (λ g. g ≡ h) ds.mapping.block_handlers
      → wants trigger_type h ≡ true
      → handler_for_block W ds trigger_type ≡ some h
  unfolding handler_for_block validate
  handler_for_block-validate ds EthereumBlockTriggerType.every h valid m p =
      find_unique has_no_filter ds.mapping.block_handlers h m p (ground (arith, valid))
  handler_for_block-validate ds (EthereumBlockTriggerType.with_call_to address) h valid m p =
      find_unique has_call_filter ds.mapping.block_handlers h m p
        (ground (arith, valid, count-filters ds.mapping.block_handlers))
