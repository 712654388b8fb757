-- ===== src/Ethereum/Matching.antt =====
-- Which calls the call filter of chain/ethereum/src/adapter.rs matches.
use test_ci_for_massbitproto.Prelude.{
  ℕ, Bool, true, false, ◌||◌, Option, none, some, List, [], ◌∷◌, ite, ◌≡◌, refl, sym, ap, ◌∙◌,
  arith, if_pos, if_neg, subst, Bool-cases, inl, inr, is_some,
}
use test_ci_for_massbitproto.Prelude.Int.{ℤ}
use test_ci_for_massbitproto.Prelude.HashMap
use test_ci_for_massbitproto.Prelude.HashMap.{for_each, lookup-for_each}
use test_ci_for_massbitproto.Prelude.Outcome.{done}
use test_ci_for_massbitproto.Ethereum.Types.{
  Web3, DataSource, EthereumCall, FunctionSelector, Selectors, selector_discrete, first_four,
}
use test_ci_for_massbitproto.Ethereum.CallFilter.{
  Wanted, Lookup, EthereumCallFilter, is_empty, add_signature, matches_wanted, matches,
  with_default, lower, collect_item, collect, from_iter, items, from_data_sources,
}

abbrev pub contains : FunctionSelector → Selectors → Bool
contains sig sigs = HashMap.contains_key selector_discrete sig sigs

-- The function is asked for.
abbrev pub has : FunctionSelector → Option Wanted → Bool
has sig none = false
has sig (some (start_block, sigs)) = contains sig sigs

-- Some function is asked for, of a contract that is asked for.
abbrev pub IsSpecific : Option Wanted → Type 0
IsSpecific none = Unit
IsSpecific (some (start_block, sigs)) = is_empty sigs ≡ false

contains-add_signature :
    (f sig : FunctionSelector) (sigs : Selectors)
    → contains sig (add_signature f tt sigs)
      ≡ ite (selector_discrete f sig) true (contains sig sigs)
unfolding add_signature HashMap.contains_key
contains-add_signature f sig sigs =
    ground (arith, HashMap.get-insert selector_discrete f sig sigs tt)

pub get-add_signature :
    (f sig : FunctionSelector) (u : Unit {0}) (sigs : Selectors)
    → HashMap.get selector_discrete sig (add_signature f u sigs)
      ≡ ite (selector_discrete f sig) (some u) (HashMap.get selector_discrete sig sigs)
unfolding add_signature
get-add_signature f sig u sigs = HashMap.get-insert selector_discrete f sig sigs u

lookup_empty :
    (sig : FunctionSelector) (l : List (FunctionSelector × Unit {0}))
    → elim l [ [] ↦ true | x ∷ xs ↦ false ] ≡ true
    → HashMap.lookup selector_discrete sig l ≡ none
unfolding HashMap.lookup
lookup_empty sig [] h = refl
lookup_empty sig (x ∷ xs) h = absurd (ground arith)

contains-empty :
    (sig : FunctionSelector) (sigs : Selectors) → is_empty sigs ≡ true → contains sig sigs ≡ false
unfolding HashMap.contains_key HashMap.get
contains-empty sig sigs h = ap is_some (lookup_empty sig sigs.entries h)

pub is_empty-contains :
    (sig : FunctionSelector) (sigs : Selectors) → contains sig sigs ≡ true → is_empty sigs ≡ false
is_empty-contains sig sigs h = elim (Bool-cases (is_empty sigs)) [
  | inl e ↦ absurd (ground (arith, contains-empty sig sigs e))
  | inr e ↦ e
]

is_empty-add_signature :
    (f : FunctionSelector) (sigs : Selectors) → is_empty (add_signature f tt sigs) ≡ false
is_empty-add_signature f sigs =
    is_empty-contains f (add_signature f tt sigs) (ground (arith, contains-add_signature f f sigs))

module _ (W : Web3) where
  -- Every contract is asked for with at least one function.
  abbrev pub AllSpecific : EthereumCallFilter W → Type 0
  AllSpecific this =
      (address : W.Address)
      → IsSpecific
          (HashMap.get W.address_discrete address this.contract_addresses_function_signatures)

  -- The function of the contract is among the items.
  abbrev pub any_item :
      W.Address → FunctionSelector → List (ℤ × W.Address × FunctionSelector) → Bool
  any_item to sig [] = false
  any_item to sig ((start_block, address, f) ∷ rest) =
      let found = any_item to sig rest in
      ite (W.address_discrete address to) (ite (selector_discrete f sig) true found) found

  abbrev pub got : W.Address → Lookup W → Option Wanted
  got = HashMap.get W.address_discrete

  has-lower :
      (start_block : ℤ) (f sig : FunctionSelector) (o : Option Wanted)
      → has sig (some (lower W start_block f (with_default W start_block o)))
        ≡ ite (selector_discrete f sig) true (has sig o)
  unfolding lower with_default HashMap.contains_key
  has-lower start_block f sig none = ground (
    arith,
    contains-add_signature f sig (HashMap.new selector_discrete),
    HashMap.get-new selector_discrete {V = Unit {0}} sig,
  )
  has-lower start_block f sig (some (start, sigs)) = contains-add_signature f sig sigs

  has-collect_item :
      (start_block : ℤ) (address to : W.Address) (f sig : FunctionSelector) (m : Lookup W)
      → has sig (got to (collect_item W (start_block, address, f) m))
        ≡ ite
            (W.address_discrete address to)
            (ite (selector_discrete f sig) true (has sig (got to m)))
            (has sig (got to m))
  unfolding collect_item
  has-collect_item start_block address to f sig m =
      let w = lower W start_block f (with_default W start_block (got address m)) in
      let at = HashMap.get-insert W.address_discrete address to m w in
      elim (W.address_discrete address to) [
        | yes p ↦
            ap (has sig) (at ∙ if_pos (W.address_discrete address to) p _ _)
            ∙ has-lower start_block f sig (got address m)
            ∙ ap (λ a. ite (selector_discrete f sig) true (has sig (got a m))) p
            ∙ sym (if_pos (W.address_discrete address to) p _ _)
        | no n ↦
            ap (has sig) (at ∙ if_neg (W.address_discrete address to) n _ _)
            ∙ sym (if_neg (W.address_discrete address to) n _ _)
      ]

  IsSpecific-lower :
      (start_block : ℤ) (f : FunctionSelector) (w : Wanted)
      → IsSpecific (some (lower W start_block f w))
  unfolding lower
  IsSpecific-lower start_block f (start, sigs) = is_empty-add_signature f sigs

  IsSpecific-collect_item :
      (item : ℤ × W.Address × FunctionSelector) (to : W.Address) (m : Lookup W)
      → IsSpecific (got to m)
      → IsSpecific (got to (collect_item W item m))
  unfolding collect_item
  IsSpecific-collect_item (start_block, address, f) to m h =
      let w = lower W start_block f (with_default W start_block (got address m)) in
      let at = HashMap.get-insert W.address_discrete address to m w in
      elim (W.address_discrete address to) [
        | yes p ↦
            subst IsSpecific (sym (at ∙ if_pos (W.address_discrete address to) p _ _))
              (IsSpecific-lower start_block f (with_default W start_block (got address m)))
        | no n ↦ subst IsSpecific (sym (at ∙ if_neg (W.address_discrete address to) n _ _)) h
      ]

  IsSpecific-collect :
      (l : List (ℤ × W.Address × FunctionSelector)) (to : W.Address) (m : Lookup W)
      → IsSpecific (got to m)
      → IsSpecific (got to (collect W l m))
  unfolding collect
  IsSpecific-collect [] to m h = h
  IsSpecific-collect (item ∷ rest) to m h =
      IsSpecific-collect rest to (collect_item W item m) (IsSpecific-collect_item item to m h)

  has-collect :
      (l : List (ℤ × W.Address × FunctionSelector)) (to : W.Address) (sig : FunctionSelector)
      (m : Lookup W)
      → has sig (got to (collect W l m)) ≡ any_item to sig l || has sig (got to m)
  unfolding collect
  has-collect [] to sig m = refl
  has-collect ((start_block, address, f) ∷ rest) to sig m =
      let first = has-collect_item start_block address to f sig m in
      let others = has-collect rest to sig (collect_item W (start_block, address, f) m) in
      ground (arith, first, others)

  -- A contract that is asked for with some function.
  pub matches_wanted_lem :
      (input : List ℕ) (o : Option Wanted) (sig : FunctionSelector)
      → IsSpecific o
      → first_four input ≡ done sig
      → matches_wanted W input o ≡ done (has sig o)
  unfolding matches_wanted
  matches_wanted_lem input none sig h p = refl
  matches_wanted_lem input (some (start, sigs)) sig h p = ground (arith, p, h)

  -- The call filter of data sources asks for some function of each contract.
  pub all-IsSpecific :
      (sources : List (DataSource W)) (a : W.Address)
      → IsSpecific (got a (collect W (items W sources) (HashMap.new W.address_discrete)))
  all-IsSpecific sources a =
      IsSpecific-collect (items W sources) a (HashMap.new W.address_discrete)
        (subst IsSpecific (sym (HashMap.get-new W.address_discrete {V = Wanted} a)) tt)

  -- The call filter of data sources in terms of its items.
  pub matches-items :
      (sources : List (DataSource W)) (call : EthereumCall W) (sig : FunctionSelector)
      → first_four call.input ≡ done sig
      → AllSpecific (from_data_sources W sources)
        × (matches W (from_data_sources W sources) call
            ≡ done (any_item call.to sig (items W sources)))
  unfolding from_data_sources from_iter matches
  matches-items sources call sig p =
      let none_yet = λ (a : W.Address). HashMap.get-new W.address_discrete {V = Wanted} a in
      (
        all-IsSpecific sources,
        matches_wanted_lem call.input _ sig (all-IsSpecific sources call.to) p
            ∙ ap done (
                ground (
                  arith,
                  none_yet call.to,
                  has-collect (items W sources) call.to sig (HashMap.new W.address_discrete),
                )),
      )
