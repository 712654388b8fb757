-- ===== src/Ethereum/Extension.antt =====
-- The call filter of chain/ethereum/src/adapter.rs that is extended with another one.
use test_ci_for_massbitproto.Prelude.{
  Bool, true, false, ◌||◌, Option, none, some, List, [], ◌∷◌, ◌≡◌, refl, sym, ap, ◌∙◌, arith, subst,
  is_some,
}
use test_ci_for_massbitproto.Prelude.HashMap
use test_ci_for_massbitproto.Prelude.HashMap.{for_each, lookup-for_each}
use test_ci_for_massbitproto.Prelude.Outcome.{done}
use test_ci_for_massbitproto.Ethereum.Types.{
  Web3, EthereumCall, FunctionSelector, Selectors, selector_discrete, first_four,
}
use test_ci_for_massbitproto.Ethereum.CallFilter.{
  Wanted, EthereumCallFilter, is_empty, add_signature, matches, joined, extend_at, extend,
}
use test_ci_for_massbitproto.Ethereum.Matching.{
  contains, has, IsSpecific, AllSpecific, got, get-add_signature, is_empty-contains,
  matches_wanted_lem,
}

first_contained :
    (l : List (FunctionSelector × Unit {0}))
    → elim l [ [] ↦ true | x ∷ xs ↦ false ] ≡ false
    → (f : FunctionSelector) × (is_some (HashMap.lookup selector_discrete f l) ≡ true)
unfolding HashMap.lookup
first_contained [] h = absurd (ground arith)
first_contained ((f, u) ∷ rest) h = (f, ground arith)

contained :
    (sigs : Selectors) → is_empty sigs ≡ false → (f : FunctionSelector) × (contains f sigs ≡ true)
unfolding HashMap.contains_key HashMap.get
contained sigs h = first_contained sigs.entries h

module _ (W : Web3) where
  has-joined :
      (sig : FunctionSelector) (o : Option Wanted) (w : Wanted)
      → has sig (some (joined W o w)) ≡ has sig (some w) || has sig o
  unfolding joined HashMap.contains_key HashMap.get
  has-joined sig none w = ground arith
  has-joined sig (some (start, sigs)) (start', new) = ground (
    arith,
    lookup-for_each selector_discrete add_signature (HashMap.get selector_discrete) (λ u o. some u)
        (λ f u m j. get-add_signature f j u m) new.entries new.distinct sigs sig,
  )

  got-extend :
      (this other : EthereumCallFilter W) (to : W.Address)
      → got W to (extend W this other).contract_addresses_function_signatures
        ≡ elim (got W to other.contract_addresses_function_signatures) [
          | none ↦ got W to this.contract_addresses_function_signatures
          | some w ↦ some (joined W (got W to this.contract_addresses_function_signatures) w)
        ]
  unfolding extend extend_at HashMap.get
  got-extend this other to =
      lookup-for_each W.address_discrete (extend_at W) (HashMap.get W.address_discrete)
        (λ w o. some (joined W o w))
        (λ a w m j. elim (W.address_discrete a j) [
          | yes p ↦ ground (
            arith,
            HashMap.get-insert W.address_discrete a j m (joined W (got W a m) w),
            ap (λ i. got W i m) p,
          )
          | no n ↦
              ground (arith, HashMap.get-insert W.address_discrete a j m (joined W (got W a m) w))
        ])
        other.contract_addresses_function_signatures.entries
        other.contract_addresses_function_signatures.distinct
        this.contract_addresses_function_signatures to

  IsSpecific-joined :
      (o : Option Wanted) (w : Wanted) → is_empty w.1 ≡ false → IsSpecific (some (joined W o w))
  IsSpecific-joined o w h =
      let (f, c) = contained w.1 h in
      is_empty-contains f (joined W o w).1 (ground (arith, has-joined f o w))

  extended : (o w : Option Wanted) → Option Wanted
  extended o w = elim w [ none ↦ o | some new ↦ some (joined W o new) ]

  IsSpecific-extended :
      (o w : Option Wanted) → IsSpecific o → IsSpecific w → IsSpecific (extended o w)
  unfolding extended
  IsSpecific-extended o none h g = h
  IsSpecific-extended o (some w) h g = IsSpecific-joined o w g

  has-extended :
      (sig : FunctionSelector) (o w : Option Wanted)
      → has sig (extended o w) ≡ has sig w || has sig o
  unfolding extended
  has-extended sig o none = refl
  has-extended sig o (some w) = has-joined sig o w

  -- Where two call filters ask for some function of each of their contracts, so does the one extended
  -- with the other, and it matches a call whose input has four bytes or more exactly where one of
  -- the two does.
  pub matches-extend :
      (this other : EthereumCallFilter W) (call : EthereumCall W) (sig : FunctionSelector)
      → AllSpecific W this
      → AllSpecific W other
      → first_four call.input ≡ done sig
      → (a b : Bool) → matches W this call ≡ done a
      → matches W other call ≡ done b
      → AllSpecific W (extend W this other) × (matches W (extend W this other) call ≡ done (b || a))
  unfolding matches extended
  matches-extend this other call sig h g p a b first second =
      let o = got W call.to this.contract_addresses_function_signatures in
      let w = got W call.to other.contract_addresses_function_signatures in
      let all : (to : W.Address)
          → IsSpecific (got W to (extend W this other).contract_addresses_function_signatures) =
        λ to. subst IsSpecific (sym (got-extend this other to)) (
          IsSpecific-extended (got W to this.contract_addresses_function_signatures)
            (got W to other.contract_addresses_function_signatures) (h to) (g to)) in
      (
        all,
        matches_wanted_lem W call.input _ sig (all call.to) p
            ∙ ap done (
                ap (has sig) (got-extend this other call.to)
                ∙ has-extended sig o w
                ∙ ground (
                  arith,
                  first,
                  second,
                  matches_wanted_lem W call.input o sig (h call.to) p,
                  matches_wanted_lem W call.input w sig (g call.to) p,
                )),
      )
