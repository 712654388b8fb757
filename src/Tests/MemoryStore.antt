-- ===== src/Tests/MemoryStore.antt =====
-- A store in memory: it shows that what `as_modifications` asks of the store can be met.
use test_ci_for_massbitproto.Prelude.{
  String, Option, none, some, List, [], ◌∷◌, ◌≡◌, refl, sym, subst, ap, ◌∙◌, inl, inr, All,
  Option-cases,
}
use test_ci_for_massbitproto.Prelude.Any.{Any}
use test_ci_for_massbitproto.Prelude.Outcome.{done}
use test_ci_for_massbitproto.Data.Value.{Scalars}
use test_ci_for_massbitproto.Data.Entity
use test_ci_for_massbitproto.Data.Entity.{Entity, IdResult}
use test_ci_for_massbitproto.EntityCache.State.{WritableStore, Env}
use test_ci_for_massbitproto.EntityCache.Modifications.{IdsByType}
use test_ci_for_massbitproto.EntityCache.Decide.{Content}
use test_ci_for_massbitproto.EntityCache.Grouping.{IsAsked}
use test_ci_for_massbitproto.EntityCache.Fetch.{key_of, Serves}

module _ {S : Scalars} (indexer : String) (content : Content S) where
  abbrev pub add_found : Option (Entity S) → List (Entity S) → List (Entity S)
  add_found none es = es
  add_found (some e) es = e ∷ es

  abbrev pub select : String → List String → List (Entity S)
  select t [] = []
  select t (i ∷ ids) = add_found (content (key_of indexer t i)) (select t ids)

  abbrev pub select_types : IdsByType → List (String × List (Entity S))
  select_types [] = []
  select_types ((t, ids) ∷ rest) = (t, select t ids) ∷ select_types rest

  abbrev pub memory_store : WritableStore S
  memory_store = record {
    get = λ key. done (content key);
    get_many = λ ids. done (select_types ids);
  }

  module _
      (keyed : (t i : String) (e : Entity S)
        → content (key_of indexer t i) ≡ some e
        → Entity.id e ≡ IdResult.ok i) where
    abbrev Stored : String → Entity S → Type 0
    Stored t e =
        (i : String) × (Entity.id e ≡ IdResult.ok i) × (content (key_of indexer t i) ≡ some e)

    select-All : (t : String) (ids : List String) → All (Stored t) (select t ids)
    select-All t [] = tt
    select-All t (i ∷ ids) =
        let rest = select-All t ids in
        elim (Option-cases (content (key_of indexer t i))) [
          | inl n ↦ rw n rest
          | inr (e, p) ↦ rw p ((i, keyed t i e p, p), rest)
        ]

    pub select_types-All : (ids : IdsByType) → All (λ x. All (Stored x.0) x.1) (select_types ids)
    select_types-All [] = tt
    select_types-All ((t, ids) ∷ rest) = (select-All t ids, select_types-All rest)

  add_found-Any :
      (o : Option (Entity S)) (es : List (Entity S)) (e : Entity S)
      → Any (λ d. d ≡ e) es
      → Any (λ d. d ≡ e) (add_found o es)
  add_found-Any none es e h = h
  add_found-Any (some d) es e h = inr h

  select-Any :
      (t i : String) (ids : List String) (e : Entity S)
      → Any (λ j. j ≡ i) ids
      → content (key_of indexer t i) ≡ some e
      → Any (λ d. d ≡ e) (select t ids)
  select-Any t i [] e h p = absurd h
  select-Any t i (j ∷ ids) e (inl same) p =
      subst (λ o. Any (λ d. d ≡ e) (add_found o (select t ids)))
        (sym (ap (λ x. content (key_of indexer t x)) same ∙ p)) (inl refl)
  select-Any t i (j ∷ ids) e (inr rest) p =
      add_found-Any (content (key_of indexer t j)) (select t ids) e (select-Any t i ids e rest p)

  pub select_types-Any :
      (t i : String) (ids : IdsByType) (e : Entity S)
      → IsAsked t i ids
      → content (key_of indexer t i) ≡ some e
      → Any (λ x. (x.0 ≡ t) × Any (λ d. d ≡ e) x.1) (select_types ids)
  select_types-Any t i [] e h p = absurd h
  select_types-Any t i ((s, ids) ∷ rest) e (inl here) p =
      inl (here.0, select-Any s i ids e here.1 (ap (λ x. content (key_of indexer x i)) here.0 ∙ p))
  select_types-Any t i ((s, ids) ∷ rest) e (inr later) p = inr (select_types-Any t i rest e later p)

module _ (E : Env) (indexer : String) (content : Content E.scalars) where
  pub memory-Serves :
      E.store ≡ memory_store indexer content
      → ((t i : String) (e : Entity E.scalars)
          → content (key_of indexer t i) ≡ some e
          → Entity.id e ≡ IdResult.ok i)
      → Serves E indexer content
  memory-Serves at keyed = record {
    keyed = keyed;
    answers = λ ids. (
      select_types indexer content ids,
      ap (λ (s : WritableStore E.scalars). s.get_many ids) at,
      select_types-All indexer content keyed ids,
      λ t i e. select_types-Any indexer content t i ids e,
    );
  }
