-- ===== src/EntityCache/FetchLoop.antt =====
-- After the first step of `as_modifications` the cache agrees with the store at every updated key.
use test_ci_for_massbitproto.Prelude.{
  String, true, is_some, some, List, [], ◌∷◌, ◌≡◌, refl, ap, ◌∙◌, subst, inl, inr, All,
}
use test_ci_for_massbitproto.Prelude.Any.{Any}
use test_ci_for_massbitproto.Prelude.Outcome.{Outcome, done}
use test_ci_for_massbitproto.Data.Entity
use test_ci_for_massbitproto.Data.Entity.{Entity, IdResult}
use test_ci_for_massbitproto.EntityCache.State.{Env, EntityLfu}
use test_ci_for_massbitproto.EntityCache.Modifications.{
  IdsByType, insert_entity, insert_entities, insert_types, fetch,
}
use test_ci_for_massbitproto.EntityCache.Lookup.{cached, IsValidLfu}
use test_ci_for_massbitproto.EntityCache.Decide.{Content}
use test_ci_for_massbitproto.EntityCache.Grouping.{IsListed}
use test_ci_for_massbitproto.EntityCache.Fetch.{
  key_of, Found, Serves, IsFaithful, Grows, Grows-trans, insert_lem-Grows,
}

module _ (E : Env) (indexer : String) (content : Content E.scalars)
    (serves : Serves E indexer content) where
  -- The entity is the store's entity for its own id.
  abbrev pub IsStored : String → Entity E.scalars → Type 0
  IsStored t e =
      (i : String) × (Entity.id e ≡ IdResult.ok i) × (content (key_of indexer t i) ≡ some e)

  abbrev pub IsThere : String → String → EntityLfu E → Type 0
  IsThere t i current = is_some (cached E (key_of indexer t i) current) ≡ true

  abbrev pub Inserted : EntityLfu E → Outcome (EntityLfu E) → (EntityLfu E → Type 0) → Type 0
  Inserted before result P =
      (current : EntityLfu E) × (result ≡ done current) × Grows E content before current × P current

  insert_entity-Inserted :
      (t : String) (e : Entity E.scalars) (current : EntityLfu E)
      → IsValidLfu E current
      → IsFaithful E content current
      → IsStored t e
      → Inserted current
          (insert_entity E indexer t e current (Entity.id e))
          (λ c. (i : String) → Entity.id e ≡ IdResult.ok i → IsThere t i c)
  unfolding insert_entity
  insert_entity-Inserted t e current valid faithful (i, id, h) =
      let (current', eq, grows, there) =
        insert_lem-Grows E content (key_of indexer t i) e current valid faithful h in
      (
        current',
        rw id eq,
        grows,
        λ j q. let same : i ≡ j = cc in subst (λ x. IsThere t x current') same there,
      )

  insert_entities-Inserted :
      (t : String) (es : List (Entity E.scalars)) (current : EntityLfu E)
      → IsValidLfu E current
      → IsFaithful E content current
      → All (IsStored t) es
      → Inserted current (insert_entities E indexer t es current) (λ c.
        (e : Entity E.scalars) (i : String)
        → Any (λ d. d ≡ e) es
        → Entity.id e ≡ IdResult.ok i
        → IsThere t i c)
  unfolding insert_entities
  insert_entities-Inserted t [] current valid faithful all = (
    current,
    refl,
    record { valid = valid; faithful = faithful; stays = λ k h. h },
    λ e i h p. absurd h,
  )
  insert_entities-Inserted t (e ∷ es) current valid faithful all =
      let (c₁, eq₁, g₁, at₁) = insert_entity-Inserted t e current valid faithful all.0 in
      let (c₂, eq₂, g₂, at₂) = insert_entities-Inserted t es c₁ g₁.valid g₁.faithful all.1 in
      (
        c₂,
        rw (eq₁) eq₂,
        Grows-trans E content current c₁ c₂ g₁ g₂,
        λ d i h p. elim h [
          | inl same ↦ g₂.stays (key_of indexer t i) (at₁ i (ap Entity.id same ∙ p))
          | inr rest ↦ at₂ d i rest p
        ],
      )

  insert_types-Inserted :
      (found : Found E) (current : EntityLfu E)
      → IsValidLfu E current
      → IsFaithful E content current
      → All (λ t. All (IsStored t.0) t.1) found
      → Inserted current (insert_types E indexer found current) (λ c.
        (t : String) (e : Entity E.scalars) (i : String)
        → Any (λ x. (x.0 ≡ t) × Any (λ d. d ≡ e) x.1) found
        → Entity.id e ≡ IdResult.ok i
        → IsThere t i c)
  unfolding insert_types
  insert_types-Inserted [] current valid faithful all = (
    current,
    refl,
    record { valid = valid; faithful = faithful; stays = λ k h. h },
    λ t e i h p. absurd h,
  )
  insert_types-Inserted ((t, es) ∷ found) current valid faithful all =
      let (c₁, eq₁, g₁, at₁) = insert_entities-Inserted t es current valid faithful all.0 in
      let (c₂, eq₂, g₂, at₂) = insert_types-Inserted found c₁ g₁.valid g₁.faithful all.1 in
      (
        c₂,
        rw (eq₁) eq₂,
        Grows-trans E content current c₁ c₂ g₁ g₂,
        λ s e i h p. elim h [
          | inl same ↦
              g₂.stays (key_of indexer s i) (subst (λ x. IsThere x i c₁) same.0 (at₁ e i same.1 p))
          | inr rest ↦ at₂ s e i rest p
        ],
      )

  -- Each group is of the indexer whose store this is.
  abbrev pub IsOwn : List (String × IdsByType) → Type 0
  IsOwn = All (λ g. g.0 ≡ indexer)

  pub fetch-Inserted :
      (groups : List (String × IdsByType)) (current : EntityLfu E)
      → IsValidLfu E current
      → IsFaithful E content current
      → IsOwn groups
      → Inserted current (fetch E groups current) (λ c.
        (t i : String) (e : Entity E.scalars)
        → IsListed (key_of indexer t i) groups
        → content (key_of indexer t i) ≡ some e
        → IsThere t i c)
  unfolding fetch
  fetch-Inserted [] current valid faithful own = (
    current,
    refl,
    record { valid = valid; faithful = faithful; stays = λ k h. h },
    λ t i e h p. absurd h,
  )
  fetch-Inserted ((g, ids) ∷ groups) current valid faithful own =
      let (found, ask, sound, complete) = serves.answers ids in
      let (c₁, eq₁, g₁, at₁) = insert_types-Inserted found current valid faithful sound in
      let (c₂, eq₂, g₂, at₂) = fetch-Inserted groups c₁ g₁.valid g₁.faithful own.1 in
      (
        c₂,
        rw (ask) (rw own.0 (rw (eq₁) eq₂)),
        Grows-trans E content current c₁ c₂ g₁ g₂,
        λ t i e h p. elim h [
          | inl here ↦
              g₂.stays (key_of indexer t i)
                (at₁ t e i (complete t i e here.1 p) (serves.keyed t i e p))
          | inr rest ↦ at₂ t i e rest p
        ],
      )
