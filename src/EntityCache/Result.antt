-- ===== src/EntityCache/Result.antt =====
-- `as_modifications` as a whole.
use test_ci_for_massbitproto.Prelude.{
  String, true, false, is_some, some, List, [], ◌∷◌, ◌≡◌, refl, sym, ap, subst, arith, Bool-cases,
  Option-cases, inl, inr, All, join_option, map,
}
use test_ci_for_massbitproto.Prelude.Any.{Any}
use test_ci_for_massbitproto.Prelude.HashMap
use test_ci_for_massbitproto.Prelude.Outcome.{done}
use test_ci_for_massbitproto.Data.Entity.{Entity}
use test_ci_for_massbitproto.EntityCache.State.{
  EntityKey, Env, EntityLfu, EntityCache, EntityModification,
}
use test_ci_for_massbitproto.EntityCache.Modifications.{
  fetch_missing, group_missing, missing_keys, ModificationsAndCache, as_modifications, modify_all,
}
use test_ci_for_massbitproto.EntityCache.Lookup.{cached, IsValidLfu}
use test_ci_for_massbitproto.EntityCache.Decide.{Content}
use test_ci_for_massbitproto.EntityCache.Grouping.{
  IsListed, missing-IsListed, group_missing-All, missing_keys-All,
}
use test_ci_for_massbitproto.EntityCache.Fetch.{key_of, Serves, IsFaithful, Grows}
use test_ci_for_massbitproto.EntityCache.FetchLoop.{fetch-Inserted}
use test_ci_for_massbitproto.EntityCache.Commit.{Ops, Agrees, Committed}
use test_ci_for_massbitproto.EntityCache.CommitLoop.{modify_all-Committed}

module _ (E : Env) where
  -- The updates are of one indexer.
  abbrev pub IsOwnOps : String → Ops E → Type 0
  IsOwnOps indexer ops = All (λ op. op.0.indexer_id ≡ indexer) ops

  IsOwnOps-keys :
      (indexer : String) (ops : Ops E)
      → IsOwnOps indexer ops
      → All (λ k. k.indexer_id ≡ indexer) (map (λ op. op.0) ops)
  IsOwnOps-keys indexer [] h = tt
  IsOwnOps-keys indexer (op ∷ ops) h = (h.0, IsOwnOps-keys indexer ops h.1)

  All_of_Any :
      (indexer : String) (P : EntityKey → Type 0) (ops : Ops E)
      → IsOwnOps indexer ops
      → ((t i : String)
          → Any (λ k. k ≡ key_of indexer t i) (map (λ op. op.0) ops)
          → P (key_of indexer t i))
      → All (λ op. P op.0) ops
  All_of_Any indexer P [] own h = tt
  All_of_Any indexer P ((key, op) ∷ ops) own h =
      let same : key ≡ key_of indexer key.entity_type key.entity_id =
        ap (λ x. key_of x key.entity_type key.entity_id) own.0 in
      (
        subst P (sym same) (h key.entity_type key.entity_id (inl same)),
        All_of_Any indexer P ops own.1 (λ t i m. h t i (inr m)),
      )

  steps-done :
      (c : EntityCache E) (current : EntityLfu E)
      (r : EntityLfu E × List (EntityModification E.scalars))
      → c.in_handler ≡ false
      → fetch_missing E c ≡ done current
      → modify_all E c.updates.entries current ≡ done r
      → as_modifications E c
        ≡ done
            (record { modifications = r.1; data_sources = c.data_sources; entity_lfu_cache = r.0 })
  unfolding as_modifications
  steps-done c current r out eq eq' = ground (arith, eq, eq')

  module _ (indexer : String) (content : Content E.scalars) (c : EntityCache E)
      (valid : IsValidLfu E c.current) (faithful : IsFaithful E content c.current)
      (serves : Serves E indexer content) (own : IsOwnOps indexer c.updates.entries) where
    abbrev updated : List EntityKey
    updated = map (λ op. op.0) c.updates.entries

    -- A key that is updated has its entity of the store in the cache, if there is one.
    agrees_at :
        (current : EntityLfu E) (t i : String)
        → Grows E content c.current current
        → ((e : Entity E.scalars)
            → IsListed (key_of indexer t i) (group_missing (missing_keys E updated c.current) [])
            → content (key_of indexer t i) ≡ some e
            → is_some (cached E (key_of indexer t i) current) ≡ true)
        → Any (λ k. k ≡ key_of indexer t i) updated
        → join_option (cached E (key_of indexer t i) current) ≡ content (key_of indexer t i)
    agrees_at current t i grows there mem =
        let key = key_of indexer t i in
        elim (grows.faithful key) [
          | inr e ↦ ground arith
          | inl n ↦ elim (Option-cases (content key)) [
            | inl nothing ↦ ground arith
            | inr (e, p) ↦ elim (Bool-cases (is_some (cached E key c.current))) [
              | inl before ↦ absurd (ground (arith, grows.stays key before))
              | inr absent ↦
                  absurd (
                    ground (arith, there e (missing-IsListed E c.current key updated mem absent) p))
            ]
          ]
        ]

    fetch_missing-Agrees :
        (current : EntityLfu E) × (fetch_missing E c ≡ done current)
        × Grows E content c.current current
        × Agrees E c.updates.entries current content
    unfolding fetch_missing HashMap.keys
    fetch_missing-Agrees =
        let (current, eq, grows, there) =
          fetch-Inserted E indexer content serves
            (group_missing (missing_keys E updated c.current) []) c.current valid faithful
            (group_missing-All (λ x. x ≡ indexer) (missing_keys E updated c.current) []
              (missing_keys-All E c.current (λ x. x ≡ indexer) updated
                (IsOwnOps-keys indexer c.updates.entries own))
              tt) in
        (
          current,
          eq,
          grows,
          All_of_Any indexer (λ key. join_option (cached E key current) ≡ content key)
              c.updates.entries own (λ t i m. agrees_at current t i grows (λ e. there t i e) m),
        )

    -- `as_modifications` outside of a handler, where the store serves the entities `content` of one
    -- indexer, the operations are on that indexer's entities, and the LFU cache is valid and has no
    -- entry that is not the store's: it does not fail and does not panic. It passes the data sources
    -- on. From a cache that has every entry of the old one and the missing entities, the
    -- modifications and the cache that it returns are as `Committed` says: after the modifications the
    -- store shows, for each key, its entity with the pending operation applied, up to attributes that
    -- are `Null`; each modification is one that the store needs, and no key has two; a key without an
    -- operation is not touched.
    pub as_modifications-Committed :
        c.in_handler ≡ false
        → (r : ModificationsAndCache E) × (as_modifications E c ≡ done r)
          × (r.data_sources ≡ c.data_sources)
          × (fetched : EntityLfu E) × Grows E content c.current fetched
          × Committed E c.updates.entries content fetched r.entity_lfu_cache r.modifications
    as_modifications-Committed out =
        let (current, eq, grows, agree) = fetch_missing-Agrees in
        let (r, eq', committed) =
          modify_all-Committed E c.updates.entries current content c.updates.distinct grows.valid
            agree in
        (
          record { modifications = r.1; data_sources = c.data_sources; entity_lfu_cache = r.0 },
          steps-done c current r out eq eq',
          refl,
          current,
          grows,
          committed,
        )
