-- ===== src/EntityCache/Grouping.antt =====
-- The ids that `as_modifications` asks the store for: those of every updated key that is not cached.
use test_ci_for_massbitproto.Prelude.{
  String, false, is_some, List, [], ◌∷◌, ◌++◌, ◌≡◌, refl, sym, ap, subst, arith, All, Bool-cases,
  inl, inr, text_discrete, if_pos, if_neg,
}
use test_ci_for_massbitproto.Prelude.Any.{Any, Any-append_left, Any-append_right}
use test_ci_for_massbitproto.Prelude.Text.{text_le}
use test_ci_for_massbitproto.LfuCache.Ops as Lfu
use test_ci_for_massbitproto.EntityCache.State.{EntityKey, Env, types, EntityLfu}
use test_ci_for_massbitproto.LfuCache.Access.{find}
use test_ci_for_massbitproto.EntityCache.Lookup.{cached}
use test_ci_for_massbitproto.EntityCache.Modifications.{
  btree_entry, IdsByType, add_missing, group_missing, missing_keys,
}

module _ {V : Type 0} (P : String × V → Type 0) (default : V) (key : String) (change : V → V) where
  btree_entry-add :
      (m : List (String × V))
      → ((v : V) → P (key, change v))
      → Any P (btree_entry default key change m)
  unfolding btree_entry
  btree_entry-add [] h = inl (h default)
  btree_entry-add ((k, v) ∷ m) h = elim (text_discrete k key) [
    | yes same ↦ rw (if_pos _ same) (inl (subst (λ i. P (i, change v)) (sym same) (h v)))
    | no other ↦ rw (if_neg _ other) (elim (Bool-cases (text_le key k)) [
      | inl before ↦ rw before (inl (h default))
      | inr behind ↦ rw behind (inr (btree_entry-add m h))
    ])
  ]

  btree_entry-keep :
      (m : List (String × V))
      → ((v : V) → P (key, v) → P (key, change v))
      → Any P m
      → Any P (btree_entry default key change m)
  unfolding btree_entry
  btree_entry-keep [] h a = absurd a
  btree_entry-keep ((k, v) ∷ m) h a = elim (text_discrete k key) [
    | yes same ↦ rw (if_pos _ same) (elim a [
      | inl p ↦ inl (subst (λ i. P (i, change v)) (sym same) (h v (subst (λ i. P (i, v)) same p)))
      | inr q ↦ inr q
    ])
    | no other ↦ rw (if_neg _ other) (elim (Bool-cases (text_le key k)) [
      | inl before ↦ rw before (inr a)
      | inr behind ↦ rw behind (elim a [ inl p ↦ inl p | inr q ↦ inr (btree_entry-keep m h q) ])
    ])
  ]

-- The id of the entity is listed under its type.
abbrev pub IsAsked : String → String → IdsByType → Type 0
IsAsked entity_type entity_id = Any (λ t. (t.0 ≡ entity_type) × Any (λ i. i ≡ entity_id) t.1)

-- The key is listed under its indexer and its type.
abbrev pub IsListed : EntityKey → List (String × IdsByType) → Type 0
IsListed key = Any (λ g. (g.0 ≡ key.indexer_id) × IsAsked key.entity_type key.entity_id g.1)

add_missing-IsListed :
    (key : EntityKey) (m : List (String × IdsByType)) → IsListed key (add_missing key m)
unfolding add_missing
add_missing-IsListed key m = btree_entry-add _ [] key.indexer_id _ m (λ types. (
  refl,
  btree_entry-add (λ t. (t.0 ≡ key.entity_type) × Any (λ i. i ≡ key.entity_id) t.1) []
      key.entity_type (λ ids. ids ++ key.entity_id ∷ []) types
      (λ ids. (refl, Any-append_right _ ids (key.entity_id ∷ []) (inl refl))),
))

add_missing-keep :
    (key other : EntityKey) (m : List (String × IdsByType))
    → IsListed key m
    → IsListed key (add_missing other m)
unfolding add_missing
add_missing-keep key other m =
    btree_entry-keep (λ g. (g.0 ≡ key.indexer_id) × IsAsked key.entity_type key.entity_id g.1) []
      other.indexer_id _ m
      (λ types p. (
        p.0,
        btree_entry-keep (λ t. (t.0 ≡ key.entity_type) × Any (λ i. i ≡ key.entity_id) t.1) []
            other.entity_type (λ ids. ids ++ other.entity_id ∷ []) types
            (λ ids q. (q.0, Any-append_left _ ids (other.entity_id ∷ []) q.1)) p.1,
      ))

group_missing-keep :
    (key : EntityKey) (keys : List EntityKey) (m : List (String × IdsByType))
    → IsListed key m
    → IsListed key (group_missing keys m)
unfolding group_missing
group_missing-keep key [] m h = h
group_missing-keep key (k ∷ keys) m h =
    group_missing-keep key keys (add_missing k m) (add_missing-keep key k m h)

-- Every key of the list is listed in the groups.
group_missing-IsListed :
    (key : EntityKey) (keys : List EntityKey) (m : List (String × IdsByType))
    → Any (λ k. k ≡ key) keys
    → IsListed key (group_missing keys m)
unfolding group_missing
group_missing-IsListed key [] m h = absurd h
group_missing-IsListed key (k ∷ keys) m (inl same) =
    subst (λ i. IsListed i (group_missing keys (add_missing k m))) same
      (group_missing-keep k keys (add_missing k m) (add_missing-IsListed k m))
group_missing-IsListed key (k ∷ keys) m (inr rest) =
    group_missing-IsListed key keys (add_missing k m) rest

module _ (E : Env) (current : EntityLfu E) where
  contains_key-cached :
      (key : EntityKey)
      → Lfu.contains_key (types E) E.queue key current ≡ is_some (cached E key current)
  unfolding Lfu.contains_key find
  contains_key-cached key = ground arith

  missing_keys-Any :
      (key : EntityKey) (keys : List EntityKey)
      → Any (λ k. k ≡ key) keys
      → is_some (cached E key current) ≡ false
      → Any (λ k. k ≡ key) (missing_keys E keys current)
  unfolding missing_keys
  missing_keys-Any key [] h n = absurd h
  missing_keys-Any key (k ∷ keys) h n =
      elim (Bool-cases (Lfu.contains_key (types E) E.queue k current)) [
        | inl there ↦ rw there (elim h [
          | inl same ↦
              absurd (ground (arith, contains_key-cached k, ap (λ i. cached E i current) same))
          | inr rest ↦ missing_keys-Any key keys rest n
        ])
        | inr absent ↦
            rw absent
              (elim h [ inl same ↦ inl same | inr rest ↦ inr (missing_keys-Any key keys rest n) ])
      ]

  -- The store is asked for every key of the list that has no entry in the cache.
  pub missing-IsListed :
      (key : EntityKey) (keys : List EntityKey)
      → Any (λ k. k ≡ key) keys
      → is_some (cached E key current) ≡ false
      → IsListed key (group_missing (missing_keys E keys current) [])
  missing-IsListed key keys h n =
      group_missing-IsListed key (missing_keys E keys current) [] (missing_keys-Any key keys h n)

-- The groups are of the indexers of the keys.
btree_entry-All :
    {V : Type 0} (P : String → Type 0) (default : V) (key : String) (change : V → V)
    (m : List (String × V))
    → P key
    → All (λ g. P g.0) m
    → All (λ g. P g.0) (btree_entry default key change m)
unfolding btree_entry
btree_entry-All P default key change [] p h = (p, tt)
btree_entry-All P default key change ((k, v) ∷ m) p h = elim (text_discrete k key) [
  | yes same ↦ rw (if_pos _ same) h
  | no other ↦ rw (if_neg _ other) (elim (Bool-cases (text_le key k)) [
    | inl before ↦ rw before (p, h)
    | inr behind ↦ rw behind (h.0, btree_entry-All P default key change m p h.1)
  ])
]

pub group_missing-All :
    (P : String → Type 0) (keys : List EntityKey) (m : List (String × IdsByType))
    → All (λ k. P k.indexer_id) keys
    → All (λ g. P g.0) m
    → All (λ g. P g.0) (group_missing keys m)
unfolding group_missing add_missing
group_missing-All P [] m ks h = h
group_missing-All P (k ∷ keys) m ks h =
    group_missing-All P keys (add_missing k m) ks.1 (btree_entry-All P [] k.indexer_id _ m ks.0 h)

pub missing_keys-All :
    (E : Env) (current : EntityLfu E) (P : String → Type 0) (keys : List EntityKey)
    → All (λ k. P k.indexer_id) keys
    → All (λ k. P k.indexer_id) (missing_keys E keys current)
unfolding missing_keys
missing_keys-All E current P [] h = tt
missing_keys-All E current P (k ∷ keys) h =
    elim (Bool-cases (Lfu.contains_key (types E) E.queue k current)) [
      | inl there ↦ rw there (missing_keys-All E current P keys h.1)
      | inr absent ↦ rw absent (h.0, missing_keys-All E current P keys h.1)
    ]
