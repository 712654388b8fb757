-- ===== src/EntityCache/Commit.antt =====
-- The loop of `as_modifications` over the updates.
use test_ci_for_massbitproto.Prelude.{
  true, Option, none, some, ◌≢◌, is_some, List, [], ◌∷◌, ite, ◌≡◌, refl, arith, join_option, All,
}
use test_ci_for_massbitproto.Prelude.HashMap.{lookup}
use test_ci_for_massbitproto.Prelude.Outcome.{done}
use test_ci_for_massbitproto.Data.Value.{Scalars}
use test_ci_for_massbitproto.Data.Entity.{Entity}
use test_ci_for_massbitproto.LfuCache.Invariant.{insert_lem}
use test_ci_for_massbitproto.EntityCache.Op.{EntityOp}
use test_ci_for_massbitproto.EntityCache.Op.View.{SameView}
use test_ci_for_massbitproto.EntityCache.State.{
  EntityKey, key_discrete, EntityModification, entity_key, Env, types, EntityLfu,
}
use test_ci_for_massbitproto.EntityCache.Ops.{apply_update}
use test_ci_for_massbitproto.EntityCache.Modifications.{put_back, push_some}
use test_ci_for_massbitproto.EntityCache.Lookup.{cached, IsValidLfu}
use test_ci_for_massbitproto.EntityCache.Decide.{Content, modify, modify_if, IsNeeded, IsCoherent}

-- The store after a list of modifications.
unfoldable pub commit : {S : Scalars} → List (EntityModification S) → Content S → Content S
commit [] content = content
commit (m ∷ ms) content = commit ms (modify m content)

-- No modification is of the key.
abbrev pub MentionsNone : {S : Scalars} → EntityKey → List (EntityModification S) → Type 0
MentionsNone key ms = All (λ m. entity_key m ≢ key) ms

-- No entity has two modifications.
abbrev pub IsOnce : {S : Scalars} → List (EntityModification S) → Type 0
IsOnce [] = Unit
IsOnce (m ∷ ms) = MentionsNone (entity_key m) ms × IsOnce ms

pub commit-push_some :
    {S : Scalars} (m : Option (EntityModification S)) (ms : List (EntityModification S))
    (content : Content S)
    → commit (push_some m ms) content ≡ commit ms (modify_if m content)
unfolding commit push_some modify_if
commit-push_some none ms content = refl
commit-push_some (some m) ms content = refl

module _ (E : Env) where
  abbrev pub Ops : Type 0
  Ops = List (EntityKey × EntityOp E.scalars)

  abbrev pub Mods : Type 0
  Mods = List (EntityModification E.scalars)

  abbrev pub pending : EntityKey → Ops → Option (EntityOp E.scalars)
  pending key ops = lookup key_discrete key ops

  -- The cache has the entity of the store for each key that is updated.
  abbrev pub Agrees : Ops → EntityLfu E → Content E.scalars → Type 0
  Agrees ops current content = All (λ op. join_option (cached E op.0 current) ≡ content op.0) ops

  -- What the loop makes of the cache and the store.
  pub record Committed (ops : Ops) (content : Content E.scalars) (before current : EntityLfu E)
      (mods : Mods) : Type 0 where
    pub valid : IsValidLfu E current
    pub shows :
        (key : EntityKey)
        → SameView (commit mods content key) (apply_update (pending key ops) (content key))
    pub needed : All (IsNeeded E content) mods
    pub once : IsOnce mods
    pub coherent :
        (key : EntityKey)
        → is_some (pending key ops) ≡ true
        → IsCoherent E key content (cached E key current) (commit mods content key)
    pub untouched :
        (key : EntityKey)
        → pending key ops ≡ none
        → (commit mods content key ≡ content key)
          × (cached E key current ≡ cached E key before)
          × MentionsNone key mods

  pub put_back_lem :
      (key : EntityKey) (value : Option (Option (Entity E.scalars))) (before current : EntityLfu E)
      → IsValidLfu E current
      → ((j : EntityKey) → cached E j current ≡ ite (key_discrete key j) none (cached E j before))
      → (current' : EntityLfu E) × (put_back E key value current ≡ done current')
        × IsValidLfu E current'
        × ((j : EntityKey)
            → cached E j current' ≡ ite (key_discrete key j) value (cached E j before))
  unfolding put_back
  put_back_lem key none before current valid h = (current, refl, valid, h)
  put_back_lem key (some value) before current valid h =
      let (current', e, valid', all) = insert_lem (types E) E.queue key value current valid in
      (current', e, valid', λ j. ground (arith, all j, h j))
