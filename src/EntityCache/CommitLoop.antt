-- ===== src/EntityCache/CommitLoop.antt =====
-- The loop of `as_modifications` brings the store to what the updates ask for.
use test_ci_for_massbitproto.Prelude.{
  true, Option, none, some, ◌≢◌, is_some, [], ◌∷◌, ite, ◌≡◌, refl, sym, ap, ◌∙◌, arith, join_option,
  All, if_pos, if_neg, subst, subst₂,
}
use test_ci_for_massbitproto.Prelude.HashMap.{lookup, IsDistinct}
use test_ci_for_massbitproto.Prelude.Outcome.{done}
use test_ci_for_massbitproto.Data.Entity.{Entity}
use test_ci_for_massbitproto.LfuCache.Removal.{remove_lem}
use test_ci_for_massbitproto.EntityCache.Op.{EntityOp, apply_to}
use test_ci_for_massbitproto.EntityCache.Op.View.{SameView}
use test_ci_for_massbitproto.EntityCache.State.{
  EntityKey, key_discrete, EntityModification, entity_key, Env, types, EntityLfu,
}
use test_ci_for_massbitproto.EntityCache.Ops.{apply_update}
use test_ci_for_massbitproto.EntityCache.Handler.{SameView-refl, SameView-of_eq}
use test_ci_for_massbitproto.EntityCache.Modifications.{decide, push_some, modify_all}
use test_ci_for_massbitproto.EntityCache.Lookup.{cached, IsValidLfu}
use test_ci_for_massbitproto.EntityCache.Decide.{
  Content, modify_if, IsNeeded, IsNeededIf, IsCoherent, after, decide-SameView, decide-IsNeeded,
  decide-IsCoherent, modify_if-decide_ne,
}
use test_ci_for_massbitproto.EntityCache.Commit.{
  commit, commit-push_some, MentionsNone, IsOnce, Ops, Mods, pending, Agrees, Committed,
  put_back_lem,
}

module _ (E : Env) where
  -- A change at one key keeps the agreement at the keys that have none of its operations.
  Agrees-ne :
      (key : EntityKey) (ops : Ops E) (current current' : EntityLfu E)
      (content content' : Content E.scalars)
      → ((j : EntityKey) → key ≢ j → cached E j current' ≡ cached E j current)
      → ((j : EntityKey) → key ≢ j → content' j ≡ content j)
      → pending E key ops ≡ none
      → Agrees E ops current content
      → Agrees E ops current' content'
  unfolding lookup
  Agrees-ne key [] current current' content content' f g n h = tt
  Agrees-ne key ((j, op) ∷ ops) current current' content content' f g n h =
      elim (key_discrete j key) [
        | yes same ↦ absurd (ground arith)
        | no other ↦ (
          ap join_option (f j (λ e. other (sym e))) ∙ h.0 ∙ sym (g j (λ e. other (sym e))),
          Agrees-ne key ops current current' content content' f g (ground arith) h.1,
        )
      ]

  IsNeeded-ne :
      (key : EntityKey) (content content' : Content E.scalars) (m : EntityModification E.scalars)
      → ((j : EntityKey) → key ≢ j → content' j ≡ content j)
      → entity_key m ≢ key
      → IsNeeded E content' m
      → IsNeeded E content m
  unfolding entity_key
  IsNeeded-ne key content content' (EntityModification.insert j d) g other h =
      sym (g j (λ e. other (sym e))) ∙ h
  IsNeeded-ne key content content' (EntityModification.overwrite j d) g other (old, h, differ) =
      (old, sym (g j (λ e. other (sym e))) ∙ h, differ)
  IsNeeded-ne key content content' (EntityModification.remove j) g other h =
      ap is_some (sym (g j (λ e. other (sym e)))) ∙ h

  All-IsNeeded_ne :
      (key : EntityKey) (content content' : Content E.scalars) (ms : Mods E)
      → ((j : EntityKey) → key ≢ j → content' j ≡ content j)
      → MentionsNone key ms
      → All (IsNeeded E content') ms
      → All (IsNeeded E content) ms
  All-IsNeeded_ne key content content' [] g n h = tt
  All-IsNeeded_ne key content content' (m ∷ ms) g n h = (
    IsNeeded-ne key content content' m g n.0 h.0,
    All-IsNeeded_ne key content content' ms g n.1 h.1,
  )

  All-push_some :
      (P : EntityModification E.scalars → Type 0) (m : Option (EntityModification E.scalars))
      (ms : Mods E)
      → ((x : EntityModification E.scalars) → m ≡ some x → P x)
      → All P ms
      → All P (push_some m ms)
  unfolding push_some
  All-push_some P none ms h all = all
  All-push_some P (some m) ms h all = (h m refl, all)

  entity_key-decide :
      (key : EntityKey) (current : Option (Entity E.scalars)) (op : EntityOp E.scalars)
      (m : EntityModification E.scalars)
      → (decide E key current op).1 ≡ some m
      → entity_key m ≡ key
  unfolding decide entity_key
  entity_key-decide key none EntityOp.remove m h = cc
  entity_key-decide key none (EntityOp.update u) m h = ground arith
  entity_key-decide key none (EntityOp.overwrite u) m h = ground arith
  entity_key-decide key (some e) EntityOp.remove m h = ground arith
  entity_key-decide key (some e) (EntityOp.update u) m h = ground arith
  entity_key-decide key (some e) (EntityOp.overwrite u) m h = ground arith

  -- One round: the rest of the loop has made `current₃` and `ms` of the cache `current₂` and of the
  -- store after the modification of `key`.
  module _ (key : EntityKey) (op : EntityOp E.scalars) (ops : Ops E) (content : Content E.scalars)
      (current current₂ current₃ : EntityLfu E) (ms : Mods E) (fresh : pending E key ops ≡ none)
      (agree : join_option (cached E key current) ≡ content key)
      (back : (j : EntityKey)
        → cached E j current₂
          ≡ ite
              (key_discrete key j)
              (decide E key (join_option (cached E key current)) op).0
              (cached E j current))
      (rest : Committed E ops
        (modify_if (decide E key (join_option (cached E key current)) op).1 content)
        current₂
        current₃
        ms) where
    abbrev old : Option (Entity E.scalars)
    old = join_option (cached E key current)

    abbrev content' : Content E.scalars
    content' = modify_if (decide E key old op).1 content

    abbrev all_mods : Mods E
    all_mods = push_some (decide E key old op).1 ms

    commit-all : (j : EntityKey) → commit all_mods content j ≡ commit ms content' j
    commit-all j = ap (λ c. c j) (commit-push_some (decide E key old op).1 ms content)

    content-ne : (j : EntityKey) → key ≢ j → content' j ≡ content j
    content-ne = modify_if-decide_ne E key content old op

    commit-key : commit all_mods content key ≡ after E key content old op
    commit-key = commit-all key ∙ (rest.untouched key fresh).0

    round-shows :
        (j : EntityKey)
        → SameView
            (commit all_mods content j)
            (apply_update (pending E j ((key, op) ∷ ops)) (content j))
    unfolding lookup apply_update
    round-shows j = elim (key_discrete key j) [
      | yes same ↦
          SameView-of_eq {b' = apply_to op old}
            (ap (commit all_mods content) (sym same) ∙ commit-key)
            (ground (arith, agree, ap content same))
            (decide-SameView E key content old op (sym agree))
      | no other ↦
          SameView-of_eq {b' = apply_update (pending E j ops) (content' j)} (commit-all j)
            (ground (arith, content-ne j other)) (rest.shows j)
    ]

    round-IsNeeded : All (IsNeeded E content) all_mods
    round-IsNeeded =
        All-push_some (IsNeeded E content) (decide E key old op).1 ms
          (λ x h. subst (IsNeededIf E content) h (decide-IsNeeded E key content old op (sym agree)))
          (All-IsNeeded_ne key content content' ms content-ne (rest.untouched key fresh).2
            rest.needed)

    IsOnce-push_some :
        (m : Option (EntityModification E.scalars))
        → ((x : EntityModification E.scalars) → m ≡ some x → entity_key x ≡ key)
        → IsOnce (push_some m ms)
    unfolding push_some
    IsOnce-push_some none h = rest.once
    IsOnce-push_some (some x) h =
        (subst (λ k. MentionsNone k ms) (sym (h x refl)) (rest.untouched key fresh).2, rest.once)

    round-IsCoherent :
        (j : EntityKey)
        → is_some (pending E j ((key, op) ∷ ops)) ≡ true
        → IsCoherent E j content (cached E j current₃) (commit all_mods content j)
    unfolding lookup
    round-IsCoherent j h = elim (key_discrete key j) [
      | yes same ↦
          subst (λ i. IsCoherent E i content (cached E i current₃) (commit all_mods content i)) same
            (subst₂ (IsCoherent E key content)
              (sym
                ((rest.untouched key fresh).1 ∙ back key ∙ if_pos (key_discrete key key) refl _ _))
              (sym commit-key) (decide-IsCoherent E key content old op (sym agree)))
      | no other ↦
          subst (IsCoherent E j content (cached E j current₃)) (sym (commit-all j))
            (rest.coherent j (ground arith))
    ]

    round-untouched :
        (j : EntityKey)
        → pending E j ((key, op) ∷ ops) ≡ none
        → (commit all_mods content j ≡ content j)
          × (cached E j current₃ ≡ cached E j current)
          × MentionsNone j all_mods
    unfolding lookup
    round-untouched j h = elim (key_discrete key j) [
      | yes same ↦ absurd (ground arith)
      | no other ↦
          let (a, b, none_of) = rest.untouched j (ground arith) in
          (
            commit-all j ∙ a ∙ content-ne j other,
            b ∙ back j ∙ if_neg (key_discrete key j) other _ _,
            All-push_some (λ m. entity_key m ≢ j) (decide E key old op).1 ms
                (λ x p q. other (sym (entity_key-decide key old op x p) ∙ q)) none_of,
          )
    ]

    round-Committed : Committed E ((key, op) ∷ ops) content current current₃ all_mods
    round-Committed = record {
      valid = rest.valid;
      shows = round-shows;
      needed = round-IsNeeded;
      once = IsOnce-push_some (decide E key old op).1 (entity_key-decide key old op);
      coherent = round-IsCoherent;
      untouched = round-untouched;
    }

  nothing-Committed :
      (current : EntityLfu E) (content : Content E.scalars)
      → IsValidLfu E current
      → Committed E [] content current current []
  unfolding commit lookup apply_update
  nothing-Committed current content valid = record {
    valid = valid;
    shows = λ key. SameView-refl (content key);
    needed = tt;
    once = tt;
    coherent = λ key h. cc;
    untouched = λ key n. (refl, refl, tt);
  }

  -- The loop does not panic, and does what `Committed` says.
  pub modify_all-Committed :
      (ops : Ops E) (current : EntityLfu E) (content : Content E.scalars)
      → IsDistinct key_discrete ops
      → IsValidLfu E current
      → Agrees E ops current content
      → (r : EntityLfu E × Mods E) × (modify_all E ops current ≡ done r)
        × Committed E ops content current r.0 r.1
  unfolding modify_all
  modify_all-Committed [] current content d valid agree =
      ((current, []), refl, nothing-Committed current content valid)
  modify_all-Committed ((key, op) ∷ ops) current content d valid agree =
      let old = join_option (cached E key current) in
      let (current₁, e₁, valid₁, left) = remove_lem (types E) E.queue key current valid in
      let (current₂, e₂, valid₂, back) =
        put_back_lem E key (decide E key old op).0 current current₁ valid₁ left in
      let content' = modify_if (decide E key old op).1 content in
      let ((current₃, ms), e₃, rest) = modify_all-Committed ops current₂ content' d.1 valid₂ (
        Agrees-ne key ops current current₂ content content'
          (λ j other. back j ∙ if_neg (key_discrete key j) other _ _)
          (modify_if-decide_ne E key content old op) d.0 agree.1) in
      (
        (current₃, push_some (decide E key old op).1 ms),
        rw (e₁, e₂, e₃),
        round-Committed key op ops content current current₂ current₃ ms d.0 agree.0 back rest,
      )
