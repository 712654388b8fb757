-- ===== src/LfuCache/Invariant.antt =====
-- The invariant of the cache, and what `insert`, `get` and `remove` do under it.
use test_ci_for_massbitproto.Prelude.{
  ◌+◌, ◌-◌, ◌≤◌, none, some, map_option, sum, ite, ◌≡◌, refl, ap, sym, ◌∙◌, arith, Option-cases,
  inl, inr, false,
}
use test_ci_for_massbitproto.Prelude.Outcome.{done}
use test_ci_for_massbitproto.LfuCache.Types.{CacheTypes, Priority, CacheQueue, LfuCache}
use test_ci_for_massbitproto.LfuCache.Ops.{
  Entry, cache_key, weight, new, new_entry, overwrite, insert_at, insert, get_mut, get,
}
use test_ci_for_massbitproto.LfuCache.Access.{
  entry_at, find, weight_of, touch, entry_at-get_mut, get_mut-entry, find-get_mut,
  total_weight-get_mut, sum-get_mut,
}

module _ (T : CacheTypes) (Q : CacheQueue T) where
  -- An entry records its own weight, and has been accessed at least once.
  abbrev pub IsSound : Entry T Q × Priority → Type 0
  IsSound e = (e.0.weight ≡ weight T e.0.key e.0.value) × (1 ≤ e.1.1)

  abbrev pub AllSound : Q.Queue → Type 0
  AllSound q =
      (k : T.Key) (e : Entry T Q × Priority) → Q.get (cache_key T Q k) q ≡ some e → IsSound e

  pub record IsValid (c : LfuCache T Q) : Type 0 where
    pub counted : c.total_weight ≡ sum (weight_of T Q) (Q.into_iter c.queue)
    pub sound : AllSound c.queue

  -- A change at one key that keeps the entry sound.
  update-AllSound :
      (k : T.Key) (f : Entry T Q × Priority → Entry T Q × Priority) (q q' : Q.Queue)
      → ((j : T.Key)
          → Q.get (cache_key T Q j) q'
            ≡ ite
                (T.dec k j)
                (map_option f (Q.get (cache_key T Q j) q))
                (Q.get (cache_key T Q j) q))
      → ((e : Entry T Q × Priority)
          → Q.get (cache_key T Q k) q ≡ some e
          → IsSound e
          → IsSound (f e))
      → AllSound q
      → AllSound q'
  update-AllSound k f q q' law keep all j e h = elim (Option-cases (Q.get (cache_key T Q j) q)) [
    | inl n ↦ ground (arith, law j)
    | inr (e₀, p) ↦
        ground (arith, law j, all j e₀ p, keep e₀, Q.get_eq (cache_key T Q k) (cache_key T Q j) q)
  ]

  pub new-IsValid : IsValid (new T Q)
  unfolding new
  new-IsValid = record {
    counted = ground (arith, Q.sum-new (weight_of T Q));
    sound = λ k e h. ground (arith, Q.get-new (cache_key T Q k));
  }

  module _ (k : T.Key) (c : LfuCache T Q) (valid : IsValid c) where
    pub get_mut-IsValid : IsValid (get_mut T Q k c).0
    get_mut-IsValid = record {
      counted = total_weight-get_mut T Q k c ∙ valid.counted ∙ sym (sum-get_mut T Q k c);
      sound =
          update-AllSound k (touch T Q k c) c.queue (get_mut T Q k c).0.queue
            (entry_at-get_mut T Q k c) (λ e p h. omega arith) valid.sound;
    }

    insert_at_absent :
        (v : T.Val)
        → entry_at T Q k c ≡ none
        → (c' : LfuCache T Q) × (insert_at T Q k v c none ≡ done c')
          × IsValid c'
          × ((j : T.Key) → find T Q j c' ≡ ite (T.dec k j) (some v) (find T Q j c))
    unfolding insert_at find
    insert_at_absent v h =
        let x = new_entry T Q k v in
        let absent : Q.get x c.queue ≡ none = Q.get_eq x (cache_key T Q k) c.queue refl ∙ h in
        let at = λ (j : T.Key). Q.get-push x (cache_key T Q j) (false, 1) c.queue absent in
        (
          record c {
            queue = Q.push x (false, 1) c.queue;
            total_weight = c.total_weight + weight T k v;
          },
          refl,
          record {
            counted =
                omega
                  (arith, valid.counted, Q.sum-push (weight_of T Q) x (false, 1) c.queue absent);
            sound = λ j e p. ground (arith, at j, valid.sound j e);
          },
          λ j. ground (arith, at j),
        )

    insert_at_present :
        (v : T.Val) (e : Entry T Q × Priority) (e' : Entry T Q)
        → entry_at T Q k c ≡ some e
        → e'.weight ≡ e.0.weight
        → (c' : LfuCache T Q) × (insert_at T Q k v c (some e') ≡ done c')
          × IsValid c'
          × ((j : T.Key) → find T Q j c' ≡ ite (T.dec k j) (some v) (find T Q j c))
    unfolding insert_at find
    insert_at_present v e e' h same =
        let x = cache_key T Q k in
        let f = overwrite T Q k v in
        let at = λ (j : T.Key). Q.get-modify x (cache_key T Q j) f c.queue (λ i. refl) in
        let fits = Q.sum-get (weight_of T Q) x c.queue h in
        (
          record c {
            queue = Q.modify x f c.queue;
            total_weight = (c.total_weight - e'.weight) + weight T k v;
          },
          ground (arith, valid.counted, fits),
          record {
            counted = omega (
              arith,
              valid.counted,
              fits,
              Q.sum-modify (weight_of T Q) x f c.queue (λ i. refl) h,
            );
            sound =
                update-AllSound k (λ e. (f e.0, e.1)) c.queue (Q.modify x f c.queue) at
                  (λ e p h. ground (arith, Q.get_key x c.queue p)) valid.sound;
          },
          λ j. ground (arith, at j, h),
        )

  -- what `insert` promises of a cache `c'` that it returns
  abbrev Inserted : T.Key → T.Val → LfuCache T Q → LfuCache T Q → Type 0
  Inserted k v c c' =
      IsValid c' × ((j : T.Key) → find T Q j c' ≡ ite (T.dec k j) (some v) (find T Q j c))

  insert_at-Inserted :
      (k : T.Key) (v : T.Val) (c : LfuCache T Q)
      → IsValid c
      → (c' : LfuCache T Q) × (insert_at T Q k v (get_mut T Q k c).0 (get_mut T Q k c).1 ≡ done c')
        × Inserted k v (get_mut T Q k c).0 c'
  insert_at-Inserted k v c valid =
      let c₁ = (get_mut T Q k c).0 in
      let valid₁ = get_mut-IsValid k c valid in
      let at = entry_at-get_mut T Q k c k in
      let found = get_mut-entry T Q k c in
      elim (Option-cases (entry_at T Q k c)) [
        | inl n ↦
            let (c', e, w, f) = insert_at_absent k c₁ valid₁ v (ground (arith, at)) in
            (c', ap (insert_at T Q k v c₁) (ground (arith, found)) ∙ e, (w, f))
        | inr (x, p) ↦
            let (c', e, w, f) =
              insert_at_present k c₁ valid₁ v (touch T Q k c x) (touch T Q k c x).0
                (ground (arith, at)) refl in
            (c', ap (insert_at T Q k v c₁) (ground (arith, found)) ∙ e, (w, f))
      ]

  -- `insert` into a valid cache does not panic, keeps the invariant, and sets the value of its key alone.
  pub insert_lem :
      (k : T.Key) (v : T.Val) (c : LfuCache T Q)
      → IsValid c
      → (c' : LfuCache T Q) × (insert T Q k v c ≡ done c')
        × IsValid c'
        × ((j : T.Key) → find T Q j c' ≡ ite (T.dec k j) (some v) (find T Q j c))
  unfolding insert
  insert_lem k v c valid =
      let (c', e, all) = insert_at-Inserted k v c valid in
      (c', e, all.0, λ j. ground (arith, all.1 j, find-get_mut T Q k c j))

  -- `get` from a valid cache returns the value of its key, changes no value and keeps the invariant.
  pub get_lem :
      (k : T.Key) (c : LfuCache T Q)
      → IsValid c
      → ((get T Q k c).1 ≡ find T Q k c)
        × IsValid (get T Q k c).0
        × ((j : T.Key) → find T Q j (get T Q k c).0 ≡ find T Q j c)
  unfolding get find
  get_lem k c valid =
      (ground (arith, get_mut-entry T Q k c), get_mut-IsValid k c valid, find-get_mut T Q k c)
