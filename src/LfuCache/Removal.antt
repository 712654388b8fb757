-- ===== src/LfuCache/Removal.antt =====
-- `remove`: the entry whose priority was raised is the one that is popped.
use test_ci_for_massbitproto.Prelude.{
  ◌-◌, none, some, map_option, ite, ◌≡◌, ◌≢◌, refl, sym, ◌∙◌, arith, Option-cases, inl, inr, true,
}
use test_ci_for_massbitproto.Prelude.Outcome.{done}
use test_ci_for_massbitproto.LfuCache.Types.{CacheTypes, Priority, CacheQueue, LfuCache}
use test_ci_for_massbitproto.LfuCache.Ops.{Entry, cache_key, remove, take_popped}
use test_ci_for_massbitproto.LfuCache.Access.{entry_at, find, weight_of}
use test_ci_for_massbitproto.LfuCache.Invariant.{IsValid}

module _ (T : CacheTypes) (Q : CacheQueue T) (k : T.Key) (c : LfuCache T Q)
    (valid : IsValid T Q c) where
  abbrev raised : Q.Queue
  raised = Q.change_priority_by (cache_key T Q k) (λ _. (true, 0)) c.queue

  get-raised :
      (x : Entry T Q)
      → Q.get x raised
        ≡ ite
            (T.dec k x.key)
            (map_option (λ e. (e.0, (true, 0))) (Q.get x c.queue))
            (Q.get x c.queue)
  get-raised x = Q.get-change_priority_by (cache_key T Q k) x (λ _. (true, 0)) c.queue

  module _ (e : Entry T Q × Priority) (at : entry_at T Q k c ≡ some e) where
    get-raised_self : Q.get (cache_key T Q k) raised ≡ some (e.0, (true, 0))
    get-raised_self = ground (arith, get-raised (cache_key T Q k))

    -- No other entry has the priority `(true, Reverse(0))`, since each was accessed once.
    popped_key : (f : Entry T Q × Priority) (q : Q.Queue) → Q.pop raised ≡ some (f, q) → f.0.key ≡ k
    popped_key f q p = elim (T.dec k f.0.key) [
      | yes same ↦ sym same
      | no other ↦
          let found = (Q.get-pop raised p).0 in
          let old : Q.get f.0 c.queue ≡ some f = ground (arith, get-raised f.0) in
          let same = Q.get_eq (cache_key T Q f.0.key) f.0 c.queue refl in
          let sound = valid.sound f.0.key f (same ∙ old) in
          absurd (ground (arith, sound.1, Q.pop_max raised p (cache_key T Q k) get-raised_self))
    ]

    popped_entry :
        (f : Entry T Q × Priority) (q : Q.Queue) → Q.pop raised ≡ some (f, q) → f ≡ (e.0, (true, 0))
    popped_entry f q p = ground (
      arith,
      (Q.get-pop raised p).0,
      Q.get_eq f.0 (cache_key T Q k) raised (popped_key f q p),
      get-raised_self,
    )

    -- The cache without the entry that was popped.
    take_popped-some :
        (f : Entry T Q × Priority) (q : Q.Queue)
        → Q.pop raised ≡ some (f, q)
        → (c' : LfuCache T Q) × (take_popped T Q k (record c { queue = raised }) (some (f, q))
            ≡ done (c', some e.0.value))
          × IsValid T Q c'
          × ((j : T.Key) → find T Q j c' ≡ ite (T.dec k j) none (find T Q j c))
    unfolding take_popped find
    take_popped-some f q p =
        let same = popped_entry f q p in
        let key = popped_key f q p in
        let left = λ (j : T.Key). (Q.get-pop raised p).1 (cache_key T Q j) in
        let popped = Q.sum-pop (weight_of T Q) raised p in
        let kept =
          Q.sum-change_priority_by (weight_of T Q) (cache_key T Q k) (λ _. (true, 0)) c.queue at in
        (
          record c { queue = q; total_weight = c.total_weight - f.0.weight },
          ground (arith, same, key, popped, kept, valid.counted),
          record {
            counted = omega (arith, valid.counted, popped, kept);
            sound =
                λ j x h. ground (arith, left j, get-raised (cache_key T Q j), valid.sound j x, key);
          },
          λ j. ground (arith, left j, get-raised (cache_key T Q j), key),
        )

    pop-raised_ne_none : Q.pop raised ≢ none
    pop-raised_ne_none h = omega (
      arith,
      Q.pop_none (λ _. 1) raised h,
      Q.sum-get (λ _. 1) (cache_key T Q k) raised get-raised_self,
    )

  -- `remove` from a valid cache does not panic: the popped entry is the one of its key. It returns the value of the key,
  -- removes that key alone, and keeps the invariant.
  pub remove_lem :
      (c' : LfuCache T Q) × (remove T Q k c ≡ done (c', find T Q k c))
      × IsValid T Q c'
      × ((j : T.Key) → find T Q j c' ≡ ite (T.dec k j) none (find T Q j c))
  unfolding remove
  remove_lem = elim (Option-cases (entry_at T Q k c)) [
    | inl n ↦ (
      record c { queue = raised },
      unfold find in ground arith,
      record {
        counted = omega (
          arith,
          valid.counted,
          Q.sum-change_absent (weight_of T Q) (cache_key T Q k) (λ _. (true, 0)) c.queue n,
        );
        sound = λ j e h. ground (arith, get-raised (cache_key T Q j), valid.sound j e);
      },
      λ j. unfold find in ground (arith, get-raised (cache_key T Q j)),
    )
    | inr (e, at) ↦ elim (Option-cases (Q.pop raised)) [
      | inl n ↦ absurd (pop-raised_ne_none e at n)
      | inr ((f, q), p) ↦
          let (c', eq, rest, left) = take_popped-some e at f q p in
          (c', unfold find in ground (arith, at, p, eq), rest, left)
    ]
  ]
