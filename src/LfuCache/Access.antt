-- ===== src/LfuCache/Access.antt =====
-- What a lookup changes: the frequency and the staleness mark of one entry.
use test_ci_for_massbitproto.Prelude.{
  ℕ, Option, none, some, map_option, sum, ite, ◌≡◌, refl, arith, Option-cases, inl, inr,
}
use test_ci_for_massbitproto.LfuCache.Types.{CacheTypes, Priority, CacheQueue, LfuCache}
use test_ci_for_massbitproto.LfuCache.Ops.{Entry, cache_key, accessed, not_stale, get_mut}

module _ (T : CacheTypes) (Q : CacheQueue T) where
  -- The queue's entry for a key.
  abbrev pub entry_at : T.Key → LfuCache T Q → Option (Entry T Q × Priority)
  entry_at k c = Q.get (cache_key T Q k) c.queue

  -- The abstract cache: the value under a key.
  unfoldable pub find : T.Key → LfuCache T Q → Option T.Val
  find k c = map_option (λ e. e.0.value) (entry_at k c)

  abbrev pub weight_of : Entry T Q × Priority → ℕ
  weight_of e = e.0.weight

  module _ (k : T.Key) (c : LfuCache T Q) where
    abbrev pub touch : Entry T Q × Priority → Entry T Q × Priority
    touch e = (not_stale e.0, accessed e.1)

    -- The entry of the key is touched, and every other one stays.
    pub entry_at-get_mut :
        (j : T.Key)
        → entry_at j (get_mut T Q k c).0
          ≡ ite (T.dec k j) (map_option touch (entry_at j c)) (entry_at j c)
    unfolding get_mut
    entry_at-get_mut j = ground (
      arith,
      Q.get-change_priority_by (cache_key T Q k) (cache_key T Q j) accessed c.queue,
      Q.get-change_priority_by (cache_key T Q k) (cache_key T Q k) accessed c.queue,
      Q.get-modify (cache_key T Q k) (cache_key T Q j) not_stale
          (Q.change_priority_by (cache_key T Q k) accessed c.queue) (λ i. refl),
    )

    -- A lookup changes no value.
    pub find-get_mut : (j : T.Key) → find j (get_mut T Q k c).0 ≡ find j c
    unfolding find
    find-get_mut j = ground (arith, entry_at-get_mut j)

    pub get_mut-entry : (get_mut T Q k c).1 ≡ map_option (λ e. not_stale e.0) (entry_at k c)
    unfolding get_mut
    get_mut-entry =
        ground
          (arith, Q.get-change_priority_by (cache_key T Q k) (cache_key T Q k) accessed c.queue)

    pub total_weight-get_mut : (get_mut T Q k c).0.total_weight ≡ c.total_weight
    unfolding get_mut
    total_weight-get_mut = ground arith

    sum-get_mut_absent :
        entry_at k c ≡ none
        → sum weight_of (Q.into_iter (get_mut T Q k c).0.queue)
          ≡ sum weight_of (Q.into_iter c.queue)
    unfolding get_mut
    sum-get_mut_absent h = ground (
      arith,
      Q.get-change_priority_by (cache_key T Q k) (cache_key T Q k) accessed c.queue,
      Q.sum-change_absent weight_of (cache_key T Q k) accessed c.queue h,
    )

    sum-get_mut_present :
        (e : Entry T Q × Priority)
        → entry_at k c ≡ some e
        → sum weight_of (Q.into_iter (get_mut T Q k c).0.queue)
          ≡ sum weight_of (Q.into_iter c.queue)
    unfolding get_mut
    sum-get_mut_present e h =
        let q = Q.change_priority_by (cache_key T Q k) accessed c.queue in
        let at : Q.get (cache_key T Q k) q ≡ some (e.0, accessed e.1) =
          ground (
            arith,
            Q.get-change_priority_by (cache_key T Q k) (cache_key T Q k) accessed c.queue,
          ) in
        ground (
          arith,
          at,
          Q.sum-change_priority_by weight_of (cache_key T Q k) accessed c.queue h,
          Q.sum-modify weight_of (cache_key T Q k) not_stale q (λ i. refl) at,
        )

    -- A lookup changes no weight.
    pub sum-get_mut :
        sum weight_of (Q.into_iter (get_mut T Q k c).0.queue) ≡ sum weight_of (Q.into_iter c.queue)
    sum-get_mut = elim (Option-cases (entry_at k c)) [
      | inl h ↦ sum-get_mut_absent h
      | inr (e, h) ↦ sum-get_mut_present e h
    ]
