-- ===== src/LfuCache/Ops.antt =====
-- The operations of `LfuCache`. Each returns the new cache beside its result.
use test_ci_for_massbitproto.Prelude.{
  ℕ, zero, suc, ◌+◌, Bool, true, false, is_some, Option, none, some, length, leb, ◌==◌,
  if◌then◌else◌, ite,
}
use test_ci_for_massbitproto.Prelude.Outcome.{
  Outcome, done, failed, panic, ◌>>=◌, ◌>>◌, assert, checked_sub,
}
use test_ci_for_massbitproto.LfuCache.Types.{
  CacheTypes, CacheEntry, Priority, CacheQueue, LfuCache, stale_period,
}

-- `CacheEntry::weight`
unfoldable pub weight : (T : CacheTypes) → T.Key → T.Val → ℕ
weight T key value = T.value_weight value + T.key_weight key + T.entry_size

-- the priority after one more access
abbrev pub accessed : Priority → Priority
accessed p = (p.0, p.1 + 1)

abbrev pub not_stale : {K V : Type 0} → CacheEntry K V → CacheEntry K V
not_stale e = record e { will_stale = false }

-- the body of the loop over `iter_mut`: what was not accessed in the last period is stale now
abbrev pub mark : {K V : Type 0} → CacheEntry K V × Priority → CacheEntry K V × Priority
mark e = (record e.0 { will_stale = true }, (e.0.will_stale, e.1.1))

module _ (T : CacheTypes) (Q : CacheQueue T) where
  abbrev pub Entry : Type 0
  Entry = CacheEntry T.Key T.Val

  abbrev pub cache_key : T.Key → Entry
  cache_key k = record { weight = 0; key = k; value = T.default; will_stale = false }

  -- `LfuCache::new` and `default`
  unfoldable pub new : LfuCache T Q
  new = record { queue = Q.new; total_weight = 0; stale_counter = 0 }

  -- The entry, with the access noted, and the cache.
  unfoldable pub get_mut : T.Key → LfuCache T Q → LfuCache T Q × Option Entry
  get_mut key c =
      let q = Q.change_priority_by (cache_key key) accessed c.queue in
      elim (Q.get (cache_key key) q) [
        | none ↦ (record c { queue = q }, none)
        | some (e, _) ↦
            (record c { queue = Q.modify (cache_key key) not_stale q }, some (not_stale e))
      ]

  abbrev pub new_entry : T.Key → T.Val → Entry
  new_entry key value = record {
    weight = weight T key value;
    key = key;
    value = value;
    will_stale = false;
  }

  abbrev pub overwrite : T.Key → T.Val → Entry → Entry
  overwrite key value e = record e { weight = weight T key value; value = value }

  -- the two branches of `insert`
  unfoldable pub insert_at : T.Key → T.Val → LfuCache T Q → Option Entry → Outcome (LfuCache T Q)
  insert_at key value c none = done (record c {
    queue = Q.push (new_entry key value) (false, 1) c.queue;
    total_weight = c.total_weight + weight T key value;
  })
  insert_at key value c (some entry) = do
    total ← checked_sub c.total_weight entry.weight
    done (record c {
      queue = Q.modify (cache_key key) (overwrite key value) c.queue;
      total_weight = total + weight T key value;
    })

  unfoldable pub insert : T.Key → T.Val → LfuCache T Q → Outcome (LfuCache T Q)
  insert key value c = let (c', entry) = get_mut key c in insert_at key value c' entry

  unfoldable pub get : T.Key → LfuCache T Q → LfuCache T Q × Option T.Val
  get key c =
      let (c', entry) = get_mut key c in (c', elim entry [ none ↦ none | some e ↦ some e.value ])

  -- what `remove` does with the popped entry
  unfoldable pub take_popped :
      T.Key
      → LfuCache T Q
      → Option ((Entry × Priority) × Q.Queue)
      → Outcome (LfuCache T Q × Option T.Val)
  take_popped key c none = done (c, none)
  take_popped key c (some ((e, _), q)) = do
    assert (ite (T.dec e.key key) true false)
    total ← checked_sub c.total_weight e.weight
    done (record c { queue = q; total_weight = total }, some e.value)

  -- The entry gets the greatest priority of all, `(true, Reverse(0))`, and is popped.
  unfoldable pub remove : T.Key → LfuCache T Q → Outcome (LfuCache T Q × Option T.Val)
  remove key c =
      let q = Q.change_priority_by (cache_key key) (λ _. (true, 0)) c.queue in
      elim (Q.get (cache_key key) c.queue) [
        | none ↦ done (record c { queue = q }, none)
        | some _ ↦ take_popped key (record c { queue = q }) (Q.pop q)
      ]

  unfoldable pub contains_key : T.Key → LfuCache T Q → Bool
  contains_key key c = is_some (Q.get (cache_key key) c.queue)

  unfoldable pub len : LfuCache T Q → ℕ
  len c = length (Q.into_iter c.queue)

  unfoldable pub is_empty : LfuCache T Q → Bool
  is_empty c = len c == 0

  -- the counter, and the marks at the end of each period
  unfoldable pub age : ℕ → LfuCache T Q → LfuCache T Q
  age period c =
      if c.stale_counter + 1 == period
      then record c { stale_counter = 0; queue = Q.iter_mut mark c.queue }
      else record c { stale_counter = c.stale_counter + 1 }

  -- `while self.total_weight > max_weight`. The fuel is the number of entries: at 0 the queue is empty
  -- and `expect` fails, as it does where `pop` has no entry. The first part of the result is `evicted`.
  unfoldable pub evict_loop : ℕ → ℕ → ℕ → LfuCache T Q → Outcome (ℕ × LfuCache T Q)
  evict_loop zero max_weight evicted c =
      if leb c.total_weight max_weight then done (evicted, c) else panic
  evict_loop (suc n) max_weight evicted c = elim (leb c.total_weight max_weight) [
    | true ↦ done (evicted, c)
    | false ↦ elim (Q.pop c.queue) [
      | none ↦ panic
      | some ((e, _), q) ↦ elim (checked_sub c.total_weight e.weight) [
        | panic ↦ panic
        | failed err ↦ failed err
        | done total ↦
            evict_loop n max_weight (evicted + e.weight)
              (record c { queue = q; total_weight = total })
      ]
    ]
  ]

  -- `none` where there was no reason to evict; else the evicted, the old and the new weight.
  unfoldable pub evict_with_period :
      ℕ → ℕ → LfuCache T Q → Outcome (LfuCache T Q × Option (ℕ × ℕ × ℕ))
  evict_with_period max_weight period c =
      let c' = age period c in
      if leb c.total_weight max_weight then done (c, none) else (do
        (evicted, c'') ← evict_loop (len c') max_weight 0 c'
        done (c'', some (evicted, c.total_weight, c''.total_weight)))

  unfoldable pub evict : ℕ → LfuCache T Q → Outcome (LfuCache T Q × Option (ℕ × ℕ × ℕ))
  evict max_weight = evict_with_period max_weight stale_period

  -- `extend` with the entries of another cache. The total weight is not changed.
  unfoldable pub extend : LfuCache T Q → LfuCache T Q → LfuCache T Q
  extend c other = record c { queue = Q.extend (Q.into_iter other.queue) c.queue }
