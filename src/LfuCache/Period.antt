-- ===== src/LfuCache/Period.antt =====
-- `evict_with_period` and `evict`: the marks of staleness, then the loop.
use test_ci_for_massbitproto.Prelude.{
  ℕ, ◌+◌, ◌-◌, ◌≤◌, ◌<◌, Option, none, some, map_option, sum, ◌≡◌, refl, sym, ◌∙◌, arith,
  Option-cases, Bool-cases, inl, inr, false, leb, ◌==◌, if◌then◌else◌,
}
use test_ci_for_massbitproto.Prelude.Outcome.{done}
use test_ci_for_massbitproto.LfuCache.Types.{CacheTypes, Priority, CacheQueue, LfuCache}
use test_ci_for_massbitproto.LfuCache.Ops.{Entry, cache_key, mark, len, age, evict_with_period}
use test_ci_for_massbitproto.LfuCache.Access.{entry_at, find, weight_of}
use test_ci_for_massbitproto.LfuCache.Invariant.{IsValid}
use test_ci_for_massbitproto.LfuCache.Eviction.{
  Evicted, LoopResult, evict_loop-LoopDone, length-sum,
}

module _ (T : CacheTypes) (Q : CacheQueue T) where
  -- At the end of a period the mark of an entry becomes its staleness, and the entry is marked anew.
  abbrev pub aged : ℕ → LfuCache T Q → Entry T Q × Priority → Entry T Q × Priority
  aged period c e = if c.stale_counter + 1 == period then mark e else e

  module _ (period : ℕ) (c : LfuCache T Q) where
    entry_at-age :
        (k : T.Key)
        → entry_at T Q k (age T Q period c) ≡ map_option (aged period c) (entry_at T Q k c)
    unfolding age
    entry_at-age k = ground (arith, Q.get-iter_mut (cache_key T Q k) mark c.queue (λ e. refl))

    find-age : (k : T.Key) → find T Q k (age T Q period c) ≡ find T Q k c
    unfolding find
    find-age k = ground (arith, entry_at-age k)

    total_weight-age : (age T Q period c).total_weight ≡ c.total_weight
    unfolding age
    total_weight-age = ground arith

    sum-age :
        sum (weight_of T Q) (Q.into_iter (age T Q period c).queue)
        ≡ sum (weight_of T Q) (Q.into_iter c.queue)
    unfolding age
    sum-age = ground (arith, Q.sum-iter_mut (weight_of T Q) mark c.queue (λ e. refl))

    age-IsValid : IsValid T Q c → IsValid T Q (age T Q period c)
    age-IsValid valid = record {
      counted = total_weight-age ∙ valid.counted ∙ sym sum-age;
      sound = λ k e h. elim (Option-cases (entry_at T Q k c)) [
        | inl n ↦ ground (arith, entry_at-age k)
        | inr (x, p) ↦ ground (arith, entry_at-age k, valid.sound k x p)
      ];
    }

  -- What an eviction returns.
  pub record EvictResult (max_weight period : ℕ) (c : LfuCache T Q)
      (r : LfuCache T Q × Option (ℕ × ℕ × ℕ)) : Type 0 where
    pub valid : IsValid T Q r.0
    pub fits : r.0.total_weight ≤ max_weight
    pub kept : (k : T.Key) {v : T.Val} → find T Q k r.0 ≡ some v → find T Q k c ≡ some v
    pub idle : c.total_weight ≤ max_weight → r ≡ (c, none)
    pub report :
        max_weight < c.total_weight
        → (r.1 ≡ some (c.total_weight - r.0.total_weight, c.total_weight, r.0.total_weight))
          × (r.0.total_weight ≤ c.total_weight)
          × Evicted T Q (age T Q period c) r.0

  Evicted-find :
      (c c' : LfuCache T Q) (k : T.Key) (v : T.Val)
      → Evicted T Q c c'
      → find T Q k c' ≡ some v
      → find T Q k c ≡ some v
  unfolding find
  Evicted-find c c' k v r h = elim (Option-cases (entry_at T Q k c')) [
    | inl n ↦ ground arith
    | inr (x, p) ↦ ground (arith, r.kept k x p)
  ]

  busy_result :
      (max_weight period evicted : ℕ) (c c' : LfuCache T Q)
      → leb c.total_weight max_weight ≡ false
      → LoopResult T Q max_weight 0 (age T Q period c) (evicted, c')
      → EvictResult max_weight period c (c', some (evicted, c.total_weight, c'.total_weight))
  busy_result max_weight period evicted c c' busy l = record {
    valid = l.valid;
    fits = l.fits;
    kept = λ k {v} h. sym (find-age period c k) ∙ Evicted-find (age T Q period c) c' k v l.evicts h;
    idle = λ h. absurd (ground arith);
    report = λ h. (
      ground (arith, l.balance, total_weight-age period c),
      omega (arith, l.balance, total_weight-age period c),
      l.evicts,
    );
  }

  -- An eviction from a valid cache ends and does not panic. It leaves a cache that is valid, fits into the weight and
  -- holds no value that was not there. If the weight fitted it changes nothing and reports nothing;
  -- else it reports the evicted, the old and the new weight, and of the entries, after their marks of
  -- staleness, each that is gone had at least the priority of each that stays.
  pub evict_with_period_lem :
      (max_weight period : ℕ) (c : LfuCache T Q)
      → IsValid T Q c
      → (r : LfuCache T Q × Option (ℕ × ℕ × ℕ)) × (evict_with_period T Q max_weight period c
          ≡ done r)
        × EvictResult max_weight period c r
  unfolding evict_with_period len
  evict_with_period_lem max_weight period c valid =
      let c' = age T Q period c in
      elim (Bool-cases (leb c.total_weight max_weight)) [
        | inl fits ↦ (
          (c, none),
          rw fits,
          record {
            valid = valid;
            fits = ground arith;
            kept = λ k h. h;
            idle = λ h. refl;
            report = λ h. absurd (ground arith);
          },
        )
        | inr busy ↦
            let ((evicted, c''), eq, l) =
              evict_loop-LoopDone T Q (len T Q c') max_weight 0 c' (age-IsValid period c valid)
                (omega (arith, length-sum (Q.into_iter c'.queue))) in
            (
              (c'', some (evicted, c.total_weight, c''.total_weight)),
              rw (busy, eq),
              busy_result max_weight period evicted c c'' busy l,
            )
      ]
