-- ===== src/LfuCache/Eviction.antt =====
-- `evict`: it ends, does not panic, and drops entries by priority until the weight fits.
use test_ci_for_massbitproto.Prelude.{
  ℕ, zero, suc, ◌+◌, ◌-◌, ◌≤◌, List, [], ◌∷◌, none, some, sum, length, ite, ◌≡◌, ◌≢◌, refl, sym,
  ◌∙◌, arith, Option-cases, Bool-cases, inl, inr, true, false, leb,
}
use test_ci_for_massbitproto.Prelude.Outcome.{done}
use test_ci_for_massbitproto.LfuCache.Types.{
  CacheTypes, Priority, priority_le, CacheQueue, LfuCache,
}
use test_ci_for_massbitproto.LfuCache.Ops.{Entry, cache_key, evict_loop}
use test_ci_for_massbitproto.LfuCache.Access.{entry_at, weight_of}
use test_ci_for_massbitproto.LfuCache.Invariant.{IsValid}

pub length-sum {ℓ} : {A : Type ℓ} (xs : List A) → length xs ≡ sum (λ _. 1) xs
length-sum [] = refl
length-sum (x ∷ xs) = omega (arith, length-sum xs)

priority_le_trans :
    (p q r : Priority) → priority_le p q ≡ true → priority_le q r ≡ true → priority_le p r ≡ true
priority_le_trans (a, f) (b, g) (d, h) x y = ground arith

module _ (T : CacheTypes) (Q : CacheQueue T) where
  -- What an eviction from `c` leaves in `c'`: entries of `c`, unchanged, and each entry that is gone
  -- had at least the priority of each one that stays.
  pub record Evicted (c c' : LfuCache T Q) : Type 0 where
    pub kept :
        (k : T.Key) (x : Entry T Q × Priority)
        → entry_at T Q k c' ≡ some x
        → entry_at T Q k c ≡ some x
    pub order :
        (j k : T.Key) (x y : Entry T Q × Priority)
        → entry_at T Q j c ≡ some x
        → entry_at T Q j c' ≡ none
        → entry_at T Q k c' ≡ some y
        → priority_le y.1 x.1 ≡ true

  Evicted-refl : (c : LfuCache T Q) → Evicted c c
  Evicted-refl c = record { kept = λ k x h. h; order = λ j k x y p n q. cc }

  module _ (c : LfuCache T Q) (e : Entry T Q × Priority) (q : Q.Queue)
      (p : Q.pop c.queue ≡ some (e, q)) (valid : IsValid T Q c) where
    abbrev popped : LfuCache T Q
    popped = record c { queue = q; total_weight = c.total_weight - e.0.weight }

    entry_at-popped :
        (k : T.Key) → entry_at T Q k popped ≡ ite (T.dec e.0.key k) none (entry_at T Q k c)
    entry_at-popped k = (Q.get-pop c.queue p).1 (cache_key T Q k)

    weight-le-total : e.0.weight ≤ c.total_weight
    weight-le-total = omega (arith, valid.counted, Q.sum-pop (weight_of T Q) c.queue p)

    popped-IsValid : IsValid T Q popped
    popped-IsValid = record {
      counted = omega (arith, valid.counted, Q.sum-pop (weight_of T Q) c.queue p);
      sound = λ k x h. ground (arith, entry_at-popped k, valid.sound k x);
    }

    Evicted-popped : (c' : LfuCache T Q) → Evicted popped c' → Evicted c c'
    Evicted-popped c' r = record {
      kept = λ k x h. ground (arith, entry_at-popped k, r.kept k x h);
      order = λ j k x y h n m. elim (T.dec e.0.key j) [
        | yes same ↦
            let at : entry_at T Q j c ≡ some e =
              Q.get_eq (cache_key T Q j) e.0 c.queue (sym same) ∙ (Q.get-pop c.queue p).0 in
            let first =
              Q.pop_max c.queue p (cache_key T Q k) {f = y}
                (ground (arith, entry_at-popped k, r.kept k y m)) in
            ground (arith, at, first)
        | no other ↦ r.order j k x y (ground (arith, entry_at-popped j)) n m
      ];
    }

  -- What the loop returns: the weight that it evicted on top of `evicted`, and a cache that fits.
  pub record LoopResult (max_weight evicted : ℕ) (c : LfuCache T Q) (r : ℕ × LfuCache T Q)
      : Type 0 where
    pub valid : IsValid T Q r.1
    pub fits : r.1.total_weight ≤ max_weight
    pub balance : r.0 + r.1.total_weight ≡ evicted + c.total_weight
    pub evicts : Evicted c r.1

  abbrev pub LoopDone : ℕ → ℕ → ℕ → LfuCache T Q → Type 0
  LoopDone n max_weight evicted c =
      (r : ℕ × LfuCache T Q) × (evict_loop T Q n max_weight evicted c ≡ done r)
      × LoopResult max_weight evicted c r

  LoopDone-fits :
      (n max_weight evicted : ℕ) (c : LfuCache T Q)
      → IsValid T Q c
      → leb c.total_weight max_weight ≡ true
      → LoopDone n max_weight evicted c
  unfolding evict_loop
  LoopDone-fits zero max_weight evicted c valid h = (
    (evicted, c),
    rw (h, evict_loop),
    record { valid = valid; fits = ground arith; balance = refl; evicts = Evicted-refl c },
  )
  LoopDone-fits (suc n) max_weight evicted c valid h = (
    (evicted, c),
    rw (h, evict_loop),
    record { valid = valid; fits = ground arith; balance = refl; evicts = Evicted-refl c },
  )

  -- An empty queue weighs nothing, so the loop finds an entry as long as it goes on.
  pop-ne-none :
      (max_weight : ℕ) (c : LfuCache T Q)
      → IsValid T Q c
      → leb c.total_weight max_weight ≡ false
      → Q.pop c.queue ≢ none
  pop-ne-none max_weight c valid h n =
      ground (arith, valid.counted, Q.pop_none (weight_of T Q) c.queue n)

  more_step :
      (n max_weight evicted : ℕ) (c : LfuCache T Q) (e : Entry T Q × Priority) (q : Q.Queue)
      → (p : Q.pop c.queue ≡ some (e, q)) → IsValid T Q c
      → leb c.total_weight max_weight ≡ false
      → LoopDone n max_weight
          (evicted + e.0.weight)
          (record c { queue = q; total_weight = c.total_weight - e.0.weight })
      → LoopDone (suc n) max_weight evicted c
  unfolding evict_loop
  more_step n max_weight evicted c e q p valid more (r, eq, l) =
      let le = weight-le-total c e q p valid in
      (
        r,
        ground (arith, eq, le),
        record {
          valid = l.valid;
          fits = l.fits;
          balance = omega (arith, le, l.balance);
          evicts = Evicted-popped c e q p valid r.1 l.evicts;
        },
      )

  -- With as much fuel as there are entries the loop ends and does not panic.
  pub evict_loop-LoopDone :
      (n max_weight evicted : ℕ) (c : LfuCache T Q)
      → IsValid T Q c
      → sum (λ _. 1) (Q.into_iter c.queue) ≤ n
      → LoopDone n max_weight evicted c
  evict_loop-LoopDone zero max_weight evicted c valid few =
      elim (Bool-cases (leb c.total_weight max_weight)) [
        | inl h ↦ LoopDone-fits zero max_weight evicted c valid h
        | inr more ↦ elim (Option-cases (Q.pop c.queue)) [
          | inl n ↦ absurd (pop-ne-none max_weight c valid more n)
          | inr ((e, q), p) ↦ absurd (omega (arith, Q.sum-pop (λ _. 1) c.queue p))
        ]
      ]
  evict_loop-LoopDone (suc n) max_weight evicted c valid few =
      let again = evict_loop-LoopDone n max_weight in
      elim (Bool-cases (leb c.total_weight max_weight)) [
        | inl h ↦ LoopDone-fits (suc n) max_weight evicted c valid h
        | inr more ↦ elim (Option-cases (Q.pop c.queue)) [
          | inl n ↦ absurd (pop-ne-none max_weight c valid more n)
          | inr ((e, q), p) ↦ more_step n max_weight evicted c e q p valid more (
              again (evicted + e.0.weight)
                (record c { queue = q; total_weight = c.total_weight - e.0.weight })
                (popped-IsValid c e q p valid) (omega (arith, Q.sum-pop (λ _. 1) c.queue p)))
        ]
      ]
