-- ===== src/LfuCache/Extension.antt =====
-- `extend`, which takes the entries of another cache and leaves the total weight alone.
use test_ci_for_massbitproto.Prelude.{◌+◌, ◌<◌, none, some, sum, ◌≡◌, refl, ◌∙◌, arith}
use test_ci_for_massbitproto.LfuCache.Types.{CacheTypes, Priority, CacheQueue, LfuCache}
use test_ci_for_massbitproto.LfuCache.Ops.{Entry, cache_key, extend}
use test_ci_for_massbitproto.LfuCache.Access.{entry_at, weight_of}
use test_ci_for_massbitproto.LfuCache.Invariant.{IsValid}

module _ (T : CacheTypes) (Q : CacheQueue T) (c other : LfuCache T Q) where
  -- Two valid caches without a common key do not make a valid one by `extend`, unless what is added
  -- weighs nothing: the total weight falls short of the weight of the entries by that much.
  pub extend-not-IsValid :
      IsValid T Q c
      → IsValid T Q other
      → ((k : T.Key) (e : Entry T Q × Priority)
          → entry_at T Q k other ≡ some e
          → entry_at T Q k c ≡ none)
      → 0 < other.total_weight
      → ((extend T Q c other).total_weight + other.total_weight
          ≡ sum (weight_of T Q) (Q.into_iter (extend T Q c other).queue))
        × ¬ IsValid T Q (extend T Q c other)
  unfolding extend
  extend-not-IsValid valid valid' apart heavy =
      let all = Q.sum-extend (weight_of T Q) c.queue other.queue (λ x e h.
        Q.get_eq x (cache_key T Q x.key) c.queue refl
        ∙ apart x.key e (Q.get_eq (cache_key T Q x.key) x other.queue refl ∙ h)) in
      (
        omega (arith, valid.counted, valid'.counted, all),
        λ v. omega (arith, valid.counted, valid'.counted, all, v.counted),
      )
