-- ===== src/LfuCache/ListQueue/Laws.antt =====
-- The laws of the priority queue, for the queue on a list.
use test_ci_for_massbitproto.Prelude.{
  ℕ, ◌+◌, ◌≤◌, Bool, true, false, none, some, List, [], ◌∷◌, sum, ◌≡◌, refl, arith,
}
use test_ci_for_massbitproto.LfuCache.ListQueue.{
  find, IsDistinct, guarded, update, update_all, push_slot, take_max, find_eq, push_slot-IsDistinct,
}

module _ {K Item Priority : Type 0} (dec : Discrete K) (key : Item → K)
    (le : Priority → Priority → Bool) where
  abbrev pub Slots : Type 0
  Slots = List (Item × Priority)

  pub sum-find :
      (w : Item × Priority → ℕ) (x : Item) (r : Slots) (e : Item × Priority)
      → find dec key le x r ≡ some e
      → w e ≤ sum w r
  sum-find w x [] e h = cc
  sum-find w x (d ∷ r) e h = ground (arith, sum-find w x r e)

  pub sum-update :
      (w : Item × Priority → ℕ) (x : Item) (f : Item × Priority → Item × Priority) (r : Slots)
      (e : Item × Priority)
      → find dec key le x r ≡ some e
      → sum w (update dec key le x f r) + w e ≡ sum w r + w (guarded dec key le f e)
  sum-update w x f [] e h = cc
  sum-update w x f (d ∷ r) e h = ground (arith, sum-update w x f r e)

  pub sum-update_all :
      (w : Item × Priority → ℕ) (f : Item × Priority → Item × Priority) (r : Slots)
      → sum w (update_all dec key le f r) ≡ sum (λ e. w (guarded dec key le f e)) r
  sum-update_all w f [] = refl
  sum-update_all w f (e ∷ r) = omega (arith, sum-update_all w f r)

  pub sum-take_max :
      (w : Item × Priority → ℕ) (e : Item × Priority) (r : Slots)
      → w e + sum w r ≡ w (take_max dec key le e r).0 + sum w (take_max dec key le e r).1
  sum-take_max w e [] = refl
  sum-take_max w e (d ∷ r) = ground (arith, sum-take_max w d r)

  pub update_absent :
      (x : Item) (f : Item × Priority → Item × Priority) (r : Slots)
      → find dec key le x r ≡ none
      → update dec key le x f r ≡ r
  update_absent x f [] h = refl
  update_absent x f (d ∷ r) h = ground (arith, update_absent x f r)

  -- `extend` pushes each entry.
  abbrev pub push_all : Slots → Slots → Slots
  push_all [] r = r
  push_all (e ∷ es) r = push_all es (push_slot dec key le e.0 e.1 r)

  pub push_all-IsDistinct :
      (es r : Slots) → IsDistinct dec key le r → IsDistinct dec key le (push_all es r)
  push_all-IsDistinct [] r h = h
  push_all-IsDistinct (e ∷ es) r h =
      push_all-IsDistinct es (push_slot dec key le e.0 e.1 r)
        (push_slot-IsDistinct dec key le e.0 e.1 r h)

  pub push_slot_absent :
      (x : Item) (p : Priority) (r : Slots)
      → find dec key le x r ≡ none
      → push_slot dec key le x p r ≡ (x, p) ∷ r
  push_slot_absent x p r h = rw h

  pub sum-push_all :
      (w : Item × Priority → ℕ) (es r : Slots)
      → IsDistinct dec key le es
      → ((x : Item) (e : Item × Priority)
          → find dec key le x es ≡ some e
          → find dec key le x r ≡ none)
      → sum w (push_all es r) ≡ sum w es + sum w r
  sum-push_all w [] r d h = omega arith
  sum-push_all w (e ∷ es) r d h =
      let absent : find dec key le e.0 r ≡ none = h e.0 e (ground arith) in
      rw (push_slot_absent e.0 e.1 r absent) (
        omega (
          arith,
          sum-push_all w es (e ∷ r) d.1
              (λ x c p. ground (arith, h x c, find_eq dec key le e.0 x es)),
        ))

  module _ (le_total : (p q : Priority) → le p q ≡ false → le q p ≡ true)
      (le_refl : (p : Priority) → le p p ≡ true)
      (le_trans : (p q r : Priority) → le p q ≡ true → le q r ≡ true → le p r ≡ true) where
    pub take_max_max :
        (e : Item × Priority) (r : Slots) (y : Item) (f : Item × Priority)
        → find dec key le y (e ∷ r) ≡ some f
        → le f.1 (take_max dec key le e r).0.1 ≡ true
    take_max_max e [] y f h = ground (arith, le_refl e.1)
    take_max_max e (d ∷ r) y f h = ground (
      arith,
      take_max_max d r y f,
      le_refl e.1,
      le_total (take_max dec key le d r).0.1 e.1,
      le_trans f.1 (take_max dec key le d r).0.1 e.1,
    )
