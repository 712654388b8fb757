-- ===== src/LfuCache/ListQueue.antt =====
-- A priority queue on a list. It shows that what the cache asks of its queue can be met, and runs in
-- the tests.
pub mod Laws
pub mod Concrete
use test_ci_for_massbitproto.Prelude.{
  ℕ, ◌+◌, ◌≤◌, Bool, true, false, Option, none, some, map_option, List, [], ◌∷◌, sum, ite, ◌≡◌,
  refl, ap, arith, if◌then◌else◌, Option-cases, Bool-cases, inl, inr, is_some,
}
use test_ci_for_massbitproto.LfuCache.Queue.{PriorityQueue}

module _ {K Item Priority : Type 0} (dec : Discrete K) (key : Item → K)
    (le : Priority → Priority → Bool) where
  abbrev pub Slot : Type 0
  Slot = Item × Priority

  abbrev pub find : Item → List Slot → Option Slot
  find x [] = none
  find x (e ∷ r) = ite (dec (key e.0) (key x)) (some e) (find x r)

  abbrev pub IsDistinct : List Slot → Type 0
  IsDistinct [] = Unit
  IsDistinct (e ∷ r) = (find e.0 r ≡ none) × IsDistinct r

  -- the slot after `f`, if that keeps the key
  abbrev pub guarded : (Slot → Slot) → Slot → Slot
  guarded f e = ite (dec (key (f e).0) (key e.0)) (f e) e

  abbrev pub update : Item → (Slot → Slot) → List Slot → List Slot
  update x f [] = []
  update x f (e ∷ r) = ite (dec (key e.0) (key x)) (guarded f e ∷ r) (e ∷ update x f r)

  abbrev pub update_all : (Slot → Slot) → List Slot → List Slot
  update_all f [] = []
  update_all f (e ∷ r) = guarded f e ∷ update_all f r

  abbrev pub push_slot : Item → Priority → List Slot → List Slot
  push_slot x p r = if is_some (find x r) then update x (λ e. (e.0, p)) r else (x, p) ∷ r

  -- the first entry of the greatest priority, and the others
  abbrev pub take_max : Slot → List Slot → Slot × List Slot
  take_max e [] = (e, [])
  take_max e (d ∷ r) = let m = take_max d r in if le m.0.1 e.1 then (e, d ∷ r) else (m.0, e ∷ m.1)

  pub find_key : (x : Item) (r : List Slot) (e : Slot) → find x r ≡ some e → key e.0 ≡ key x
  find_key x [] e h = cc
  find_key x (d ∷ r) e h = ground (arith, find_key x r e)

  pub find_eq : (x y : Item) (r : List Slot) → key x ≡ key y → find x r ≡ find y r
  find_eq x y [] h = refl
  find_eq x y (d ∷ r) h = ground (arith, find_eq x y r h)

  module _ (x y : Item) (f : Slot → Slot) where
    pub find-update :
        (r : List Slot)
        → find y (update x f r)
          ≡ ite (dec (key x) (key y)) (map_option (guarded f) (find y r)) (find y r)
    find-update [] = ground arith
    find-update (e ∷ r) = ground (arith, find-update r)

    pub find-update_all :
        (r : List Slot) → find y (update_all f r) ≡ map_option (guarded f) (find y r)
    find-update_all [] = refl
    find-update_all (e ∷ r) = ground (arith, find-update_all r)

  pub guarded_lem :
      (f : Slot → Slot) (e : Slot) → ((d : Slot) → key (f d).0 ≡ key d.0) → guarded f e ≡ f e
  guarded_lem f e h = ground (arith, h e)

  pub map-guarded :
      (f : Slot → Slot) (o : Option Slot)
      → ((d : Slot) → key (f d).0 ≡ key d.0)
      → map_option (guarded f) o ≡ map_option f o
  map-guarded f none h = refl
  map-guarded f (some e) h = ap some (guarded_lem f e h)

  pub update-IsDistinct :
      (x : Item) (f : Slot → Slot) (r : List Slot) → IsDistinct r → IsDistinct (update x f r)
  update-IsDistinct x f [] h = tt
  update-IsDistinct x f (e ∷ r) h =
      ground (arith, update-IsDistinct x f r h.1, find-update x e.0 f r, find_eq (f e).0 e.0 r)

  pub update_all-IsDistinct :
      (f : Slot → Slot) (r : List Slot) → IsDistinct r → IsDistinct (update_all f r)
  update_all-IsDistinct f [] h = tt
  update_all-IsDistinct f (e ∷ r) h = ground (
    arith,
    update_all-IsDistinct f r h.1,
    find-update_all e.0 e.0 f r,
    find-update_all e.0 (f e).0 f r,
    find_eq (f e).0 e.0 r,
  )

  pub push_slot-IsDistinct :
      (x : Item) (p : Priority) (r : List Slot) → IsDistinct r → IsDistinct (push_slot x p r)
  push_slot-IsDistinct x p r h = elim (Option-cases (find x r)) [
    | inl n ↦ rw n (n, h)
    | inr (e, q) ↦ rw q (update-IsDistinct x (λ e. (e.0, p)) r h)
  ]

  -- `take_max` takes an entry out of the list and leaves the others.
  pub find-take_max :
      (y : Item) (e : Slot) (r : List Slot)
      → IsDistinct (e ∷ r)
      → (find (take_max e r).0.0 (e ∷ r) ≡ some (take_max e r).0)
        × (find y (take_max e r).1
            ≡ ite (dec (key (take_max e r).0.0) (key y)) none (find y (e ∷ r)))
  find-take_max y e [] h = ground arith
  find-take_max y e (d ∷ r) h = ground (
    arith,
    find-take_max y d r h.1,
    find_eq e.0 y (d ∷ r),
    find_eq e.0 (take_max d r).0.0 (d ∷ r),
  )

  pub take_max-IsDistinct :
      (e : Slot) (r : List Slot) → IsDistinct (e ∷ r) → IsDistinct (take_max e r).1
  take_max-IsDistinct e [] h = tt
  take_max-IsDistinct e (d ∷ r) h =
      ground (arith, take_max-IsDistinct d r h.1, find-take_max e.0 d r h.1)
