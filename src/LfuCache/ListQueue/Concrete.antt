-- ===== src/LfuCache/ListQueue/Concrete.antt =====
-- The queue on a list, as the queue of a cache.
use test_ci_for_massbitproto.Prelude.{
  ℕ, ◌+◌, true, false, Option, none, some, map_option, List, [], ◌∷◌, sum, ite, ◌≡◌, refl, ap,
  arith, ◌∙◌, subst, fun_ext,
}
use test_ci_for_massbitproto.LfuCache.Types.{
  CacheTypes, CacheEntry, Priority, priority_le, CacheQueue,
}
use test_ci_for_massbitproto.LfuCache.ListQueue.{
  find, IsDistinct, update, update_all, push_slot, take_max, find_key, find_eq, find-update,
  find-update_all, guarded_lem, map-guarded, update-IsDistinct, update_all-IsDistinct,
  push_slot-IsDistinct, find-take_max, take_max-IsDistinct,
}
use test_ci_for_massbitproto.LfuCache.ListQueue.Laws.{
  sum-find, sum-update, sum-update_all, sum-take_max, update_absent, push_all, push_all-IsDistinct,
  push_slot_absent, sum-push_all, take_max_max,
}

le_total : (p q : Priority) → priority_le p q ≡ false → priority_le q p ≡ true
le_total (a, f) (b, g) h = ground arith

le_refl : (p : Priority) → priority_le p p ≡ true
le_refl (a, f) = ground arith

le_trans :
    (p q r : Priority) → priority_le p q ≡ true → priority_le q r ≡ true → priority_le p r ≡ true
le_trans (a, f) (b, g) (d, h) x y = ground arith

module _ (T : CacheTypes) where
  abbrev pub Item : Type 0
  Item = CacheEntry T.Key T.Val

  abbrev pub Slot : Type 0
  Slot = Item × Priority

  abbrev pub key_of : Item → T.Key
  key_of e = e.key

  pub record ListQueue : Type 0 where
    pub slots : List Slot
    pub distinct : IsDistinct T.dec key_of priority_le slots

  abbrev pub pop_list :
      (r : List Slot) → IsDistinct T.dec key_of priority_le r → Option (Slot × ListQueue)
  pop_list [] d = none
  pop_list (e ∷ r) d =
      let q : ListQueue = record {
        slots = (take_max T.dec key_of priority_le e r).1;
        distinct = take_max-IsDistinct T.dec key_of priority_le e r d;
      } in
      some ((take_max T.dec key_of priority_le e r).0, q)

  abbrev pub pop : ListQueue → Option (Slot × ListQueue)
  pop q = pop_list q.slots q.distinct

  abbrev pub found : Item → ListQueue → Option Slot
  found x q = find T.dec key_of priority_le x q.slots

  slots_of : Option (Slot × ListQueue) → List Slot
  slots_of none = []
  slots_of (some (e, q)) = q.slots

  pop_list-parts :
      (x : Slot) (r : List Slot) (d : IsDistinct T.dec key_of priority_le (x ∷ r)) {e : Slot}
      {q' : ListQueue}
      → pop_list (x ∷ r) d ≡ some (e, q')
      → ((take_max T.dec key_of priority_le x r).0 ≡ e)
        × ((take_max T.dec key_of priority_le x r).1 ≡ q'.slots)
  unfolding slots_of
  pop_list-parts x r d h = (cc, ap slots_of h)

  pub pop_list-find :
      (r : List Slot) (d : IsDistinct T.dec key_of priority_le r) {e : Slot} {q' : ListQueue}
      → pop_list r d ≡ some (e, q')
      → (find T.dec key_of priority_le e.0 r ≡ some e)
        × ((y : Item)
            → found y q' ≡ ite (T.dec e.0.key y.key) none (find T.dec key_of priority_le y r))
  pop_list-find [] d h = cc
  pop_list-find (x ∷ r) d {e} {q'} h =
      let (here, left) = pop_list-parts x r d h in
      (
        ground (arith, here, (find-take_max T.dec key_of priority_le x.0 x r d).0),
        λ y. ground (arith, here, left, (find-take_max T.dec key_of priority_le y x r d).1),
      )

  pub pop_list-max :
      (r : List Slot) (d : IsDistinct T.dec key_of priority_le r) {e : Slot} {q' : ListQueue}
      → pop_list r d ≡ some (e, q')
      → (y : Item) (f : Slot) → find T.dec key_of priority_le y r ≡ some f
      → priority_le f.1 e.1 ≡ true
  pop_list-max [] d h y f p = cc
  pop_list-max (x ∷ r) d {e} {q'} h y f p =
      let (here, left) = pop_list-parts x r d h in
      subst (λ m. priority_le f.1 m.1 ≡ true) here
        (take_max_max T.dec key_of priority_le le_total le_refl le_trans x r y f p)

  pub pop_list-sum :
      (w : Slot → ℕ) (r : List Slot) (d : IsDistinct T.dec key_of priority_le r) {e : Slot}
      {q' : ListQueue}
      → pop_list r d ≡ some (e, q')
      → sum w r ≡ w e + sum w q'.slots
  pop_list-sum w [] d h = cc
  pop_list-sum w (x ∷ r) d {e} {q'} h =
      let (here, left) = pop_list-parts x r d h in
      ground (arith, here, left, sum-take_max T.dec key_of priority_le w x r)

  pub pop_list-none :
      (w : Slot → ℕ) (r : List Slot) (d : IsDistinct T.dec key_of priority_le r)
      → pop_list r d ≡ none
      → sum w r ≡ 0
  pop_list-none w [] d h = refl
  pop_list-none w (x ∷ r) d h = cc

  abbrev pub changed : Item → (Slot → Slot) → ListQueue → ListQueue
  changed x f q = record {
    slots = update T.dec key_of priority_le x f q.slots;
    distinct = update-IsDistinct T.dec key_of priority_le x f q.slots q.distinct;
  }

  module _ (f : Slot → Slot) (q : ListQueue) (keeps : (e : Slot) → (f e).0.key ≡ e.0.key) where
    pub found-changed :
        (x y : Item)
        → found y (changed x f q) ≡ ite (T.dec x.key y.key) (map_option f (found y q)) (found y q)
    found-changed x y =
        find-update T.dec key_of priority_le x y f q.slots
        ∙ ap (λ o. ite (T.dec x.key y.key) o (found y q))
            (map-guarded T.dec key_of priority_le f (found y q) keeps)

    pub found-update_all :
        (y : Item)
        → find T.dec key_of priority_le y (update_all T.dec key_of priority_le f q.slots)
          ≡ map_option f (found y q)
    found-update_all y =
        find-update_all T.dec key_of priority_le y y f q.slots
        ∙ map-guarded T.dec key_of priority_le f (found y q) keeps

    pub sum-changed :
        (w : Slot → ℕ) (x : Item) (e : Slot)
        → found x q ≡ some e
        → sum w (changed x f q).slots + w e ≡ sum w q.slots + w (f e)
    sum-changed w x e h = ground (
      arith,
      sum-update T.dec key_of priority_le w x f q.slots e h,
      guarded_lem T.dec key_of priority_le f e keeps,
    )

    pub sum-changed_all :
        (w : Slot → ℕ)
        → sum w (update_all T.dec key_of priority_le f q.slots) ≡ sum (λ e. w (f e)) q.slots
    sum-changed_all w =
        sum-update_all T.dec key_of priority_le w f q.slots
        ∙ ap (λ g. sum (λ e. w (g e)) q.slots)
            (fun_ext (λ e. guarded_lem T.dec key_of priority_le f e keeps))

  module _ (x : Item) (p : Priority) (q : ListQueue) (h : found x q ≡ none) where
    pub found-pushed :
        (y : Item)
        → find T.dec key_of priority_le y (push_slot T.dec key_of priority_le x p q.slots)
          ≡ ite (T.dec x.key y.key) (some (x, p)) (found y q)
    found-pushed y = rw (push_slot_absent T.dec key_of priority_le x p q.slots h)

    pub sum-pushed :
        (w : Slot → ℕ)
        → sum w (push_slot T.dec key_of priority_le x p q.slots) ≡ w (x, p) + sum w q.slots
    sum-pushed w = rw (push_slot_absent T.dec key_of priority_le x p q.slots h)

  abbrev pub list_queue : CacheQueue T
  list_queue = record {
    Queue = ListQueue;
    new = record { slots = []; distinct = tt };
    into_iter = λ q. q.slots;
    get = found;
    push = λ x p q. record {
      slots = push_slot T.dec key_of priority_le x p q.slots;
      distinct = push_slot-IsDistinct T.dec key_of priority_le x p q.slots q.distinct;
    };
    modify = λ x f q. changed x (λ e. (f e.0, e.1)) q;
    change_priority_by = λ x f q. changed x (λ e. (e.0, f e.1)) q;
    iter_mut = λ f q. record {
      slots = update_all T.dec key_of priority_le f q.slots;
      distinct = update_all-IsDistinct T.dec key_of priority_le f q.slots q.distinct;
    };
    pop = pop;
    extend = λ es q. record {
      slots = push_all T.dec key_of priority_le es q.slots;
      distinct = push_all-IsDistinct T.dec key_of priority_le es q.slots q.distinct;
    };
    get_key = λ x q {e} h. find_key T.dec key_of priority_le x q.slots e h;
    get_eq = λ x y q h. find_eq T.dec key_of priority_le x y q.slots h;
    get-new = λ x. refl;
    get-push = λ x y p q h. found-pushed x p q h y;
    get-modify = λ x y f q h. found-changed (λ e. (f e.0, e.1)) q (λ e. h e.0) x y;
    get-change_priority_by = λ x y f q. found-changed (λ e. (e.0, f e.1)) q (λ e. refl) x y;
    get-iter_mut = λ y f q h. found-update_all f q h y;
    get-pop = λ q h. pop_list-find q.slots q.distinct h;
    pop_max = λ q h y {f} p. pop_list-max q.slots q.distinct h y f p;
    sum-new = λ w. refl;
    sum-get = λ w x q {e} h. sum-find T.dec key_of priority_le w x q.slots e h;
    sum-push = λ w x p q h. sum-pushed x p q h w;
    sum-extend = λ w q r h. sum-push_all T.dec key_of priority_le w r.slots q.slots r.distinct h;
    sum-modify = λ w x f q {e} k h. sum-changed (λ e. (f e.0, e.1)) q (λ e. k e.0) w x e h;
    sum-change_priority_by = λ w x f q {e} h. sum-changed (λ e. (e.0, f e.1)) q (λ e. refl) w x e h;
    sum-change_absent = λ w x f q h.
        ap (sum w) (update_absent T.dec key_of priority_le x (λ e. (e.0, f e.1)) q.slots h);
    sum-iter_mut = λ w f q h. sum-changed_all f q h w;
    sum-pop = λ w q h. pop_list-sum w q.slots q.distinct h;
    pop_none = λ w q h. pop_list-none w q.slots q.distinct h;
  }
