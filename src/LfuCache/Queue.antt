-- ===== src/LfuCache/Queue.antt =====
-- `PriorityQueue` of the package `priority_queue`, which massbit/src/util/lfu_cache.rs builds on: its
-- operations as that file calls them, and what its documentation says of them. A queue has at most
-- one entry for each item, and two items are the same when their keys are.
use test_ci_for_massbitproto.Prelude.{
  ℕ, ◌+◌, ◌≤◌, Bool, true, Option, none, some, map_option, List, sum, ite, ◌≡◌,
}

module _ {K Item Priority : Type 0} (dec : Discrete K) (key : Item → K)
    (le : Priority → Priority → Bool) where
  -- Read from an item and its priority.
  abbrev pub Measure : Type 0
  Measure = Item × Priority → ℕ

  abbrev set_item : (Item → Item) → Item × Priority → Item × Priority
  set_item f e = (f e.0, e.1)

  abbrev set_priority : (Priority → Priority) → Item × Priority → Item × Priority
  set_priority f e = (e.0, f e.1)

  pub record PriorityQueue : Type 1 where
    pub Queue : Type 0
    pub new : Queue
    -- The entries in the order of the iterator, which is not specified.
    pub into_iter : Queue → List (Item × Priority)
    pub get : Item → Queue → Option (Item × Priority)
    pub push : Item → Priority → Queue → Queue
    -- `get_mut`, and an assignment through the reference that keeps the key
    pub modify : Item → (Item → Item) → Queue → Queue
    -- `change_priority_by`; `change_priority` is the case of a constant function
    pub change_priority_by : Item → (Priority → Priority) → Queue → Queue
    -- `iter_mut`, and an assignment to each entry that keeps the key
    pub iter_mut : (Item × Priority → Item × Priority) → Queue → Queue
    -- an entry of the greatest priority
    pub pop : Queue → Option ((Item × Priority) × Queue)
    -- `extend`, which pushes each entry
    pub extend : List (Item × Priority) → Queue → Queue
    pub get_key : (x : Item) (q : Queue) {e : Item × Priority} → get x q ≡ some e → key e.0 ≡ key x
    -- An item is found by its key.
    pub get_eq : (x y : Item) (q : Queue) → key x ≡ key y → get x q ≡ get y q
    pub get-new : (x : Item) → get x new ≡ none
    pub get-push :
        (x y : Item) (p : Priority) (q : Queue)
        → get x q ≡ none
        → get y (push x p q) ≡ ite (dec (key x) (key y)) (some (x, p)) (get y q)
    pub get-modify :
        (x y : Item) (f : Item → Item) (q : Queue)
        → ((i : Item) → key (f i) ≡ key i)
        → get y (modify x f q)
          ≡ ite (dec (key x) (key y)) (map_option (set_item f) (get y q)) (get y q)
    pub get-change_priority_by :
        (x y : Item) (f : Priority → Priority) (q : Queue)
        → get y (change_priority_by x f q)
          ≡ ite (dec (key x) (key y)) (map_option (set_priority f) (get y q)) (get y q)
    pub get-iter_mut :
        (y : Item) (f : Item × Priority → Item × Priority) (q : Queue)
        → ((e : Item × Priority) → key (f e).0 ≡ key e.0)
        → get y (iter_mut f q) ≡ map_option f (get y q)
    pub get-pop :
        (q : Queue) {e : Item × Priority} {q' : Queue}
        → pop q ≡ some (e, q')
        → (get e.0 q ≡ some e)
          × ((y : Item) → get y q' ≡ ite (dec (key e.0) (key y)) none (get y q))
    pub pop_max :
        (q : Queue) {e : Item × Priority} {q' : Queue}
        → pop q ≡ some (e, q')
        → (y : Item) {f : Item × Priority} → get y q ≡ some f
        → le f.1 e.1 ≡ true
    -- The entries that an iterator passes, by what any measure adds up to over them.
    pub sum-new : (w : Measure) → sum w (into_iter new) ≡ 0
    pub sum-get :
        (w : Measure) (x : Item) (q : Queue) {e : Item × Priority}
        → get x q ≡ some e
        → w e ≤ sum w (into_iter q)
    pub sum-push :
        (w : Measure) (x : Item) (p : Priority) (q : Queue)
        → get x q ≡ none
        → sum w (into_iter (push x p q)) ≡ w (x, p) + sum w (into_iter q)
    -- the entries of another queue that shares no item with this one
    pub sum-extend :
        (w : Measure) (q r : Queue)
        → ((x : Item) (e : Item × Priority) → get x r ≡ some e → get x q ≡ none)
        → sum w (into_iter (extend (into_iter r) q)) ≡ sum w (into_iter r) + sum w (into_iter q)
    pub sum-modify :
        (w : Measure) (x : Item) (f : Item → Item) (q : Queue) {e : Item × Priority}
        → ((i : Item) → key (f i) ≡ key i)
        → get x q ≡ some e
        → sum w (into_iter (modify x f q)) + w e ≡ sum w (into_iter q) + w (set_item f e)
    pub sum-change_priority_by :
        (w : Measure) (x : Item) (f : Priority → Priority) (q : Queue) {e : Item × Priority}
        → get x q ≡ some e
        → sum w (into_iter (change_priority_by x f q)) + w e
          ≡ sum w (into_iter q) + w (set_priority f e)
    pub sum-change_absent :
        (w : Measure) (x : Item) (f : Priority → Priority) (q : Queue)
        → get x q ≡ none
        → sum w (into_iter (change_priority_by x f q)) ≡ sum w (into_iter q)
    pub sum-iter_mut :
        (w : Measure) (f : Item × Priority → Item × Priority) (q : Queue)
        → ((e : Item × Priority) → key (f e).0 ≡ key e.0)
        → sum w (into_iter (iter_mut f q)) ≡ sum (λ e. w (f e)) (into_iter q)
    pub sum-pop :
        (w : Measure) (q : Queue) {e : Item × Priority} {q' : Queue}
        → pop q ≡ some (e, q')
        → sum w (into_iter q) ≡ w e + sum w (into_iter q')
    pub pop_none : (w : Measure) (q : Queue) → pop q ≡ none → sum w (into_iter q) ≡ 0
