-- ===== src/Tests/Lfu.antt =====
-- The LFU cache on a list queue, with numbers for keys and values.
use test_ci_for_massbitproto.Prelude.{
  ℕ, ◌+◌, false, none, some, ◌≡◌, refl, arith, ite, sum, ℕ_discrete, Option, ◌∷◌, [], List,
}
use test_ci_for_massbitproto.Prelude.Outcome.{Outcome, done}
use test_ci_for_massbitproto.LfuCache.Types.{CacheTypes, CacheQueue, LfuCache}
use test_ci_for_massbitproto.LfuCache.Ops.{
  weight, new, get_mut, insert_at, insert, get, take_popped, remove, age, evict_loop,
  evict_with_period, len, extend,
}
use test_ci_for_massbitproto.LfuCache.Access.{find, weight_of}
use test_ci_for_massbitproto.LfuCache.Invariant.{IsValid, insert_lem, get_lem}
use test_ci_for_massbitproto.LfuCache.Removal.{remove_lem}
use test_ci_for_massbitproto.LfuCache.Period.{EvictResult, evict_with_period_lem}
use test_ci_for_massbitproto.LfuCache.Extension.{extend-not-IsValid}
use test_ci_for_massbitproto.LfuCache.ListQueue.Concrete.{Slot, list_queue}

abbrev T : CacheTypes
T = record {
  Key = ℕ;
  Val = ℕ;
  dec = ℕ_discrete;
  default = 0;
  key_weight = λ k. 0;
  value_weight = λ v. v;
  entry_size = 1;
}

abbrev Q : CacheQueue T
Q = list_queue T

program : Unit {0}
unfolding weight new insert get get_mut insert_at take_popped remove age evict_loop
    evict_with_period len extend ℕ_discrete
program = tt

abbrev entry : ℕ → ℕ → Slot T
entry k v = (record { weight = v + 1; key = k; value = v; will_stale = false }, (false, 1))

abbrev empty : LfuCache T Q
empty = record { queue = record { slots = []; distinct = tt }; total_weight = 0; stale_counter = 0 }

-- one entry, 10 under 7
abbrev one : LfuCache T Q
one = record {
  queue = record { slots = entry 7 10 ∷ []; distinct = (refl, tt) };
  total_weight = 11;
  stale_counter = 0;
}

-- what a run returns, with the slots and the weight of the cache
abbrev slots_and_weight : Outcome (LfuCache T Q) → Option (List (Slot T) × ℕ)
slots_and_weight (done c) = some (c.queue.slots, c.total_weight)
slots_and_weight r = none

abbrev answer : {A : Type 0} → Outcome (LfuCache T Q × A) → Option (ℕ × A)
answer (done (c, a)) = some (c.total_weight, a)
answer r = none

insert_run : slots_and_weight (insert T Q 7 10 empty) ≡ some (entry 7 10 ∷ [], 11)
unfolding program
insert_run = refl

one-IsValid : IsValid T Q one
unfolding weight
one-IsValid = record { counted = refl; sound = λ k e h. ground arith }

other : LfuCache T Q
other = record {
  queue = record { slots = entry 8 3 ∷ []; distinct = (refl, tt) };
  total_weight = 4;
  stale_counter = 0;
}

other-IsValid : IsValid T Q other
unfolding weight other
other-IsValid = record { counted = refl; sound = λ k e h. ground arith }

remove_run : answer (remove T Q 7 one) ≡ some (0, some 10)
unfolding program
remove_run = refl

-- two entries, of which 7 was read twice
abbrev two : LfuCache T Q
unfolding ℕ_discrete
two = record {
  queue = record {
    slots =
        (record { weight = 11; key = 7; value = 10; will_stale = false }, (false, 2))
        ∷ entry 8 3
        ∷ [];
    distinct = (refl, (refl, tt));
  };
  total_weight = 15;
  stale_counter = 0;
}

-- The entry of 8 was read less often and goes first; that is enough for the weight 12.
evict_run : answer (evict_with_period T Q 12 100 two) ≡ some (11, some (4, 15, 11))
unfolding program
evict_run = refl

-- After `extend` the weight of an entry is subtracted from a total that does not count it.
extend_run : answer (remove T Q 8 (extend T Q empty other)) ≡ none
unfolding program other
extend_run = refl

insert_lem_example :
    (c' : LfuCache T Q) × (insert T Q 8 3 one ≡ done c')
    × IsValid T Q c'
    × ((j : ℕ) → find T Q j c' ≡ ite (ℕ_discrete 8 j) (some 3) (find T Q j one))
insert_lem_example = insert_lem T Q 8 3 one one-IsValid

get_lem_example :
    ((get T Q 7 one).1 ≡ find T Q 7 one)
    × IsValid T Q (get T Q 7 one).0
    × ((j : ℕ) → find T Q j (get T Q 7 one).0 ≡ find T Q j one)
get_lem_example = get_lem T Q 7 one one-IsValid

remove_lem_example :
    (c' : LfuCache T Q) × (remove T Q 7 one ≡ done (c', find T Q 7 one))
    × IsValid T Q c'
    × ((j : ℕ) → find T Q j c' ≡ ite (ℕ_discrete 7 j) none (find T Q j one))
remove_lem_example = remove_lem T Q 7 one one-IsValid

evict_with_period_lem_example :
    (r : LfuCache T Q × Option (ℕ × ℕ × ℕ)) × (evict_with_period T Q 5 100 one ≡ done r)
    × EvictResult T Q 5 100 one r
evict_with_period_lem_example = evict_with_period_lem T Q 5 100 one one-IsValid

extend-not-IsValid_example :
    ((extend T Q one other).total_weight + other.total_weight
      ≡ sum (weight_of T Q) (Q.into_iter (extend T Q one other).queue))
    × ¬ IsValid T Q (extend T Q one other)
unfolding other
extend-not-IsValid_example =
    extend-not-IsValid T Q one other one-IsValid other-IsValid (λ k e h. ground arith) (omega arith)
