-- ===== src/LfuCache/Types.antt =====
-- The data of massbit/src/util/lfu_cache.rs, and what the cache asks of its keys and values.
use test_ci_for_massbitproto.Prelude.{ℕ, Bool, true, false, leb}
use test_ci_for_massbitproto.LfuCache.Queue.{PriorityQueue}

-- The type parameters of the cache: `K: Eq`, `V: Default`, and `CacheWeight` of both.
pub record CacheTypes : Type 1 where
  pub Key : Type 0
  pub Val : Type 0
  pub dec : Discrete Key
  pub default : Val
  pub key_weight : Key → ℕ
  pub value_weight : Val → ℕ
  -- `std::mem::size_of::<CacheEntry<K, V>>()`
  pub entry_size : ℕ

pub record CacheEntry (K V : Type 0) : Type 0 where
  pub weight : ℕ
  pub key : K
  pub value : V
  pub will_stale : Bool

-- `(bool, Reverse<u64>)`: staleness, and the frequency, of which the smaller is the greater priority.
abbrev pub Priority : Type 0
Priority = Bool × ℕ

abbrev pub priority_le : Priority → Priority → Bool
priority_le (false, f) (false, g) = leb g f
priority_le (false, f) (true, g) = true
priority_le (true, f) (false, g) = false
priority_le (true, f) (true, g) = leb g f

-- The queue that a cache of these types holds.
abbrev pub CacheQueue : CacheTypes → Type 1
CacheQueue T = PriorityQueue {Item = CacheEntry T.Key T.Val} T.dec (λ e. e.key) priority_le

pub record LfuCache (T : CacheTypes) (Q : CacheQueue T) : Type 0 where
  pub queue : Q.Queue
  pub total_weight : ℕ
  pub stale_counter : ℕ

-- `STALE_PERIOD`
abbrev pub stale_period : ℕ
stale_period = 100
