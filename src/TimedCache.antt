-- ===== src/TimedCache.antt =====
-- `TimedCache` of massbit/src/util/timed_cache.rs. An `Instant` and a `Duration` are numbers of
-- nanoseconds; the lock is held for the whole of each operation, so that an operation is one step.
use test_ci_for_massbitproto.Prelude.{
  ℕ, ◌+◌, Bool, leb, if◌then◌else◌, Option, none, some, ite, List, [], ◌∷◌, ◌≡◌, refl, ap, ◌∙◌,
  arith,
}
use test_ci_for_massbitproto.Prelude.HashMap
use test_ci_for_massbitproto.Prelude.HashMap.{HashMap}

pub record CacheEntry (V : Type 0) : Type 0 where
  pub value : V
  pub expires : ℕ

pub record TimedCache {K : Type 0} (dec : Discrete K) (V : Type 0) : Type 0 where
  pub ttl : ℕ
  pub entries : HashMap dec (CacheEntry V)

-- the value of an entry that is not expired
abbrev pub live : {V : Type 0} → ℕ → Option (CacheEntry V) → Option V
live now none = none
live now (some entry) = if leb now entry.expires then some entry.value else none

abbrev pub find_value : {K V : Type 0} → (V → Bool) → List (K × CacheEntry V) → Option V
find_value pred [] = none
find_value pred ((key, entry) ∷ rest) =
    let found = find_value pred rest in if pred entry.value then some entry.value else found

-- A call that changes the cache: `set_at` of a key, a value and a time, or `clear`.
pub data Call (K V : Type 0) : Type 0 where
  set : K → V → ℕ → Call K V
  clear_all : Call K V

module _ {K V : Type 0} (dec : Discrete K) where
  unfoldable pub new : ℕ → TimedCache dec V
  new ttl = record { ttl = ttl; entries = HashMap.new dec }

  unfoldable pub get_at : K → ℕ → TimedCache dec V → Option V
  get_at key now c = live now (HashMap.get dec key c.entries)

  unfoldable pub set_at : K → V → ℕ → TimedCache dec V → TimedCache dec V
  set_at key value now c = record c {
    entries = HashMap.insert dec key (record { value = value; expires = now + c.ttl }) c.entries;
  }

  unfoldable pub clear : TimedCache dec V → TimedCache dec V
  clear c = record c { entries = HashMap.new dec }

  unfoldable pub find : (V → Bool) → TimedCache dec V → Option V
  find pred c = find_value pred c.entries.entries

  abbrev pub run : List (Call K V) → TimedCache dec V → TimedCache dec V
  run [] c = c
  run (set key value now ∷ calls) c = run calls (set_at key value now c)
  run (clear_all ∷ calls) c = run calls (clear c)

  -- What the last of the calls says of a key: the value and the time at which it was set, or none
  -- where the key was not set since the last `clear`. `before` is what earlier calls say.
  abbrev pub last_set : K → List (Call K V) → Option (V × ℕ) → Option (V × ℕ)
  last_set key [] before = before
  last_set key (set k value now ∷ calls) before =
      last_set key calls (ite (dec k key) (some (value, now)) before)
  last_set key (clear_all ∷ calls) before = last_set key calls none

  abbrev entry_of : ℕ → Option (V × ℕ) → Option (CacheEntry V)
  entry_of ttl none = none
  entry_of ttl (some (value, time)) = some (record { value = value; expires = time + ttl })

  entry_of-ite :
      {P : Type 0} (d : Dec P) (ttl : ℕ) (a b : Option (V × ℕ))
      → entry_of ttl (ite d a b) ≡ ite d (entry_of ttl a) (entry_of ttl b)
  entry_of-ite (yes p) ttl a b = refl
  entry_of-ite (no n) ttl a b = refl

  get-run :
      (calls : List (Call K V)) (key : K) (c : TimedCache dec V) (before : Option (V × ℕ))
      → HashMap.get dec key c.entries ≡ entry_of c.ttl before
      → HashMap.get dec key (run calls c).entries ≡ entry_of c.ttl (last_set key calls before)
  unfolding set_at clear
  get-run [] key c before h = h
  get-run (set k value now ∷ calls) key c before h =
      get-run calls key (set_at k value now c) (ite (dec k key) (some (value, now)) before) (
        ground (
          arith,
          h,
          HashMap.get-insert dec k key c.entries (record { value = value; expires = now + c.ttl }),
          entry_of-ite (dec k key) c.ttl (some (value, now)) before,
        ))
  get-run (clear_all ∷ calls) key c before h =
      get-run calls key (clear c) none (HashMap.get-new dec key)

  -- What the cache returns for a key, some calls after it was made: the value that was last set
  -- since the last `clear`, for `ttl` after it was set, that time included, and nothing later.
  pub get_at-run :
      (calls : List (Call K V)) (ttl : ℕ) (key : K) (now : ℕ)
      → get_at key now (run calls (new ttl)) ≡ elim (last_set key calls none) [
        | none ↦ none
        | some (value, time) ↦ if leb now (time + ttl) then some value else none
      ]
  unfolding get_at new
  get_at-run calls ttl key now =
      ap (live now) (get-run calls key (new ttl) none (HashMap.get-new dec key))
      ∙ live-entry_of (last_set key calls none)
    where
      live-entry_of :
          (o : Option (V × ℕ))
          → live now (entry_of ttl o) ≡ elim o [
            | none ↦ none
            | some (value, time) ↦ if leb now (time + ttl) then some value else none
          ]
      live-entry_of none = refl
      live-entry_of (some (value, time)) = refl
