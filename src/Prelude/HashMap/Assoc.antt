-- ===== src/Prelude/HashMap/Assoc.antt =====
-- The entries of a map, as a list.
use mathlib.Core.List.{List, [], ◌∷◌}
use mathlib.Core.Logic.{ite}
use mathlib.Core.Option.{Option, none, some}
use mathlib.Core.Path.{◌≡◌, refl}
use native.Mathlib.Omega.{arith}

-- `for (key, value) in map { .. }`: the entries in their order, on a state.
unfoldable pub for_each {ℓ κ} : {K V : Type ℓ} {S : Type κ} → (K → V → S → S) → List (K × V) → S → S
for_each step [] s = s
for_each step ((k, v) ∷ m) s = for_each step m (step k v s)

module _ {ℓ} {K V : Type ℓ} (dec : Discrete K) where
  unfoldable pub lookup : K → List (K × V) → Option V
  lookup k [] = none
  lookup k ((j, v) ∷ m) = ite (dec j k) (some v) (lookup k m)

  -- a new value for a key that is present, or a new entry
  unfoldable pub set_entry : K → V → List (K × V) → List (K × V)
  set_entry k v [] = (k, v) ∷ []
  set_entry k v ((j, w) ∷ m) = ite (dec j k) ((k, v) ∷ m) ((j, w) ∷ set_entry k v m)

  unfoldable pub drop_entry : K → List (K × V) → List (K × V)
  drop_entry k [] = []
  drop_entry k ((j, w) ∷ m) = let rest = drop_entry k m in ite (dec j k) rest ((j, w) ∷ rest)

  -- No key has two entries.
  abbrev pub IsDistinct : List (K × V) → Type ℓ
  IsDistinct [] = Unit
  IsDistinct ((k, v) ∷ m) = (lookup k m ≡ none) × IsDistinct m

  pub lookup-set_entry :
      (k j : K) (v : V) (m : List (K × V))
      → lookup j (set_entry k v m) ≡ ite (dec k j) (some v) (lookup j m)
  unfolding lookup set_entry
  lookup-set_entry k j v [] = refl
  lookup-set_entry k j v ((i, w) ∷ m) = ground (arith, lookup-set_entry k j v m)

  pub lookup-drop_entry :
      (k j : K) (m : List (K × V)) → lookup j (drop_entry k m) ≡ ite (dec k j) none (lookup j m)
  unfolding lookup drop_entry
  lookup-drop_entry k j [] = ground arith
  lookup-drop_entry k j ((i, w) ∷ m) = ground (arith, lookup-drop_entry k j m)

  pub set_entry-IsDistinct :
      (k : K) (v : V) (m : List (K × V)) → IsDistinct m → IsDistinct (set_entry k v m)
  unfolding set_entry lookup
  set_entry-IsDistinct k v [] h = (refl, tt)
  set_entry-IsDistinct k v ((j, w) ∷ m) h =
      ground (arith, set_entry-IsDistinct k v m h.1, lookup-set_entry k j v m)

  pub drop_entry-IsDistinct :
      (k : K) (m : List (K × V)) → IsDistinct m → IsDistinct (drop_entry k m)
  unfolding drop_entry
  drop_entry-IsDistinct k [] h = tt
  drop_entry-IsDistinct k ((j, w) ∷ m) h =
      ground (arith, drop_entry-IsDistinct k m h.1, lookup-drop_entry k j m)

-- A loop whose step at a key reads and writes that key alone is the step at each key, in any order.
module _ {ℓ κ ι} {K V : Type ℓ} {S : Type κ} {W : Type ι} (dec : Discrete K) where
  pub lookup-for_each :
      (step : K → V → S → S) (look : K → S → W) (update : V → W → W)
      → ((k : K) (v : V) (s : S) (j : K)
          → look j (step k v s) ≡ ite (dec k j) (update v (look j s)) (look j s))
      → (m : List (K × V)) → IsDistinct dec m
      → (s : S) (j : K)
      → look j (for_each step m s)
        ≡ elim (lookup dec j m) [ none ↦ look j s | some v ↦ update v (look j s) ]
  unfolding for_each lookup
  lookup-for_each step look update law [] d s j = refl
  lookup-for_each step look update law ((k, v) ∷ m) d s j =
      let ih = lookup-for_each step look update law m d.1 (step k v s) j in
      elim (dec k j) [ yes p ↦ ground (arith, law k v s j) | no p ↦ ground (arith, law k v s j) ]
