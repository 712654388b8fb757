-- ===== src/Prelude/HashMap.antt =====
-- `std::collections::HashMap`: an association list with one entry for each key, in an order that the
-- standard library leaves open. Statements about a map speak of `get`, or hold for every order.
mod Assoc
pub mod Equality
use Assoc.{lookup, set_entry, drop_entry, lookup-set_entry, lookup-drop_entry}
use Assoc.{set_entry-IsDistinct, drop_entry-IsDistinct}
unfoldable pub use Assoc.{for_each, lookup}
pub use Assoc.{IsDistinct, lookup-for_each}
use mathlib.Core.List.{List, [], map}
use mathlib.Core.Logic.{ite}
use mathlib.Core.Option.{Option, none, some}
use mathlib.Core.Path.{◌≡◌, refl}
use mathlib.Core.Bool.{Bool, true, false}

pub record HashMap {ℓ} {K : Type ℓ} (dec : Discrete K) (V : Type ℓ) : Type ℓ where
  pub entries : List (K × V)
  pub distinct : IsDistinct dec entries

abbrev pub is_some {ℓ} : {A : Type ℓ} → Option A → Bool
is_some none = false
is_some (some a) = true

module _ {ℓ} {K : Type ℓ} (dec : Discrete K) where
  unfoldable pub new : {V : Type ℓ} → HashMap dec V
  new = record { entries = []; distinct = tt }

  unfoldable pub get : {V : Type ℓ} → K → HashMap dec V → Option V
  get k m = lookup dec k m.entries

  unfoldable pub insert : {V : Type ℓ} → K → V → HashMap dec V → HashMap dec V
  unfolding set_entry
  insert k v m = record {
    entries = set_entry dec k v m.entries;
    distinct = set_entry-IsDistinct dec k v m.entries m.distinct;
  }

  unfoldable pub remove : {V : Type ℓ} → K → HashMap dec V → HashMap dec V
  unfolding drop_entry
  remove k m = record {
    entries = drop_entry dec k m.entries;
    distinct = drop_entry-IsDistinct dec k m.entries m.distinct;
  }

  unfoldable pub contains_key : {V : Type ℓ} → K → HashMap dec V → Bool
  contains_key k m = is_some (get k m)

  -- `m.keys()`
  unfoldable pub keys : {V : Type ℓ} → HashMap dec V → List K
  keys m = map (λ e. e.0) m.entries

  pub get-new : {V : Type ℓ} (k : K) → get {V = V} k new ≡ none
  unfolding get new lookup
  get-new k = refl

  module _ {V : Type ℓ} (k j : K) (m : HashMap dec V) where
    pub get-insert : (v : V) → get j (insert k v m) ≡ ite (dec k j) (some v) (get j m)
    unfolding get insert
    get-insert v = lookup-set_entry dec k j v m.entries

    pub get-remove : get j (remove k m) ≡ ite (dec k j) none (get j m)
    unfolding get remove
    get-remove = lookup-drop_entry dec k j m.entries
