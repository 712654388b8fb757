-- ===== src/Prelude/HashMap/Equality.antt =====
-- `PartialEq` of `std::collections::HashMap`: the same keys, with equal values.
use mathlib.Core.List.{List, [], ◌∷◌}
use mathlib.Core.Logic.{ite, ◌↔◌}
use mathlib.Core.Option.{Option, none, some}
use mathlib.Core.Path.{◌≡◌, refl, sym, ◌∙◌}
use mathlib.Core.Bool.{Bool, true, false, ◌&&◌}
use native.Mathlib.Omega.{arith}
use test_ci_for_massbitproto.Prelude.HashMap.{HashMap, get, lookup}

module _ {ℓ} {K V : Type ℓ} (dec : Discrete K) (dec_v : Discrete V) where
  same_value : Option V → Option V → Bool
  same_value none none = true
  same_value (some v) (some w) = ite (dec_v v w) true false
  same_value v w = false

  same_value_iff : (v w : Option V) → (same_value v w ≡ true) ↔ (v ≡ w)
  unfolding same_value
  same_value_iff none none = ground arith
  same_value_iff (some v) (some w) = ground arith
  same_value_iff none (some w) = ground arith
  same_value_iff (some v) none = ground arith

  -- At every key of `m` the two maps have the same value.
  agrees : List (K × V) → HashMap dec V → HashMap dec V → Bool
  agrees [] m n = true
  agrees ((k, v) ∷ r) m n = same_value (get dec k m) (get dec k n) && agrees r m n

  unfoldable pub eq : HashMap dec V → HashMap dec V → Bool
  unfolding agrees same_value
  eq m n = agrees m.entries m n && agrees n.entries m n

  agrees-get :
      (r : List (K × V)) (m n : HashMap dec V) (k : K) (v : V)
      → agrees r m n ≡ true
      → lookup dec k r ≡ some v
      → get dec k m ≡ get dec k n
  unfolding agrees lookup
  agrees-get [] m n k v h e = cc
  agrees-get ((j, w) ∷ r) m n k v h e =
      let both = (same_value_iff (get dec j m) (get dec j n)).0 in
      elim (dec j k) [
        | yes p ↦ ground (arith, both)
        | no p ↦ agrees-get r m n k v (ground arith) (ground arith)
      ]

  get-agrees :
      (r : List (K × V)) (m n : HashMap dec V)
      → ((k : K) → get dec k m ≡ get dec k n)
      → agrees r m n ≡ true
  unfolding agrees
  get-agrees [] m n h = refl
  get-agrees ((j, w) ∷ r) m n h =
      ground (arith, (same_value_iff (get dec j m) (get dec j n)).1 (h j), get-agrees r m n h)

  get-eq :
      (m n : HashMap dec V) (k : K) (v w : Option V)
      → lookup dec k m.entries ≡ v
      → lookup dec k n.entries ≡ w
      → eq m n ≡ true
      → get dec k m ≡ get dec k n
  unfolding eq
  get-eq m n k (some v) w p q h = agrees-get m.entries m n k v (ground arith) p
  get-eq m n k none (some w) p q h = agrees-get n.entries m n k w (ground arith) q
  get-eq m n k none none p q h = unfold get in p ∙ sym q

  -- Two maps are equal exactly when every lookup in them is.
  pub eq_iff : (m n : HashMap dec V) → (eq m n ≡ true) ↔ ((k : K) → get dec k m ≡ get dec k n)
  unfolding eq
  eq_iff m n = (
    λ h k. get-eq m n k (lookup dec k m.entries) (lookup dec k n.entries) refl refl h,
    λ h. ground (arith, get-agrees m.entries m n h, get-agrees n.entries m n h),
  )
