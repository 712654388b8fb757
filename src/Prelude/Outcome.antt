-- ===== src/Prelude/Outcome.antt =====
-- A computation that may fail with an error (`Err`), or panic: a failed `assert!`, `expect` or
-- `unwrap`, or an unsigned subtraction below 0.
use Prim.Native.Nat.{ℕ, ◌-◌, compare, Ordering}
use mathlib.Core.Path.{◌≡◌, refl, ap}
use native.Mathlib.Omega.{arith}
use Prim.Native.String.{String}
use mathlib.Core.Bool.{Bool, true, false}
use mathlib.Core.Option.{Option, none, some}

pub data Outcome {ℓ} (A : Type ℓ) : Type ℓ where
  done : A → Outcome A
  failed : String → Outcome A
  panic : Outcome A

infixl 5 ◌>>=◌ ◌>>◌
abbrev pub ◌>>=◌ {ℓ κ} : {A : Type ℓ} {B : Type κ} → Outcome A → (A → Outcome B) → Outcome B
done a >>= f = f a
failed e >>= f = failed e
panic >>= f = panic

abbrev pub ◌>>◌ {ℓ} : {B : Type ℓ} → Outcome (Unit {0}) → Outcome B → Outcome B
m >> k = m >>= λ _. k

-- `assert!`
abbrev pub assert : Bool → Outcome (Unit {0})
assert true = done tt
assert false = panic

-- `a - b` on an unsigned type
abbrev pub checked_sub : ℕ → ℕ → Outcome ℕ
checked_sub a b = elim (compare a b) [ Ordering.lt ↦ panic | _ ↦ done (a - b) ]

pub done-injective {ℓ} : {A : Type ℓ} {x y : A} → done x ≡ done y → x ≡ y
done-injective {A} {x = x} h = ap (λ o. value o x) h
  where
    value : Outcome A → A → A
    value (done a) d = a
    value o d = d

-- A chain that ends well has ended well in each of its parts.
pub bind_inversion {ℓ κ} :
    {A : Type ℓ} {B : Type κ} (m : Outcome A) (f : A → Outcome B) (r : B)
    → (m >>= f) ≡ done r
    → (a : A) × (m ≡ done a) × (f a ≡ done r)
bind_inversion (done a) f r h = (a, refl, h)
bind_inversion (failed e) f r h = absurd (ground (arith, h))
bind_inversion panic f r h = absurd (ground (arith, h))

-- `Option::unwrap`
abbrev pub unwrap {ℓ} : {A : Type ℓ} → Option A → Outcome A
unwrap none = panic
unwrap (some a) = done a
