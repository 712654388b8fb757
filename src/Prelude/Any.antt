-- ===== src/Prelude/Any.antt =====
-- Membership in lists, as data.
use mathlib.Core.List.{List, [], ◌∷◌, ◌++◌}
use mathlib.Core.Logic.{◌⊎◌, inl, inr}
use test_ci_for_massbitproto.Prelude.Lists.{All}

module _ {ℓ} {A : Type ℓ} where
  abbrev pub Any : (A → Type 0) → List A → Type 0
  Any P [] = ⊥
  Any P (x ∷ xs) = P x ⊎ Any P xs

  pub Any-map : (P Q : A → Type 0) (xs : List A) → ((x : A) → P x → Q x) → Any P xs → Any Q xs
  Any-map P Q [] f h = h
  Any-map P Q (x ∷ xs) f (inl p) = inl (f x p)
  Any-map P Q (x ∷ xs) f (inr q) = inr (Any-map P Q xs f q)

  -- Where all satisfy one predicate and some element another one, some element satisfies both.
  pub Any-All : (P Q : A → Type 0) (xs : List A) → Any P xs → All Q xs → Any (λ x. P x × Q x) xs
  Any-All P Q (x ∷ xs) (inl p) a = inl (p, a.0)
  Any-All P Q (x ∷ xs) (inr q) a = inr (Any-All P Q xs q a.1)
  Any-All P Q [] h a = h

  pub Any-append_right : (P : A → Type 0) (xs ys : List A) → Any P ys → Any P (xs ++ ys)
  Any-append_right P [] ys h = h
  Any-append_right P (x ∷ xs) ys h = inr (Any-append_right P xs ys h)

  pub Any-append_left : (P : A → Type 0) (xs ys : List A) → Any P xs → Any P (xs ++ ys)
  Any-append_left P [] ys h = absurd h
  Any-append_left P (x ∷ xs) ys (inl p) = inl p
  Any-append_left P (x ∷ xs) ys (inr q) = inr (Any-append_left P xs ys q)
