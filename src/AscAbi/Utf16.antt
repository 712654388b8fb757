-- ===== src/AscAbi/Utf16.antt =====
-- `encode_utf16` and `from_utf16` of Rust's texts, as runtime/wasm/src/to_from/mod.rs uses them.
use Prim.Native.Char.{Char, char, code, nul, IsScalar}
use Prim.Native.Nat.{compare, Ordering}
use native.Mathlib.Decide.{dec_lt}
use text.Mathlib.TextEquality.{Char-path}
use mathlib.Core.Logic.{dite}
use test_ci_for_massbitproto.Prelude.{
  ℕ, ◌+◌, ◌-◌, ◌*◌, ◌/◌, ◌%◌, ◌≤◌, ◌<◌, Bool, false, ltb, leb, ◌==◌, ◌&&◌, not, if◌then◌else◌,
  String, List, [], ◌∷◌, ◌++◌, All, ◌⊎◌, inl, inr, ◌≡◌, refl, ap, sym, subst, ◌∙◌, arith,
}
use test_ci_for_massbitproto.Prelude.Outcome.{Outcome, done, failed, ◌>>=◌}

lt_compare : (a b : ℕ) → a < b → compare a b ≡ Ordering.lt
lt_compare a b h = ground arith

not_lt_compare : (a b : ℕ) → b ≤ a → (compare a b ≡ Ordering.eq) ⊎ (compare a b ≡ Ordering.gt)
not_lt_compare a b h = ground arith

pub low-IsScalar : (n : ℕ) → n < 55296 → IsScalar n
low-IsScalar n h = rw (lt_compare n 55296 h) tt

pub high-IsScalar : (n : ℕ) → 57343 < n → n < 1114112 → IsScalar n
high-IsScalar n a b = elim (not_lt_compare n 55296 (omega arith)) [
  | inl e ↦ rw e (rw (lt_compare 57343 n a) (rw (lt_compare n 1114112 b) tt))
  | inr e ↦ rw e (rw (lt_compare 57343 n a) (rw (lt_compare n 1114112 b) tt))
]

-- the number of a character, by the three comparisons of which `IsScalar` is made
range_by :
    (n : ℕ) (a b c : Ordering)
    → compare n 55296 ≡ a
    → compare 57343 n ≡ b
    → compare n 1114112 ≡ c
    → IsScalar n
    → (n < 55296) ⊎ ((57343 < n) × (n < 1114112))
range_by n Ordering.lt b c ea eb ec p = inl (ground (arith, ea))
range_by n Ordering.eq Ordering.lt Ordering.lt ea eb ec p =
    inr (ground (arith, eb), ground (arith, ec))
range_by n Ordering.eq Ordering.lt Ordering.eq ea eb ec p =
    absurd (rw ec at (rw eb at (rw ea at p)))
range_by n Ordering.eq Ordering.lt Ordering.gt ea eb ec p =
    absurd (rw ec at (rw eb at (rw ea at p)))
range_by n Ordering.eq Ordering.eq c ea eb ec p = absurd (rw eb at (rw ea at p))
range_by n Ordering.eq Ordering.gt c ea eb ec p = absurd (rw eb at (rw ea at p))
range_by n Ordering.gt Ordering.lt Ordering.lt ea eb ec p =
    inr (ground (arith, eb), ground (arith, ec))
range_by n Ordering.gt Ordering.lt Ordering.eq ea eb ec p =
    absurd (rw ec at (rw eb at (rw ea at p)))
range_by n Ordering.gt Ordering.lt Ordering.gt ea eb ec p =
    absurd (rw ec at (rw eb at (rw ea at p)))
range_by n Ordering.gt Ordering.eq c ea eb ec p = absurd (rw eb at (rw ea at p))
range_by n Ordering.gt Ordering.gt c ea eb ec p = absurd (rw eb at (rw ea at p))

-- the number of a character
code_range : (c : Char) → (code c < 55296) ⊎ ((57343 < code c) × (code c < 1114112))
code_range (char n p) = range_by n _ _ _ refl refl refl p

-- the character of a number, if there is one
unfoldable pub char_of : ℕ → Char
unfolding dec_lt
char_of n =
    dite (dec_lt n 55296) (λ h. char n (low-IsScalar n h))
      (λ _.
        dite (dec_lt 57343 n)
          (λ a. dite (dec_lt n 1114112) (λ b. char n (high-IsScalar n a b)) (λ _. nul)) (λ _. nul))

code-char_of : (n : ℕ) → (n < 55296) ⊎ ((57343 < n) × (n < 1114112)) → code (char_of n) ≡ n
unfolding char_of
code-char_of n h = ground (arith, h)

char_of-code : (c : Char) → char_of (code c) ≡ c
char_of-code c = Char-path (char_of (code c)) c (code-char_of (code c) (code_range c))

-- the code units of a character
unfoldable pub units_of : ℕ → List ℕ
units_of n =
    if ltb n 65536 then n ∷ [] else (55296 + (n - 65536) / 1024) ∷ (56320 + (n - 65536) % 1024) ∷ []

unfoldable pub encode_utf16 : String → List ℕ
encode_utf16 String.[] = []
encode_utf16 (String.◌∷◌ c s) = units_of (code c) ++ encode_utf16 s

abbrev pub is_surrogate : ℕ → Bool
is_surrogate u = leb 55296 u && ltb u 57344

abbrev pub cons_char : ℕ → Outcome String → Outcome String
cons_char n rest = rest >>= λ s. done (String.◌∷◌ (char_of n) s)

-- A surrogate stands before another one of the right kind, and makes one character with it.
unfoldable pub from_utf16 : List ℕ → Outcome String
unfolding char_of
from_utf16 [] = done String.[]
from_utf16 (u ∷ []) =
    if is_surrogate u then failed "invalid utf-16" else cons_char u (done String.[])
from_utf16 (u ∷ w ∷ rest) =
    let one = cons_char u (from_utf16 (w ∷ rest)) in
    let two = cons_char (65536 + (u - 55296) * 1024 + (w - 56320)) (from_utf16 rest) in
    if not (is_surrogate u)
    then one
    else if leb 56320 u
    then failed "invalid utf-16"
    else if leb 56320 w && ltb w 57344
    then two
    else failed "invalid utf-16"

from_utf16-low :
    (u : ℕ) (rest : List ℕ)
    → is_surrogate u ≡ false
    → from_utf16 (u ∷ rest) ≡ cons_char u (from_utf16 rest)
unfolding from_utf16
from_utf16-low u [] h = ground (arith, h)
from_utf16-low u (w ∷ rest) h = ground (arith, h)

from_utf16-two :
    (u w : ℕ) (rest : List ℕ)
    → 55296 ≤ u
    → u < 56320
    → 56320 ≤ w
    → w < 57344
    → from_utf16 (u ∷ w ∷ rest)
      ≡ cons_char (65536 + (u - 55296) * 1024 + (w - 56320)) (from_utf16 rest)
unfolding from_utf16
from_utf16-two u w rest a b c d = ground arith

from_utf16-pair :
    (n : ℕ) (rest : List ℕ)
    → 65536 ≤ n
    → n < 1114112
    → from_utf16 ((55296 + (n - 65536) / 1024) ∷ (56320 + (n - 65536) % 1024) ∷ rest)
      ≡ cons_char n (from_utf16 rest)
from_utf16-pair n rest low high =
    from_utf16-two (55296 + (n - 65536) / 1024) (56320 + (n - 65536) % 1024) rest (omega arith)
      (omega arith) (omega arith) (omega arith)
    ∙ ap (λ k. cons_char k (from_utf16 rest)) (omega (arith, low))

from_utf16-units_of :
    (n : ℕ) (rest : List ℕ)
    → (n < 55296) ⊎ ((57343 < n) × (n < 1114112))
    → from_utf16 (units_of n ++ rest) ≡ cons_char n (from_utf16 rest)
unfolding units_of
from_utf16-units_of n rest range = elim (dec_lt n 65536) [
  | yes small ↦ ground (arith, small, from_utf16-low n rest (not_surrogate n range))
  | no large ↦ ground (arith, large, from_utf16-pair n rest (omega arith) (below n range))
]
  where
    not_surrogate : (n : ℕ) → (n < 55296) ⊎ ((57343 < n) × (n < 1114112)) → is_surrogate n ≡ false
    not_surrogate n h = ground (arith, h)

    below : (n : ℕ) → (n < 55296) ⊎ ((57343 < n) × (n < 1114112)) → n < 1114112
    below n h = ground (arith, h)

from_utf16-nil : from_utf16 [] ≡ done String.[]
unfolding from_utf16
from_utf16-nil = refl

-- A text is read back from its code units.
pub from_utf16-encode_utf16 : (s : String) → from_utf16 (encode_utf16 s) ≡ done s
unfolding encode_utf16
from_utf16-encode_utf16 String.[] = from_utf16-nil
from_utf16-encode_utf16 (String.◌∷◌ c s) =
    from_utf16-units_of (code c) (encode_utf16 s) (code_range c)
    ∙ ap (cons_char (code c)) (from_utf16-encode_utf16 s)
    ∙ ap (λ d. done (String.◌∷◌ d s)) (char_of-code c)

All-append {ℓ κ} :
    {A : Type ℓ} (P : A → Type κ) (xs ys : List A) → All P xs → All P ys → All P (xs ++ ys)
All-append P [] ys h k = k
All-append P (x ∷ xs) ys (p, h) k = (p, All-append P xs ys h k)

units_of_small : (n : ℕ) → n < 65536 → units_of n ≡ n ∷ []
unfolding units_of
units_of_small n h = ground arith

units_of_large :
    (n : ℕ)
    → 65536 ≤ n
    → units_of n ≡ (55296 + (n - 65536) / 1024) ∷ (56320 + (n - 65536) % 1024) ∷ []
unfolding units_of
units_of_large n h = ground arith

units_of-lt : (n : ℕ) → n < 1114112 → All (λ u. u < 65536) (units_of n)
units_of-lt n h = elim (dec_lt n 65536) [
  | yes small ↦ subst (All (λ u. u < 65536)) (sym (units_of_small n small)) (small, tt)
  | no large ↦
      subst (All (λ u. u < 65536)) (sym (units_of_large n (omega arith)))
        (omega arith, (omega arith, tt))
]

-- Each code unit has 16 bits.
pub encode_utf16-lt : (s : String) → All (λ u. u < 65536) (encode_utf16 s)
unfolding encode_utf16
encode_utf16-lt String.[] = tt
encode_utf16-lt (String.◌∷◌ c s) =
    All-append (λ u. u < 65536) (units_of (code c)) (encode_utf16 s)
      (units_of-lt (code c) (below (code c) (code_range c))) (encode_utf16-lt s)
  where
    below : (n : ℕ) → (n < 55296) ⊎ ((57343 < n) × (n < 1114112)) → n < 1114112
    below n h = ground (arith, h)

-- `replace("\u{0000}", "")`
unfoldable pub strip_nulls : String → String
strip_nulls String.[] = String.[]
strip_nulls (String.◌∷◌ c s) =
    let rest = strip_nulls s in if code c == 0 then rest else String.◌∷◌ c rest
