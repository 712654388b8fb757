-- ===== src/AscAbi/Elements.antt =====
-- The elements that both versions of `ArrayBuffer` hold (runtime/wasm/src/asc_abi/v0_0_4.rs and
-- v0_0_5.rs), and `next_power_of_two` of Rust. An element type is known by its size in bytes.
use test_ci_for_massbitproto.Prelude.{
  ℕ, zero, suc, ◌+◌, ◌*◌, ◌≤◌, ◌<◌, leb, if◌then◌else◌, List, [], ◌∷◌, ◌++◌, ◌≡◌, refl, ap, ◌∙◌,
  length, All, arith,
}
use test_ci_for_massbitproto.Prelude.Outcome.{Outcome, done, panic, ◌>>=◌}
use test_ci_for_massbitproto.AscHeap.Bytes.{two_32, take, drop, length-append}
use test_ci_for_massbitproto.AscHeap.Words.{
  le_bytes, values_of, from_asc_bytes, length-le_bytes, from_asc_bytes-le_bytes,
}

-- the bytes of all values
unfoldable pub content_of : ℕ → List ℕ → List ℕ
content_of size [] = []
content_of size (v ∷ values) = le_bytes size v ++ content_of size values

-- `chunks(size).take(length).map(from_asc_bytes).collect()`
unfoldable pub read_chunks : ℕ → ℕ → List ℕ → Outcome (List ℕ)
read_chunks size zero bytes = done []
read_chunks size (suc n) [] = done []
read_chunks size (suc n) (b ∷ bytes) = do
  value ← from_asc_bytes size (take size (b ∷ bytes))
  values ← read_chunks size n (drop size (b ∷ bytes))
  done (value ∷ values)

-- `content[byte_offset..]`, which panics beyond the end
unfoldable pub slice_from : ℕ → List ℕ → Outcome (List ℕ)
slice_from byte_offset content =
    if leb byte_offset (length content) then done (drop byte_offset content) else panic

-- `ArrayBuffer::get` of both versions
unfoldable pub get_elements : ℕ → ℕ → ℕ → List ℕ → Outcome (List ℕ)
get_elements size byte_offset n content = slice_from byte_offset content >>= read_chunks size n

double_until : ℕ → ℕ → ℕ → ℕ
double_until zero n p = p
double_until (suc fuel) n p = let rest = double_until fuel n (2 * p) in if leb n p then p else rest

-- for a `usize`, whose greatest power of two is 2 ^ 63
unfoldable pub next_power_of_two : ℕ → ℕ
unfolding double_until
next_power_of_two n = double_until 63 n 1

times_two : ℕ → ℕ → ℕ
times_two zero p = p
times_two (suc k) p = times_two k (2 * p)

double_until-le : (fuel n p : ℕ) → n ≤ times_two fuel p → n ≤ double_until fuel n p
unfolding double_until times_two
double_until-le zero n p h = h
double_until-le (suc fuel) n p h = ground (arith, double_until-le fuel n (2 * p) h)

pub next_power_of_two-le : (n : ℕ) → n ≤ two_32 + 20 → n ≤ next_power_of_two n
unfolding next_power_of_two times_two
next_power_of_two-le n h = double_until-le 63 n 1 (omega (arith, h))

pub take_append {ℓ} : {A : Type ℓ} (xs ys : List A) (n : ℕ) → length xs ≡ n → take n (xs ++ ys) ≡ xs
take_append [] ys zero h = refl
take_append [] ys (suc n) h = absurd (omega (arith, h))
take_append (x ∷ xs) ys zero h = absurd (omega (arith, h))
take_append (x ∷ xs) ys (suc n) h = ap (◌∷◌ x) (take_append xs ys n (omega (arith, h)))

pub drop_append {ℓ} : {A : Type ℓ} (xs ys : List A) (n : ℕ) → length xs ≡ n → drop n (xs ++ ys) ≡ ys
drop_append [] ys zero h = refl
drop_append [] ys (suc n) h = absurd (omega (arith, h))
drop_append (x ∷ xs) ys zero h = absurd (omega (arith, h))
drop_append (x ∷ xs) ys (suc n) h = drop_append xs ys n (omega (arith, h))

pub length-content_of :
    (size : ℕ) (values : List ℕ) → length (content_of size values) ≡ length values * size
unfolding content_of
length-content_of size [] = omega arith
length-content_of size (v ∷ values) = grind (
  arith,
  length-append (le_bytes size v) (content_of size values),
  length-le_bytes size v,
  length-content_of size values,
)

read_chunks-append :
    (size n : ℕ) (word rest : List ℕ)
    → length word ≡ suc size
    → read_chunks (suc size) (suc n) (word ++ rest) ≡ (
        from_asc_bytes (suc size) word >>= λ value.
        read_chunks (suc size) n rest >>= λ values. done (value ∷ values))
unfolding read_chunks
read_chunks-append size n [] rest h = absurd (omega (arith, h))
read_chunks-append size n (b ∷ word) rest h = λ i.
    from_asc_bytes (suc size) (take_append (b ∷ word) rest (suc size) h i) >>= λ value.
    read_chunks (suc size) n (drop_append (b ∷ word) rest (suc size) h i) >>= λ values.
    done (value ∷ values)

-- Reading as many elements as one likes gives back the first of them.
pub read_chunks-content_of :
    (size n : ℕ) (values : List ℕ)
    → All (λ v. v < values_of (suc size)) values
    → read_chunks (suc size) n (content_of (suc size) values) ≡ done (take n values)
unfolding read_chunks content_of
read_chunks-content_of size zero values h = refl
read_chunks-content_of size (suc n) [] h = refl
read_chunks-content_of size (suc n) (v ∷ values) (small, rest) =
    read_chunks-append size n (le_bytes (suc size) v) (content_of (suc size) values)
      (length-le_bytes (suc size) v)
    ∙ ground (
      arith,
      from_asc_bytes-le_bytes (suc size) v small,
      read_chunks-content_of size n values rest,
    )
