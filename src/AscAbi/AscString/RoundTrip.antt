-- ===== src/AscAbi/AscString/RoundTrip.antt =====
-- A string that was allocated is read back, in every version: runtime/wasm/src/asc_abi.
use test_ci_for_massbitproto.Prelude.{
  ℕ, ◌+◌, ◌-◌, ◌*◌, ◌≤◌, ◌<◌, true, false, List, [], ◌∷◌, ◌++◌, length, All, ◌≡◌, refl, ap, sym,
  ◌∙◌, append_assoc, append_nil, arith, Bool-cases, inl, inr,
}
use test_ci_for_massbitproto.Prelude.Outcome.{done}
use test_ci_for_massbitproto.AscHeap.Bytes.{two_32, take, drop, zeros, length-append}
use test_ci_for_massbitproto.AscHeap.Words.{le_bytes, length-le_bytes, from_le_bytes-le_bytes}
use test_ci_for_massbitproto.AscHeap.Ptr.{AscHeap, version_le, legacy_version, read_u32, padded}
use test_ci_for_massbitproto.AscHeap.Header.{length-padded}
use test_ci_for_massbitproto.AscHeap.Placed.{
  Keeps, IsCurrent, Keeps-IsCurrent, alloc_obj-IsLegacy, alloc_obj-IsCurrent, read_ptr-IsLegacy,
  read_ptr-IsCurrent,
}
use test_ci_for_massbitproto.AscAbi.Elements.{
  content_of, length-content_of, take_append, next_power_of_two,
}
use test_ci_for_massbitproto.AscAbi.AscString as Class
use test_ci_for_massbitproto.AscAbi.AscString.V004 as V004
use test_ci_for_massbitproto.AscAbi.AscString.V005 as V005

-- code units whose bytes fit into an `i32` with the length
abbrev pub IsText : List ℕ → Type 0
IsText units = All (λ u. u < 65536) units × (2 * length units + 4 < 2147483648)

read_units4 :
    (units : List ℕ)
    → All (λ u. u < 65536) units
    → V004.read_units (content_of 2 units) ≡ done units
unfolding V004.read_units content_of le_bytes
read_units4 [] h = refl
read_units4 (u ∷ units) (small, rest) = ground (arith, read_units4 units rest)

read_units5 :
    (units : List ℕ)
    → All (λ u. u < 65536) units
    → V005.read_units (content_of 2 units) ≡ done units
unfolding V005.read_units content_of le_bytes
read_units5 [] h = refl
read_units5 (u ∷ units) (small, rest) = ground (arith, read_units5 units rest)

abbrev string4 : List ℕ → V004.AscString
string4 units = record { length = length units; content = units }

abbrev string5 : List ℕ → V005.AscString
string5 units = record { byte_length = length units; content = units }

new4 : (units : List ℕ) → IsText units → V004.new units ≡ done (string4 units)
unfolding V004.new
new4 units (small, fits) = ground (arith, fits)

new5 : (units : List ℕ) → IsText units → V005.new units ≡ done (string5 units)
unfolding V005.new
new5 units (small, fits) = ground (arith, fits)

length-layout4 : (units : List ℕ) → length (V004.layout (string4 units)) ≡ 2 * length units + 4
unfolding V004.layout
length-layout4 units = omega (
  arith,
  length-append (le_bytes 4 (length units)) (content_of 2 units),
  length-le_bytes 4 (length units),
  length-content_of 2 units,
)

is_size-expected_size :
    (n : ℕ) → 2 * n + 4 < 2147483648 → V004.is_size (V004.expected_size n) (2 * n + 4) ≡ true
unfolding V004.is_size V004.expected_size
is_size-expected_size n h = ground (arith, h)

take_length4 : (units : List ℕ) → take 4 (V004.layout (string4 units)) ≡ le_bytes 4 (length units)
unfolding V004.layout le_bytes
take_length4 units = refl

drop_length4 : (units : List ℕ) → drop 4 (V004.layout (string4 units)) ≡ content_of 2 units
unfolding V004.layout le_bytes
drop_length4 units = refl

from_bytes4 :
    (units : List ℕ)
    → IsText units
    → V004.from_bytes (V004.layout (string4 units)) ≡ done (string4 units)
unfolding V004.from_bytes
from_bytes4 units text = ground (
  arith,
  length-layout4 units,
  take_length4 units,
  drop_length4 units,
  from_le_bytes-le_bytes (length units) (omega (arith, text.1)),
  is_size-expected_size (length units) text.1,
  read_units4 units text.0,
  new4 units text,
)

from_bytes5 :
    (units : List ℕ) → IsText units → V005.from_bytes (content_of 2 units) ≡ done (string5 units)
unfolding V005.from_bytes
from_bytes5 units text = ground (arith, read_units5 units text.0, new5 units text)

take_all {ℓ} : {A : Type ℓ} (xs : List A) (n : ℕ) → length xs ≡ n → take n xs ≡ xs
take_all xs n h = ap (take n) (sym (append_nil xs)) ∙ take_append xs [] n h

module _ (H : AscHeap) (units : List ℕ) (text : IsText units) (heap later : H.State) where
  -- The heap is sound, has kept what it stored, and `units` are read at the pointer later.
  abbrev pub After : ℕ × H.State → Type 0
  After (ptr, heap') =
      H.Sound heap'
      × Keeps H heap heap'
      × (Keeps H heap' later → Class.get_string H ptr later ≡ done units)

  asc_size4 :
      (ptr : ℕ)
      → H.Stored ptr (V004.layout (string4 units)) later
      → V004.asc_size H ptr later ≡ done (2 * length units + 4)
  unfolding V004.asc_size read_u32
  asc_size4 ptr stored = ground (
    arith,
    text.1,
    H.get-Stored ptr (V004.layout (string4 units)) later 0 4 stored
        (omega (arith, length-layout4 units)),
    take_length4 units,
    from_le_bytes-le_bytes (length units) (omega (arith, text.1)),
  )

  get_string4 :
      (ptr : ℕ)
      → version_le H.api_version legacy_version ≡ true
      → H.Stored ptr (V004.layout (string4 units)) later
      → Class.get_string H ptr later ≡ done units
  unfolding Class.get_string Class.asc_size Class.from_asc_bytes Class.content
  get_string4 ptr legacy stored =
      let read =
        read_ptr-IsLegacy H (Class.asc_size H) Class.from_asc_bytes ptr
          (V004.layout (string4 units)) (2 * length units + 4) later legacy stored
          (asc_size4 ptr stored) (omega (arith, length-layout4 units)) in
      ground (
        arith,
        read,
        legacy,
        take_all (V004.layout (string4 units)) (2 * length units + 4) (length-layout4 units),
        from_bytes4 units text,
      )

  length-le : (us : List ℕ) → length us * 2 ≤ length (padded H (V005.layout (string5 us)))
  unfolding V005.layout
  length-le us =
      let z = zeros (next_power_of_two (length us * 2 + 20) - (length us * 2 + 20)) in
      omega (
        arith,
        length-padded H (content_of 2 us ++ z),
        length-append (content_of 2 us) z,
        length-content_of 2 us,
      )

  content_of-padded :
      (us : List ℕ) → take (length us * 2) (padded H (V005.layout (string5 us))) ≡ content_of 2 us
  unfolding padded V005.layout
  content_of-padded us =
      ap (take (length us * 2)) (append_assoc (content_of 2 us) _ _)
      ∙ take_append (content_of 2 us) _ (length us * 2) (length-content_of 2 us)

  get_string5 :
      (ptr : ℕ)
      → version_le H.api_version legacy_version ≡ false
      → IsCurrent H ptr (V005.layout (string5 units)) (length units * 2) later
      → Class.get_string H ptr later ≡ done units
  unfolding Class.get_string Class.from_asc_bytes Class.content
  get_string5 ptr current placed =
      let read =
        read_ptr-IsCurrent H (Class.asc_size H) Class.from_asc_bytes ptr
          (V005.layout (string5 units)) (length units * 2) later current placed
          (omega (arith, text.1)) (length-le units) in
      ground (arith, read, current, content_of-padded units, from_bytes5 units text)

  pub new_string-After :
      (r : ℕ × H.State) → H.Sound heap → Class.new_string H units heap ≡ done r → After r
  unfolding Class.new_string Class.new Class.to_asc_bytes V004.to_asc_bytes V005.to_asc_bytes
      Class.content_len V005.content_len
  new_string-After (ptr, heap') sound h =
      elim (Bool-cases (version_le H.api_version legacy_version)) [
        | inl legacy ↦
            let allocated = rw (new4 units text) at (rw legacy at h) in
            let (sound', stored, keeps) =
              alloc_obj-IsLegacy H _ (V004.layout (string4 units)) heap heap' ptr legacy sound refl
                allocated in
            (sound', keeps, λ kept. get_string4 ptr legacy (kept _ _ stored))
        | inr current ↦
            let allocated = rw (new5 units text) at (rw current at h) in
            let (sound', placed, keeps) =
              alloc_obj-IsCurrent H _ (V005.layout (string5 units)) _ heap heap' ptr current sound
                refl refl allocated in
            (sound', keeps, λ kept. get_string5 ptr current (Keeps-IsCurrent H kept placed))
      ]

  -- The code units of a text are read back from the pointer that `asc_new` gave, in each later heap that
  -- keeps what was stored; the heap stays sound and keeps what it stored.
  pub get_string-new_string :
      (ptr : ℕ) (heap' : H.State)
      → H.Sound heap
      → Class.new_string H units heap ≡ done (ptr, heap')
      → Keeps H heap' later
      → H.Sound heap' × Keeps H heap heap' × (Class.get_string H ptr later ≡ done units)
  get_string-new_string ptr heap' sound h kept =
      let (sound', keeps, reads) = new_string-After (ptr, heap') sound h in
      (sound', keeps, reads kept)

-- In the versions after 0.0.4 the pointer is a `u32`.
pub new_string-lt :
    (H : AscHeap) (units : List ℕ) (heap heap' : H.State) (ptr : ℕ)
    → version_le H.api_version legacy_version ≡ false
    → IsText units
    → H.Sound heap
    → Class.new_string H units heap ≡ done (ptr, heap')
    → ptr < two_32
unfolding Class.new_string Class.new Class.to_asc_bytes V005.to_asc_bytes Class.content_len
    V005.content_len
new_string-lt H units heap heap' ptr current text sound h =
    let allocated = rw (new5 units text) at (rw current at h) in
    (alloc_obj-IsCurrent H _ (V005.layout (string5 units)) _ heap heap' ptr current sound refl refl
      allocated).1.below
