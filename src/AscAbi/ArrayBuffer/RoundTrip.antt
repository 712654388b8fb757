-- ===== src/AscAbi/ArrayBuffer/RoundTrip.antt =====
-- An `ArrayBuffer` that was allocated is read back: runtime/wasm/src/asc_abi.
use test_ci_for_massbitproto.Prelude.{
  ℕ, ◌+◌, ◌-◌, ◌≤◌, ◌<◌, true, false, List, ◌++◌, length, ◌≡◌, refl, ap, sym, ◌∙◌, append_assoc,
  arith,
}
use test_ci_for_massbitproto.Prelude.Outcome.{Outcome, done}
use test_ci_for_massbitproto.AscHeap.Bytes.{
  two_32, take, zeros, length-append, length-zeros, header_size,
}
use test_ci_for_massbitproto.AscHeap.Words.{
  le_bytes, length-le_bytes, from_asc_bytes-le_bytes, lt-values_of_4, from_le_bytes-le_bytes,
}
use test_ci_for_massbitproto.AscHeap.Ptr.{
  AscHeap, version_le, legacy_version, read_u32, read_ptr, padded,
}
use test_ci_for_massbitproto.AscHeap.Header.{length-padded}
use test_ci_for_massbitproto.AscHeap.Placed.{read_ptr-IsLegacy, IsCurrent, read_ptr-IsCurrent}
use test_ci_for_massbitproto.AscAbi.Elements.{next_power_of_two, next_power_of_two-le, take_append}
use test_ci_for_massbitproto.AscAbi.ArrayBuffer.V004 as V004
use test_ci_for_massbitproto.AscAbi.ArrayBuffer.V005 as V005

-- A buffer whose length is that of its content.
abbrev pub IsWhole4 : V004.ArrayBuffer → Type 0
IsWhole4 a = (a.byte_length ≡ length a.content) × (a.byte_length < two_32 - 8)

length-layout4 :
    (a : V004.ArrayBuffer)
    → IsWhole4 a
    → length (V004.layout a) ≡ next_power_of_two (a.byte_length + 8)
unfolding V004.layout
length-layout4 a (whole, small) =
    let extra = next_power_of_two (a.byte_length + 8) - (a.byte_length + 8) in
    omega (
      arith,
      next_power_of_two-le (a.byte_length + 8),
      length-append (le_bytes 4 a.byte_length) (zeros 4 ++ (a.content ++ zeros extra)),
      length-append a.content (zeros extra),
      length-zeros extra,
      length-le_bytes 4 a.byte_length,
    )

pub to_asc_bytes-layout4 :
    (a : V004.ArrayBuffer) → IsWhole4 a → V004.to_asc_bytes a ≡ done (V004.layout a)
unfolding V004.to_asc_bytes
to_asc_bytes-layout4 a whole = ground (arith, length-layout4 a whole)

-- the bytes before the extra capacity
abbrev front4 : V004.ArrayBuffer → List ℕ
front4 a = le_bytes 4 a.byte_length ++ (zeros 4 ++ a.content)

layout4-front4 :
    (a : V004.ArrayBuffer)
    → V004.layout a
      ≡ front4 a ++ zeros (next_power_of_two (a.byte_length + 8) - (a.byte_length + 8))
unfolding V004.layout le_bytes
layout4-front4 a = refl

length-front4 : (a : V004.ArrayBuffer) → IsWhole4 a → length (front4 a) ≡ 8 + a.byte_length
unfolding le_bytes
length-front4 a (whole, small) = omega (arith, whole)

from_bytes-front4 : (a : V004.ArrayBuffer) → IsWhole4 a → V004.from_bytes (front4 a) ≡ done a
unfolding V004.from_bytes le_bytes
from_bytes-front4 a (whole, small) = ground (
  arith,
  from_asc_bytes-le_bytes 4 a.byte_length (lt-values_of_4 a.byte_length (omega (arith, small))),
)

-- The length and the content without the extra capacity are read back.
from_bytes-layout4 :
    (a : V004.ArrayBuffer)
    → IsWhole4 a
    → V004.from_bytes (take (8 + a.byte_length) (V004.layout a)) ≡ done a
from_bytes-layout4 a whole =
    ap (λ l. V004.from_bytes (take (8 + a.byte_length) l)) (layout4-front4 a)
    ∙ ap V004.from_bytes (take_append (front4 a) _ (8 + a.byte_length) (length-front4 a whole))
    ∙ from_bytes-front4 a whole

take_length4 : (a : V004.ArrayBuffer) → take 4 (V004.layout a) ≡ le_bytes 4 a.byte_length
unfolding V004.layout le_bytes
take_length4 a = refl

abbrev pub IsWhole5 : V005.ArrayBuffer → Type 0
IsWhole5 a = (a.byte_length ≡ length a.content) × (a.byte_length < two_32)

module _ (H : AscHeap) where
  -- Where the buffer lies, its length is read.
  asc_size-layout4 :
      (a : V004.ArrayBuffer) (ptr : ℕ) (heap : H.State)
      → IsWhole4 a
      → H.Stored ptr (V004.layout a) heap
      → V004.asc_size H ptr heap ≡ done (8 + a.byte_length)
  unfolding V004.asc_size read_u32
  asc_size-layout4 a ptr heap whole stored =
      let got =
        H.get-Stored ptr (V004.layout a) heap 0 4 stored
          (omega (arith, length-layout4 a whole, next_power_of_two-le (a.byte_length + 8))) in
      ground (arith, got, take_length4 a, from_le_bytes-le_bytes a.byte_length (omega arith))

  -- An allocated buffer of version 0.0.4 is read back, now and whatever is stored later.
  pub read_ptr-V004 :
      (a : V004.ArrayBuffer) (ptr : ℕ) (heap : H.State)
      → IsWhole4 a
      → version_le H.api_version legacy_version ≡ true
      → H.Stored ptr (V004.layout a) heap
      → read_ptr H (V004.asc_size H) (λ bytes _. V004.from_bytes bytes) ptr heap ≡ done a
  read_ptr-V004 a ptr heap whole legacy stored =
      read_ptr-IsLegacy H (V004.asc_size H) (λ bytes _. V004.from_bytes bytes) ptr (V004.layout a)
        (8 + a.byte_length) heap legacy stored (asc_size-layout4 a ptr heap whole stored)
        (omega (arith, length-layout4 a whole, next_power_of_two-le (a.byte_length + 8)))
      ∙ from_bytes-layout4 a whole

  byte_length-le :
      (a : V005.ArrayBuffer) → IsWhole5 a → a.byte_length ≤ length (padded H (V005.layout a))
  unfolding V005.layout
  byte_length-le a (whole, small) =
      let z =
        zeros (next_power_of_two (a.byte_length + header_size) - (a.byte_length + header_size)) in
      omega (arith, whole, length-padded H (a.content ++ z), length-append a.content z)

  content_of-padded :
      (a : V005.ArrayBuffer)
      → IsWhole5 a
      → take a.byte_length (padded H (V005.layout a)) ≡ a.content
  unfolding padded V005.layout
  content_of-padded a (whole, small) =
      ap (take a.byte_length) (append_assoc a.content _ _)
      ∙ take_append a.content _ a.byte_length (sym whole)

  from_bytes-content : (a : V005.ArrayBuffer) → IsWhole5 a → V005.from_bytes a.content ≡ done a
  unfolding V005.from_bytes
  from_bytes-content a (whole, small) = ground (arith, whole)

  -- The same of a later version.
  pub read_ptr-V005 :
      (a : V005.ArrayBuffer) (ptr : ℕ) (heap : H.State)
      → IsWhole5 a
      → version_le H.api_version legacy_version ≡ false
      → IsCurrent H ptr (V005.layout a) a.byte_length heap
      → (asc_size : ℕ → H.State → Outcome ℕ)
      → read_ptr H asc_size (λ bytes _. V005.from_bytes bytes) ptr heap ≡ done a
  read_ptr-V005 a ptr heap whole current placed asc_size =
      read_ptr-IsCurrent H asc_size (λ bytes _. V005.from_bytes bytes) ptr (V005.layout a)
        a.byte_length heap current placed whole.1 (byte_length-le a whole)
      ∙ ap V005.from_bytes (content_of-padded a whole)
      ∙ from_bytes-content a whole

pub to_asc_bytes-layout5 : (a : V005.ArrayBuffer) → V005.to_asc_bytes a ≡ done (V005.layout a)
unfolding V005.to_asc_bytes
to_asc_bytes-layout5 a = refl
