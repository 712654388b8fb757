-- ===== src/AscAbi/ArrayBuffer/Values.antt =====
-- The buffers below the arrays of runtime/wasm/src/asc_abi: what is read of a buffer of values.
use test_ci_for_massbitproto.Prelude.{
  ℕ, suc, ◌-◌, ◌*◌, ◌<◌, true, false, List, [], ◌∷◌, length, All, ◌≡◌, refl, ap, arith,
}
use test_ci_for_massbitproto.Prelude.Outcome.{done, ◌>>=◌}
use test_ci_for_massbitproto.AscHeap.Bytes.{two_32, take}
use test_ci_for_massbitproto.AscHeap.Words.{values_of}
use test_ci_for_massbitproto.AscHeap.Ptr.{
  AscHeap, version_le, legacy_version, alloc_obj, read_ptr, is_null, check_is_not_null,
}
use test_ci_for_massbitproto.AscHeap.Placed.{
  Keeps, IsCurrent, alloc_obj-IsLegacy, alloc_obj-IsCurrent,
}
use test_ci_for_massbitproto.AscAbi.Elements.{
  content_of, slice_from, get_elements, length-content_of, read_chunks-content_of,
}
use test_ci_for_massbitproto.AscAbi.ArrayBuffer.{
  ArrayBuffer, new_buffer, buffer_object, buffer_to_asc_bytes, buffer_content_len,
}
use test_ci_for_massbitproto.AscAbi.TypedArray.V005.{offset_in, read_buffer}
use test_ci_for_massbitproto.AscAbi.ArrayBuffer.V004 as V004
use test_ci_for_massbitproto.AscAbi.ArrayBuffer.V005 as V005
use test_ci_for_massbitproto.AscAbi.ArrayBuffer.RoundTrip.{
  IsWhole4, IsWhole5, to_asc_bytes-layout4, to_asc_bytes-layout5, read_ptr-V004, read_ptr-V005,
}

-- the values of a type of `suc size` bytes fit into a buffer
abbrev pub Fit : ℕ → List ℕ → Type 0
Fit size values =
    All (λ v. v < values_of (suc size)) values × (length values * suc size < two_32 - 8)

abbrev pub whole4 : ℕ → List ℕ → V004.ArrayBuffer
whole4 size values = record {
  byte_length = length (content_of size values);
  content = content_of size values;
}

abbrev pub whole5 : ℕ → List ℕ → V005.ArrayBuffer
whole5 size values = record {
  byte_length = length (content_of size values);
  content = content_of size values;
}

pub get_elements-content_of :
    (size n : ℕ) (values : List ℕ)
    → Fit size values
    → get_elements (suc size) 0 n (content_of (suc size) values) ≡ done (take n values)
unfolding get_elements slice_from
get_elements-content_of size n values (small, fits) =
    ground (arith, read_chunks-content_of size n values small)

pub take_length {ℓ} : {A : Type ℓ} (xs : List A) → take (length xs) xs ≡ xs
take_length [] = refl
take_length (x ∷ xs) = ap (◌∷◌ x) (take_length xs)

module _ (H : AscHeap) (size : ℕ) (values : List ℕ) (fit : Fit size values) where
  pub new_buffer4 :
      version_le H.api_version legacy_version ≡ true
      → new_buffer (suc size) values H.api_version
        ≡ done (ArrayBuffer.version_0_0_4 (whole4 (suc size) values))
  unfolding new_buffer V004.new
  new_buffer4 legacy = ground (arith, legacy, fit.1, length-content_of (suc size) values)

  pub new_buffer5 :
      version_le H.api_version legacy_version ≡ false
      → new_buffer (suc size) values H.api_version
        ≡ done (ArrayBuffer.version_0_0_5 (whole5 (suc size) values))
  unfolding new_buffer V005.new
  new_buffer5 current = ground (arith, current, fit.1, length-content_of (suc size) values)

  small4 : IsWhole4 (whole4 (suc size) values)
  small4 = (refl, omega (arith, fit.1, length-content_of (suc size) values))

  small5 : IsWhole5 (whole5 (suc size) values)
  small5 = (refl, omega (arith, fit.1, length-content_of (suc size) values))

  pub alloc_buffer4 :
      (heap heap' : H.State) (ptr : ℕ)
      → version_le H.api_version legacy_version ≡ true
      → H.Sound heap
      → alloc_obj H (buffer_object (ArrayBuffer.version_0_0_4 (whole4 (suc size) values))) heap
        ≡ done (ptr, heap')
      → H.Sound heap'
        × H.Stored ptr (V004.layout (whole4 (suc size) values)) heap'
        × Keeps H heap heap'
  unfolding buffer_to_asc_bytes
  alloc_buffer4 heap heap' ptr legacy sound h =
      alloc_obj-IsLegacy H _ (V004.layout (whole4 (suc size) values)) heap heap' ptr legacy sound
        (to_asc_bytes-layout4 (whole4 (suc size) values) small4) h

  pub alloc_buffer5 :
      (heap heap' : H.State) (ptr : ℕ)
      → version_le H.api_version legacy_version ≡ false
      → H.Sound heap
      → alloc_obj H (buffer_object (ArrayBuffer.version_0_0_5 (whole5 (suc size) values))) heap
        ≡ done (ptr, heap')
      → H.Sound heap'
        × IsCurrent H ptr
            (V005.layout (whole5 (suc size) values))
            (length (content_of (suc size) values))
            heap'
        × Keeps H heap heap'
  unfolding buffer_to_asc_bytes buffer_content_len V005.content_len
  alloc_buffer5 heap heap' ptr current sound h =
      alloc_obj-IsCurrent H _ (V005.layout (whole5 (suc size) values)) _ heap heap' ptr current
        sound (to_asc_bytes-layout5 (whole5 (suc size) values)) refl h

  -- The elements of a buffer that lies in the heap are read, as many as one likes.
  pub read_elements4 :
      (n ptr : ℕ) (heap : H.State)
      → version_le H.api_version legacy_version ≡ true
      → H.Stored ptr (V004.layout (whole4 (suc size) values)) heap
      → (read_ptr H (V004.asc_size H) (λ bytes _. V004.from_bytes bytes) ptr heap
          >>= λ (b : V004.ArrayBuffer). get_elements (suc size) 0 n b.content)
        ≡ done (take n values)
  read_elements4 n ptr heap legacy stored =
      rw (read_ptr-V004 H (whole4 (suc size) values) ptr heap small4 legacy stored)
        (get_elements-content_of size n values fit)

  pub read_elements5 :
      (n ptr : ℕ) (heap : H.State)
      → version_le H.api_version legacy_version ≡ false
      → IsCurrent H ptr
          (V005.layout (whole5 (suc size) values))
          (length (content_of (suc size) values))
          heap
      → (read_buffer H ptr heap >>= λ (b : V005.ArrayBuffer). get_elements (suc size) 0 n b.content)
        ≡ done (take n values)
  unfolding read_buffer
  read_elements5 n ptr heap current placed =
      rw (read_ptr-V005 H (whole5 (suc size) values) ptr heap small5 current placed _)
        (get_elements-content_of size n values fit)

  -- no null pointer, and no offset
  pub not_null :
      {ptr : ℕ} {content : List ℕ} {len : ℕ} {heap : H.State}
      → IsCurrent H ptr content len heap
      → (check_is_not_null ptr ≡ done tt) × (offset_in ptr ptr ≡ done 0)
  unfolding check_is_not_null is_null offset_in
  not_null c = (ground (arith, c.above), ground arith)
