-- ===== src/AscHeap/Header.antt =====
-- What is read back of an object that massbit/src/runtime/asc_ptr.rs has allocated.
use test_ci_for_massbitproto.Prelude.{
  ℕ, ◌+◌, ◌%◌, ◌<◌, false, List, ◌++◌, ◌≡◌, refl, ap, ◌∙◌, inr, length, arith,
}
use test_ci_for_massbitproto.Prelude.Outcome.{done}
use test_ci_for_massbitproto.AscHeap.Bytes.{
  two_32, to_le_bytes, padding_to_16, zeros, take, drop, from-to_le_bytes, length-append,
  length-zeros, padding_lem,
}
use test_ci_for_massbitproto.AscHeap.Ptr.{
  version_le, AscHeap, AscObject, legacy_version, check_is_not_null, header, generate_header,
  padded, alloc_obj, start_of_rt_size, read_len, is_null,
}

module _ (H : AscHeap) where
  pub length-padded :
      (bytes : List ℕ) → length (padded H bytes) ≡ length bytes + padding_to_16 (length bytes)
  unfolding padded
  length-padded bytes =
      length-append bytes (zeros (padding_to_16 (length bytes)))
      ∙ ap (λ n. length bytes + n) (length-zeros (padding_to_16 (length bytes)))

  rt_size_of-header :
      (id len full : ℕ) (bytes : List ℕ)
      → take 4 (drop 16 (header id len full ++ bytes)) ≡ to_le_bytes (len % two_32)
  unfolding header to_le_bytes
  rt_size_of-header id len full bytes = refl

  pub length-header :
      (id len full : ℕ) (bytes : List ℕ) → length (header id len full ++ bytes) ≡ 20 + length bytes
  unfolding header to_le_bytes
  length-header id len full bytes = omega arith

  pub length-header_alone : (id len full : ℕ) → length (header id len full) ≡ 20
  unfolding header to_le_bytes
  length-header_alone id len full = refl

  -- header, content and padding
  pub header_aligned :
      (id len full : ℕ) (content : List ℕ)
      → length (header id len full ++ padded H content) % 16 ≡ 0
  header_aligned id len full content = omega (
    arith,
    length-header id len full (padded H content),
    length-padded content,
    padding_lem (length content),
  )

  -- what `read_len` finds below a pointer to the content of an allocation
  pub read_len-Stored :
      (heap : H.State) (ptr id len full : ℕ) (bytes : List ℕ)
      → H.Stored ptr (header id len full ++ bytes) heap
      → len < two_32
      → read_len H (ptr + 20) heap ≡ done len
  unfolding read_len check_is_not_null start_of_rt_size is_null
  read_len-Stored heap ptr id len full bytes h small =
      let got =
        H.get-Stored ptr (header id len full ++ bytes) heap 16 4 h
          (omega (arith, length-header id len full bytes)) in
      ground (
        arith,
        got,
        rt_size_of-header id len full bytes,
        from-to_le_bytes (len % two_32) (omega (arith, small)),
      )

  -- A version after 0.0.4: an object whose bytes are `content`, written into a new allocation at
  -- `start` that lies below 2 ^ 32 with its header, gets the pointer 20 bytes after `start`. The
  -- header, the content and the padding take a multiple of 16 bytes, and `read_len` of the pointer gives
  -- the length that the object has for its padded bytes, if it is a `u32`.
  pub alloc_obj_lem :
      (asc_obj : AscObject) (content : List ℕ) (len id start : ℕ) (heap heap₁ heap₂ : H.State)
      → H.Sound heap₁
      → version_le H.api_version legacy_version ≡ false
      → asc_obj.to_asc_bytes ≡ done content
      → asc_obj.content_len (padded H content) ≡ done len
      → H.asc_type_id asc_obj.index_asc_type_id heap ≡ done (id, heap₁)
      → H.raw_new (header id len (length (padded H content)) ++ padded H content) heap₁
        ≡ done (start, heap₂)
      → start + 20 < two_32
      → len < two_32
      → (alloc_obj H asc_obj heap ≡ done (start + 20, heap₂))
        × ((20 + length (padded H content)) % 16 ≡ 0)
        × (read_len H (start + 20) heap₂ ≡ done len)
  unfolding alloc_obj generate_header
  alloc_obj_lem asc_obj content len id start heap heap₁ heap₂ sound version bytes measured type_id
        written room small =
      let full = length (padded H content) in
      let twenty : length (header id len full) ≡ 20 = length-header_alone id len full in
      let aligned = inr (header_aligned id len full content) in
      (
        ground (arith, version, bytes, measured, type_id, written, room, twenty),
        ground (arith, length-padded content, padding_lem (length content)),
        read_len-Stored heap₂ start id len full (padded H content)
            (H.raw_new-Stored _ heap₁ heap₂ start sound aligned written).1 small,
      )
