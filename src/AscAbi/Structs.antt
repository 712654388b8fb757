-- ===== src/AscAbi/Structs.antt =====
-- An object of a derived struct in the heap, in the versions after 0.0.4.
use test_ci_for_massbitproto.Prelude.{
  ℕ, ◌<◌, false, List, length, ◌≡◌, refl, ap, sym, ◌∙◌, append_nil, arith,
}
use test_ci_for_massbitproto.Prelude.Outcome.{Outcome, done}
use test_ci_for_massbitproto.AscHeap.Bytes.{two_32, take, zeros, padding_to_16}
use test_ci_for_massbitproto.AscHeap.Ptr.{
  version_le, legacy_version, AscHeap, alloc_obj, read_ptr, padded,
}
use test_ci_for_massbitproto.AscHeap.Header.{length-padded}
use test_ci_for_massbitproto.AscHeap.Placed.{
  Keeps, Keeps-IsCurrent, alloc_obj-IsCurrent, read_ptr-IsCurrent,
}
use test_ci_for_massbitproto.AscAbi.Elements.{take_append}
use test_ci_for_massbitproto.AscAbi.Derive.{
  FieldType, size_of, write_fields, struct_from_asc_bytes, struct_object, Fields,
  length-write_fields, read_fields-write_fields,
}

module _ (H : AscHeap) where
  unfoldable pub new_struct : ℕ → List FieldType → List ℕ → H.State → Outcome (ℕ × H.State)
  new_struct index types values heap = alloc_obj H (struct_object index types values) heap

  -- `rust_size` is the size of the Rust type, which the versions up to 0.0.4 read.
  unfoldable pub read_struct : ℕ → List FieldType → ℕ → H.State → Outcome (List ℕ)
  read_struct rust_size types ptr heap =
      read_ptr H (λ p h. done rust_size) (struct_from_asc_bytes types) ptr heap

  module _ (current : version_le H.api_version legacy_version ≡ false) (index : ℕ)
      (types : List FieldType) (values : List ℕ) (fields : Fields types values)
      (small : size_of types < 1024) where
    read_padded :
        struct_from_asc_bytes types (padded H (write_fields types values)) H.api_version
        ≡ done values
    unfolding struct_from_asc_bytes padded
    read_padded = ground (
      arith,
      current,
      read_fields-write_fields types values
          (zeros (padding_to_16 (length (write_fields types values)))) fields,
      length-padded H (write_fields types values),
      length-write_fields types values fields,
    )

    padded_small : length (padded H (write_fields types values)) < two_32
    unfolding padding_to_16
    padded_small = omega (
      arith,
      small,
      length-padded H (write_fields types values),
      length-write_fields types values fields,
    )

    -- A struct is read back from the pointer of its object, in each later heap that keeps it.
    pub read_struct-new_struct :
        (rust_size : ℕ) (heap heap' : H.State) (ptr : ℕ)
        → H.Sound heap
        → new_struct index types values heap ≡ done (ptr, heap')
        → H.Sound heap'
          × Keeps H heap heap'
          × (ptr < two_32)
          × ((later : H.State)
              → Keeps H heap' later
              → read_struct rust_size types ptr later ≡ done values)
    unfolding new_struct read_struct
    read_struct-new_struct rust_size heap heap' ptr sound h =
        let content = write_fields types values in
        let (sound', placed, keeps) =
          alloc_obj-IsCurrent H (struct_object index types values) content
            (length (padded H content)) heap heap' ptr current sound refl refl h in
        (
          sound',
          keeps,
          placed.below,
          λ later kept.
              read_ptr-IsCurrent H (λ p h'. done rust_size) (struct_from_asc_bytes types) ptr
                content (length (padded H content)) later current (Keeps-IsCurrent H kept placed)
                padded_small (omega arith)
              ∙ ap (λ l. struct_from_asc_bytes types l H.api_version) (take_all (padded H content))
              ∙ read_padded,
        )
      where
        take_all : (xs : List ℕ) → take (length xs) xs ≡ xs
        take_all xs =
            ap (take (length xs)) (sym (append_nil xs)) ∙ take_append xs _ (length xs) refl
