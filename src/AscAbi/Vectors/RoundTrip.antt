-- ===== src/AscAbi/Vectors/RoundTrip.antt =====
-- Byte arrays and arrays of pointers are read back from their objects, in the versions after 0.0.4:
-- runtime/wasm/src/asc_abi/class.rs.
use test_ci_for_massbitproto.Prelude.{
  ℕ, suc, ◌/◌, ◌<◌, false, List, [], ◌∷◌, length, ◌≡◌, sym, subst, subst₂, arith,
}
use test_ci_for_massbitproto.Prelude.Outcome.{Outcome, done, bind_inversion, done-injective}
use test_ci_for_massbitproto.AscHeap.Bytes.{two_32, take}
use test_ci_for_massbitproto.AscHeap.Words.{lt-values_of_4}
use test_ci_for_massbitproto.AscHeap.Ptr.{AscHeap, version_le, legacy_version}
use test_ci_for_massbitproto.AscHeap.Placed.{Keeps}
use test_ci_for_massbitproto.AscAbi.ArrayBuffer.Values.{Fit}
use test_ci_for_massbitproto.AscAbi.Derive.{FieldType}
use test_ci_for_massbitproto.AscAbi.Structs.{new_struct, read_struct-new_struct}
use test_ci_for_massbitproto.AscAbi.RoundTrip.{
  typed_array5, typed_array5_fields, array5, array5_fields,
}
use test_ci_for_massbitproto.AscAbi.TypedArray as TypedArray
use test_ci_for_massbitproto.AscAbi.TypedArray.V005 as TypedArray5
use test_ci_for_massbitproto.AscAbi.Array as Array
use test_ci_for_massbitproto.AscAbi.Array.V005 as Array5
use test_ci_for_massbitproto.AscAbi.Vectors.{
  three_words, four_words, typed_array_fields, typed_array_of, array_types, array_fields, array_of,
  new_vec, get_vec, new_pointers, get_pointers,
}

module _ (H : AscHeap) (current : version_le H.api_version legacy_version ≡ false) where
  -- What follows the allocation of an object from which `expected` is read: the heap is sound, has kept
  -- what it stored, and gives `expected` in each later heap that keeps the object.
  pub record IsRead {A : Type 0} (read : ℕ → H.State → Outcome A) (expected : A) (heap : H.State)
      (ptr : ℕ) (heap' : H.State) : Type 0 where
    pub sound : H.Sound heap'
    pub keeps : Keeps H heap heap'
    pub small : ptr < two_32
    pub reads : (later : H.State) → Keeps H heap' later → read ptr later ≡ done expected

  typed_array-V005 :
      (size : ℕ) (values : List ℕ) (heap : H.State) (r : TypedArray.TypedArray × H.State)
      → TypedArray.new H size values heap ≡ done r
      → (q : TypedArray5.TypedArray × H.State) × (TypedArray5.new H size values heap ≡ done q)
        × ((TypedArray.version_0_0_5 q.0, q.1) ≡ r)
  unfolding TypedArray.new
  typed_array-V005 size values heap r h =
      let (q, made, last) =
        bind_inversion (TypedArray5.new H size values heap) _ r (rw current at h) in
      (q, made, done-injective last)

  array-V005 :
      (size : ℕ) (values : List ℕ) (heap : H.State) (r : Array.Array × H.State)
      → Array.new H size values heap ≡ done r
      → (q : Array5.Array × H.State) × (Array5.new H size values heap ≡ done q)
        × ((Array.version_0_0_5 q.0, q.1) ≡ r)
  unfolding Array.new
  array-V005 size values heap r h =
      let (q, made, last) = bind_inversion (Array5.new H size values heap) _ r (rw current at h) in
      (q, made, done-injective last)

  -- The bytes of a type of one byte are all read back, and of a larger type the first of them.
  pub get_vec-new_vec :
      (index size : ℕ) (values : List ℕ) (heap heap' : H.State) (ptr : ℕ)
      → Fit size values
      → H.Sound heap
      → new_vec H index (suc size) values heap ≡ done (ptr, heap')
      → IsRead (get_vec H (suc size)) (take (length values / suc size) values) heap ptr heap'
  unfolding new_vec get_vec TypedArray.to_vec typed_array_fields typed_array_of
  get_vec-new_vec index size values heap heap' ptr fit sound h =
      let (r, newed, last) =
        bind_inversion (TypedArray.new H (suc size) values heap) _ (ptr, heap') h in
      let ((a, heap₁), made, same) = typed_array-V005 (suc size) values heap r newed in
      let rest =
        subst
          (λ (q : TypedArray.TypedArray × H.State).
            new_struct H index three_words (typed_array_fields q.0) q.1 ≡ done (ptr, heap'))
          (sym same) last in
      let (b, d, l) =
        typed_array5_fields H size values fit heap heap (a, heap₁) current sound made in
      let (sound₁, keeps₁, _) =
        typed_array5 H size values fit heap heap (a, heap₁) current sound made in
      let (sound₂, keeps₂, small, reads) =
        read_struct-new_struct H current index three_words
          (a.buffer ∷ a.data_start ∷ a.byte_length ∷ [])
          (lt-values_of_4 _ b, (lt-values_of_4 _ d, (lt-values_of_4 _ l, tt))) (omega arith) 16
          heap₁ heap' ptr sound₁ rest in
      record {
        sound = sound₂;
        keeps = λ q old s. keeps₂ q old (keeps₁ q old s);
        small = small;
        reads = λ later kept. rw (reads later kept) (
            rw current (
              (typed_array5 H size values fit heap later (a, heap₁) current sound made).2
                (λ q old s. kept q old (keeps₂ q old s))));
      }

  four_types : array_types H.api_version ≡ four_words
  unfolding array_types
  four_types = rw current

  pub get_pointers-new_pointers :
      (index : ℕ) (values : List ℕ) (heap heap' : H.State) (ptr : ℕ)
      → Fit 3 values
      → H.Sound heap
      → new_pointers H index values heap ≡ done (ptr, heap')
      → IsRead (get_pointers H) values heap ptr heap'
  unfolding new_pointers get_pointers Array.to_vec array_fields array_of
  get_pointers-new_pointers index values heap heap' ptr fit sound h =
      let (r, newed, last) = bind_inversion (Array.new H 4 values heap) _ (ptr, heap') h in
      let ((a, heap₁), made, same) = array-V005 4 values heap r newed in
      let rest =
        subst₂
          (λ (types : List FieldType) (q : Array.Array × H.State).
            new_struct H index types (array_fields q.0) q.1 ≡ done (ptr, heap'))
          four_types (sym same) last in
      let (b, d, l, n) = array5_fields H 3 values fit heap heap (a, heap₁) current sound made in
      let (sound₁, keeps₁, _) = array5 H 3 values fit heap heap (a, heap₁) current sound made in
      let (sound₂, keeps₂, small, reads) =
        read_struct-new_struct H current index four_words
          (a.buffer ∷ a.buffer_data_start ∷ a.buffer_data_length ∷ a.length ∷ [])
          (lt-values_of_4 _ b, (lt-values_of_4 _ d, (lt-values_of_4 _ l, (lt-values_of_4 _ n, tt))))
          (omega arith) 20 heap₁ heap' ptr sound₁ rest in
      record {
        sound = sound₂;
        keeps = λ q old s. keeps₂ q old (keeps₁ q old s);
        small = small;
        reads = λ later kept. rw four_types (
            rw (reads later kept) (
              (array5 H 3 values fit heap later (a, heap₁) current sound made).2
                (λ q old s. kept q old (keeps₂ q old s))));
      }
