-- ===== src/AscAbi/RoundTrip.antt =====
-- `to_vec` of `TypedArray` and of `Array` in runtime/wasm/src/asc_abi reads what `new` wrote.
use test_ci_for_massbitproto.Prelude.{
  ℕ, suc, ◌-◌, ◌*◌, ◌/◌, ◌%◌, ◌<◌, true, false, if◌then◌else◌, List, length, ◌≡◌, ap, sym, ◌∙◌,
  subst, arith, Bool-cases, inl, inr,
}
use test_ci_for_massbitproto.Prelude.Outcome.{Outcome, done, bind_inversion, done-injective}
use test_ci_for_massbitproto.AscHeap.Bytes.{two_32, take}
use test_ci_for_massbitproto.AscHeap.Ptr.{AscHeap, version_le, legacy_version, alloc_obj, read_len}
use test_ci_for_massbitproto.AscHeap.Placed.{Keeps, Keeps-IsCurrent, read_len-IsCurrent}
use test_ci_for_massbitproto.AscAbi.Elements.{content_of, length-content_of}
use test_ci_for_massbitproto.AscAbi.ArrayBuffer.{ArrayBuffer, buffer_object}
use test_ci_for_massbitproto.AscAbi.ArrayBuffer.Values.{
  Fit, whole4, whole5, take_length, new_buffer4, new_buffer5, alloc_buffer4, alloc_buffer5,
  read_elements4, read_elements5, not_null,
}
use test_ci_for_massbitproto.AscAbi.TypedArray as TypedArray
use test_ci_for_massbitproto.AscAbi.TypedArray.V004 as TypedArray4
use test_ci_for_massbitproto.AscAbi.TypedArray.V005 as TypedArray5
use test_ci_for_massbitproto.AscAbi.Array as Array
use test_ci_for_massbitproto.AscAbi.Array.V004 as Array4
use test_ci_for_massbitproto.AscAbi.Array.V005 as Array5
use native.Mathlib.Nat.{mul-div_cancel, le-mul_of_pos_right}

module _ (H : AscHeap) (size : ℕ) (values : List ℕ) (fit : Fit size values)
    (heap later : H.State) where
  -- The heap is sound, has kept what it stored, and what is read of `a` later is `expected`.
  abbrev pub After : {A : Type 0} → (A → H.State → Outcome (List ℕ)) → List ℕ → A × H.State → Type 0
  After read expected (a, heap') =
      H.Sound heap' × Keeps H heap heap' × (Keeps H heap' later → read a later ≡ done expected)

  counted : length (content_of (suc size) values) / suc size ≡ length values
  counted =
      ap (λ n. n / suc size) (length-content_of (suc size) values)
      ∙ mul-div_cancel (length values) (omega arith)

  short : length values % two_32 ≡ length values
  short = length_lt (length values) fit.1
    where
      length_lt : (n : ℕ) → n * suc size < two_32 - 8 → n % two_32 ≡ n
      length_lt n h = omega (arith, le-mul_of_pos_right {m = suc size} n (omega arith), h)

  typed_array4 :
      (r : TypedArray4.TypedArray × H.State)
      → version_le H.api_version legacy_version ≡ true
      → H.Sound heap
      → TypedArray4.new H (suc size) values heap ≡ done r
      → After (TypedArray4.to_vec H (suc size)) values r
  unfolding TypedArray4.new TypedArray4.to_vec TypedArray4.buffer_byte_length
  typed_array4 r legacy sound h =
      let ((ptr, heap₁), allocated, rest) =
        bind_inversion
          (alloc_obj H (buffer_object (ArrayBuffer.version_0_0_4 (whole4 (suc size) values))) heap)
          _ r (rw (new_buffer4 H size values fit legacy) at h) in
      let (sound', stored, keeps) =
        alloc_buffer4 H size values fit heap heap₁ ptr legacy sound allocated in
      subst (After (TypedArray4.to_vec H (suc size)) values) (done-injective rest) (
        sound',
        keeps,
        λ kept.
            read_elements4 H size values fit (length (content_of (suc size) values) / suc size) ptr
              later legacy (kept _ _ stored)
            ∙ ap done (ap (λ n. take n values) counted ∙ take_length values),
      )

  pub typed_array5 :
      (r : TypedArray5.TypedArray × H.State)
      → version_le H.api_version legacy_version ≡ false
      → H.Sound heap
      → TypedArray5.new H (suc size) values heap ≡ done r
      → After (TypedArray5.to_vec H (suc size)) (take (length values / suc size) values) r
  unfolding TypedArray5.new TypedArray5.to_vec
  typed_array5 r current sound h =
      let ((ptr, heap₁), allocated, rest) =
        bind_inversion
          (alloc_obj H (buffer_object (ArrayBuffer.version_0_0_5 (whole5 (suc size) values))) heap)
          _ r (rw (new_buffer5 H size values fit current) at h) in
      let (sound', placed, keeps) =
        alloc_buffer5 H size values fit heap heap₁ ptr current sound allocated in
      let (some_ptr, no_offset) = not_null H size values fit placed in
      subst (After (TypedArray5.to_vec H (suc size)) (take (length values / suc size) values))
        (done-injective rest)
        (
          sound',
          keeps,
          λ kept.
              rw (some_ptr, no_offset)
                (read_elements5 H size values fit (length values % two_32 / suc size) ptr later
                    current (Keeps-IsCurrent H kept placed)
                  ∙ ap (λ n. done (take (n / suc size) values)) short),
        )

  array4 :
      (r : Array4.Array × H.State)
      → version_le H.api_version legacy_version ≡ true
      → H.Sound heap
      → Array4.new H (suc size) values heap ≡ done r
      → After (Array4.to_vec H (suc size)) values r
  unfolding Array4.new Array4.to_vec
  array4 r legacy sound h =
      let ((ptr, heap₁), allocated, rest) =
        bind_inversion
          (alloc_obj H (buffer_object (ArrayBuffer.version_0_0_4 (whole4 (suc size) values))) heap)
          _ r (rw (new_buffer4 H size values fit legacy) at h) in
      let (sound', stored, keeps) =
        alloc_buffer4 H size values fit heap heap₁ ptr legacy sound allocated in
      subst (After (Array4.to_vec H (suc size)) values) (done-injective rest) (
        sound',
        keeps,
        λ kept.
            read_elements4 H size values fit (length values % two_32) ptr later legacy
              (kept _ _ stored)
            ∙ ap done (ap (λ n. take n values) short ∙ take_length values),
      )

  pub array5 :
      (r : Array5.Array × H.State)
      → version_le H.api_version legacy_version ≡ false
      → H.Sound heap
      → Array5.new H (suc size) values heap ≡ done r
      → After (Array5.to_vec H (suc size)) values r
  unfolding Array5.new Array5.to_vec
  array5 r current sound h =
      let ((ptr, heap₁), allocated, rest) =
        bind_inversion
          (alloc_obj H (buffer_object (ArrayBuffer.version_0_0_5 (whole5 (suc size) values))) heap)
          _ r (rw (new_buffer5 H size values fit current) at h) in
      let (len, measured, rest') = bind_inversion (read_len H ptr heap₁) _ r rest in
      let (sound', placed, keeps) =
        alloc_buffer5 H size values fit heap heap₁ ptr current sound allocated in
      let (some_ptr, no_offset) = not_null H size values fit placed in
      subst (After (Array5.to_vec H (suc size)) values) (done-injective rest') (
        sound',
        keeps,
        λ kept.
            rw (some_ptr, no_offset)
              (read_elements5 H size values fit (length values % two_32) ptr later current
                  (Keeps-IsCurrent H kept placed)
                ∙ ap done (ap (λ n. take n values) short ∙ take_length values)),
      )

  -- The fields of the arrays are numbers of a `u32`.
  pub typed_array5_fields :
      (r : TypedArray5.TypedArray × H.State)
      → version_le H.api_version legacy_version ≡ false
      → H.Sound heap
      → TypedArray5.new H (suc size) values heap ≡ done r
      → (r.0.buffer < two_32) × (r.0.data_start < two_32) × (r.0.byte_length < two_32)
  unfolding TypedArray5.new
  typed_array5_fields r current sound h =
      let ((ptr, heap₁), allocated, rest) =
        bind_inversion
          (alloc_obj H (buffer_object (ArrayBuffer.version_0_0_5 (whole5 (suc size) values))) heap)
          _ r (rw (new_buffer5 H size values fit current) at h) in
      let placed = (alloc_buffer5 H size values fit heap heap₁ ptr current sound allocated).1 in
      subst
        (λ (q : TypedArray5.TypedArray × H.State).
          (q.0.buffer < two_32) × (q.0.data_start < two_32) × (q.0.byte_length < two_32))
        (done-injective rest) (placed.below, placed.below, below (length values))
    where
      below : (n : ℕ) → n % two_32 < two_32
      below n = omega arith

  pub array5_fields :
      (r : Array5.Array × H.State)
      → version_le H.api_version legacy_version ≡ false
      → H.Sound heap
      → Array5.new H (suc size) values heap ≡ done r
      → (r.0.buffer < two_32)
        × (r.0.buffer_data_start < two_32)
        × (r.0.buffer_data_length < two_32)
        × (r.0.length < two_32)
  unfolding Array5.new
  array5_fields r current sound h =
      let ((ptr, heap₁), allocated, rest) =
        bind_inversion
          (alloc_obj H (buffer_object (ArrayBuffer.version_0_0_5 (whole5 (suc size) values))) heap)
          _ r (rw (new_buffer5 H size values fit current) at h) in
      let (len, measured, rest') = bind_inversion (read_len H ptr heap₁) _ r rest in
      let placed = (alloc_buffer5 H size values fit heap heap₁ ptr current sound allocated).1 in
      let small : length (content_of (suc size) values) < two_32 =
        omega (arith, length-content_of (suc size) values, fit.1) in
      let e = done-injective (sym measured ∙ read_len-IsCurrent H placed small) in
      subst
        (λ (q : Array5.Array × H.State).
          (q.0.buffer < two_32)
          × (q.0.buffer_data_start < two_32)
          × (q.0.buffer_data_length < two_32)
          × (q.0.length < two_32))
        (done-injective rest')
        (placed.below, placed.below, subst (λ n. n < two_32) (sym e) small, below (length values))
    where
      below : (n : ℕ) → n % two_32 < two_32
      below n = omega arith

  -- the elements that `TypedArray::to_vec` gives back of those that were written
  abbrev pub given_back : List ℕ
  given_back =
      if version_le H.api_version legacy_version
      then values
      else take (length values / suc size) values

  typed_array-After :
      (r : TypedArray.TypedArray × H.State)
      → H.Sound heap
      → TypedArray.new H (suc size) values heap ≡ done r
      → After (TypedArray.to_vec H (suc size)) given_back r
  unfolding TypedArray.new TypedArray.to_vec
  typed_array-After r sound h = elim (Bool-cases (version_le H.api_version legacy_version)) [
    | inl legacy ↦
        let (a, made, rest) =
          bind_inversion (TypedArray4.new H (suc size) values heap) _ r (rw legacy at h) in
        rw legacy (
          subst (After (TypedArray.to_vec H (suc size)) values) (done-injective rest)
            (typed_array4 a legacy sound made))
    | inr current ↦
        let (a, made, rest) =
          bind_inversion (TypedArray5.new H (suc size) values heap) _ r (rw current at h) in
        rw current (
          subst (After (TypedArray.to_vec H (suc size)) (take (length values / suc size) values))
            (done-injective rest) (typed_array5 a current sound made))
  ]

  -- A `TypedArray` that was made of values that fit, of a type of `suc size` bytes: the heap keeps what
  -- it stored, and in each later heap that keeps the array, `to_vec` gives the values up to version 0.0.4,
  -- and after it the first `len / size_of` of the `len` values.
  pub to_vec-new :
      (a : TypedArray.TypedArray) (heap' : H.State)
      → H.Sound heap
      → TypedArray.new H (suc size) values heap ≡ done (a, heap')
      → Keeps H heap' later
      → H.Sound heap'
        × Keeps H heap heap'
        × (TypedArray.to_vec H (suc size) a later
            ≡ done (
                if version_le H.api_version legacy_version
                then values
                else take (length values / suc size) values))
  to_vec-new a heap' sound h kept =
      let (sound', keeps, reads) = typed_array-After (a, heap') sound h in
      (sound', keeps, reads kept)

  -- An `Array` gives back all its values, in every version.
  pub to_vec-new_array :
      (r : Array.Array × H.State)
      → H.Sound heap
      → Array.new H (suc size) values heap ≡ done r
      → After (Array.to_vec H (suc size)) values r
  unfolding Array.new Array.to_vec
  to_vec-new_array r sound h = elim (Bool-cases (version_le H.api_version legacy_version)) [
    | inl legacy ↦
        let (a, made, rest) =
          bind_inversion (Array4.new H (suc size) values heap) _ r (rw legacy at h) in
        subst (After (Array.to_vec H (suc size)) values) (done-injective rest)
          (array4 a legacy sound made)
    | inr current ↦
        let (a, made, rest) =
          bind_inversion (Array5.new H (suc size) values heap) _ r (rw current at h) in
        subst (After (Array.to_vec H (suc size)) values) (done-injective rest)
          (array5 a current sound made)
  ]
