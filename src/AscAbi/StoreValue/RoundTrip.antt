-- ===== src/AscAbi/StoreValue/RoundTrip.antt =====
-- A value is read back from its object, in the versions after 0.0.4: runtime/wasm/src/to_from/external.rs.
use test_ci_for_massbitproto.Prelude.{
  ℕ, suc, ◌-◌, ◌*◌, ◌<◌, ◌≤◌, false, List, ◌∷◌, length, ◌≡◌, refl, ap, ◌∙◌, subst, arith,
}
use test_ci_for_massbitproto.Prelude.Outcome.{done, bind_inversion, done-injective}
use test_ci_for_massbitproto.Data.Value.{Scalars, Value, Values}
use test_ci_for_massbitproto.AscHeap.Bytes.{two_32}
use test_ci_for_massbitproto.AscHeap.Words.{lt-values_of_4, lt-values_of_8}
use test_ci_for_massbitproto.AscHeap.Ptr.{AscHeap, version_le, legacy_version}
use test_ci_for_massbitproto.AscHeap.Placed.{Keeps}
use test_ci_for_massbitproto.AscAbi.Vectors.{new_pointers}
use test_ci_for_massbitproto.AscAbi.Vectors.RoundTrip.{get_pointers-new_pointers}
use test_ci_for_massbitproto.AscAbi.Scalars.{Codec, get_text, get_bytes, get_big_decimal}
use test_ci_for_massbitproto.AscAbi.Scalars.RoundTrip.{
  get_text-new_text, get_bytes-new_bytes, get_big_decimal-new_big_decimal,
}
use test_ci_for_massbitproto.AscAbi.StoreValue.{
  StoreValueKind, get_kind, payload_of_i32, payload_of_bool, new_enum, new_payload, new_values,
  new_value, get_values, from_kind, get_value, ptr_of,
}
use test_ci_for_massbitproto.AscAbi.StoreValue.Payload.{
  max_nat, sanitized, sanitized_all, count, depth_of, depth_of_all, FitsValue, FitValues, IsPayload,
  ArePointers, pointer-IsPayload, plain-IsPayload, int_payload, bool_payload, enum_of-payload,
}

module _ (H : AscHeap) (current : version_le H.api_version legacy_version ≡ false) {S : Scalars}
    (K : Codec S) where
  -- the array of the pointers of a list
  list-IsPayload :
      (vs : Values S) (content : List ℕ) (heap heap₁ heap₂ : H.State) (payload : ℕ)
      → count vs * 4 < two_32 - 8
      → ArePointers H current K (depth_of_all vs) (sanitized_all vs) heap content heap₁
      → length content ≡ count vs
      → new_pointers H 16 content heap₁ ≡ done (payload, heap₂)
      → IsPayload H current K StoreValueKind.array
          (depth_of_all vs)
          (Value.list (sanitized_all vs))
          heap
          payload
          heap₂
  unfolding from_kind
  list-IsPayload vs content heap heap₁ heap₂ payload fits p counted h =
      let r =
        get_pointers-new_pointers H current 16 content heap₁ heap₂ payload
          (p.small, omega (arith, counted, fits)) p.sound h in
      record {
        sound = r.sound;
        keeps = λ q old s. r.keeps q old (p.keeps q old s);
        small = lt-values_of_8 payload (omega (arith, r.small));
        reads = λ later kept d le. rw (as_ptr payload r.small) (
            rw (r.reads later kept)
              (rw (p.reads later (λ q old s. kept q old (r.keeps q old s)) d le)));
      }
    where
      as_ptr : (p : ℕ) → p < two_32 → ptr_of p ≡ p
      as_ptr p h = omega (arith, h)

  count-sanitized_all : (vs : Values S) → count (sanitized_all vs) ≡ count vs
  unfolding sanitized_all
  count-sanitized_all Values.nil = refl
  count-sanitized_all (Values.cons v vs) = ap suc (count-sanitized_all vs)

  more_pointers :
      (depth depths : ℕ) (w : Value S) (ws : Values S) (heap heap₂ heap₃ : H.State) (ptr : ℕ)
      (others : List ℕ)
      → (H.Sound heap₂
          × Keeps H heap heap₂
          × (ptr < two_32)
          × ((later : H.State)
              → Keeps H heap₂ later
              → (d : ℕ) → suc depth ≤ d
              → get_value H K d ptr later ≡ done w))
      → ArePointers H current K depths ws heap₂ others heap₃
      → ArePointers H current K
          (max_nat (suc depth) depths)
          (Values.cons w ws)
          heap
          (ptr ∷ others)
          heap₃
  unfolding get_values
  more_pointers depth depths w ws heap heap₂ heap₃ ptr others (sound, keeps, small, reads) ps =
      record {
        sound = ps.sound;
        keeps = λ q old s. ps.keeps q old (keeps q old s);
        small = (lt-values_of_4 ptr small, ps.small);
        counted = ap suc ps.counted;
        reads = λ later kept d le.
            rw (reads later (λ q old s. kept q old (ps.keeps q old s)) d (fst_le d le))
              (rw (ps.reads later kept d (snd_le d le)));
      }
    where
      fst_le : (d : ℕ) → max_nat (suc depth) depths ≤ d → suc depth ≤ d
      fst_le d h = ground (arith, h)

      snd_le : (d : ℕ) → max_nat (suc depth) depths ≤ d → depths ≤ d
      snd_le d h = ground (arith, h)

  mutual
    unfolding new_payload new_values sanitized sanitized_all depth_of depth_of_all FitsValue
        FitValues get_values from_kind get_kind

    payload_lem :
        (v : Value S) (heap heap' : H.State) (payload : ℕ)
        → FitsValue H current K v
        → H.Sound heap
        → new_payload H K v heap ≡ done (payload, heap')
        → IsPayload H current K (get_kind v) (depth_of v) (sanitized v) heap payload heap'
    payload_lem (Value.string s) heap heap' payload fits sound h =
        pointer-IsPayload H current K (get_text H) _ Value.string StoreValueKind.string heap heap'
          payload (get_text-new_text H current s heap heap' payload fits sound h)
          (λ get p later. refl)
    payload_lem (Value.int n) heap heap' payload fits sound h =
        let (small, back) = int_payload H current K n fits in
        subst
          (λ (r : ℕ × H.State).
            IsPayload H current K StoreValueKind.int 0 (Value.int n) heap r.0 r.1)
          (done-injective h)
          (plain-IsPayload H current K StoreValueKind.int 0 (Value.int n) heap (payload_of_i32 n)
            sound small (λ get later. ap (λ i. done (Value.int i)) back))
    payload_lem (Value.big_decimal d) heap heap' payload fits sound h =
        pointer-IsPayload H current K (get_big_decimal H K) _ Value.big_decimal
          StoreValueKind.big_decimal heap heap' payload
          (get_big_decimal-new_big_decimal H current K d heap heap' payload fits sound h)
          (λ get p later. refl)
    payload_lem (Value.bool b) heap heap' payload fits sound h =
        let (small, back) = bool_payload H current K b in
        subst
          (λ (r : ℕ × H.State).
            IsPayload H current K StoreValueKind.bool 0 (Value.bool b) heap r.0 r.1)
          (done-injective h)
          (plain-IsPayload H current K StoreValueKind.bool 0 (Value.bool b) heap (payload_of_bool b)
            sound small (λ get later. ap (λ i. done (Value.bool i)) back))
    payload_lem (Value.list vs) heap heap' payload fits sound h =
        let ((content, heap₁), made, last) =
          bind_inversion (new_values H K vs heap) _ (payload, heap') h in
        let p = values_lem vs heap heap₁ content fits.1 sound made in
        list-IsPayload vs content heap heap₁ heap' payload fits.0 p
          (p.counted ∙ count-sanitized_all vs) last
    payload_lem Value.null heap heap' payload fits sound h =
        subst
          (λ (r : ℕ × H.State). IsPayload H current K StoreValueKind.null 0 Value.null heap r.0 r.1)
          (done-injective h)
          (plain-IsPayload H current K StoreValueKind.null 0 Value.null heap 0 sound
            (lt-values_of_8 0 (omega arith)) (λ get later. refl))
    payload_lem (Value.bytes b) heap heap' payload fits sound h =
        pointer-IsPayload H current K (get_bytes H) _ Value.bytes StoreValueKind.bytes heap heap'
          payload (get_bytes-new_bytes H current b heap heap' payload fits sound h)
          (λ get p later. refl)
    payload_lem (Value.big_int n) heap heap' payload fits sound h =
        subst
          (λ m. IsPayload H current K StoreValueKind.big_int 0 (Value.big_int m) heap payload heap')
          (K.from-to_signed_bytes_le n)
          (pointer-IsPayload H current K (get_bytes H) _
            (λ c. Value.big_int (K.from_signed_bytes_le c)) StoreValueKind.big_int heap heap'
            payload
            (get_bytes-new_bytes H current (K.to_signed_bytes_le n) heap heap' payload
              (K.signed_bytes_lt n, fits) sound h)
            (λ get p later. refl))

    values_lem :
        (vs : Values S) (heap heap' : H.State) (ptrs : List ℕ)
        → FitValues H current K vs
        → H.Sound heap
        → new_values H K vs heap ≡ done (ptrs, heap')
        → ArePointers H current K (depth_of_all vs) (sanitized_all vs) heap ptrs heap'
    values_lem Values.nil heap heap' ptrs fits sound h =
        subst (λ (r : List ℕ × H.State). ArePointers H current K 0 Values.nil heap r.0 r.1)
          (done-injective h)
          (record {
            sound = sound;
            keeps = λ q old s. s;
            small = tt;
            counted = refl;
            reads = λ later kept d le. refl;
          })
    values_lem (Values.cons v vs) heap heap' ptrs fits sound h =
        let ((payload, heap₁), made, rest) =
          bind_inversion (new_payload H K v heap) _ (ptrs, heap') h in
        let ((ptr, heap₂), made', rest') =
          bind_inversion (new_enum H K v payload heap₁) _ (ptrs, heap') rest in
        let ((others, heap₃), made'', last) =
          bind_inversion (new_values H K vs heap₂) _ (ptrs, heap') rest' in
        let p = payload_lem v heap heap₁ payload fits.0 sound made in
        let e =
          enum_of-payload H current K v (sanitized v) (depth_of v) payload heap heap₁ heap₂ ptr p
            made' in
        let ps = values_lem vs heap₂ heap₃ others fits.1 e.0 made'' in
        subst
          (λ (r : List ℕ × H.State).
            ArePointers H current K (depth_of_all (Values.cons v vs))
              (Values.cons (sanitized v) (sanitized_all vs)) heap r.0 r.1)
          (done-injective last)
          (more_pointers (depth_of v) (depth_of_all vs) (sanitized v) (sanitized_all vs) heap heap₂
            heap₃ ptr others e ps)

  -- A value that fits into memory and was made an object: the heap stays sound and keeps what it stored,
  -- and in each later heap that keeps the object, the value is read back from its pointer, with the nulls
  -- stripped from its texts, if the depth allowed is more than that of its lists.
  pub get_value-new_value :
      (v : Value S) (heap heap' later : H.State) (ptr depth : ℕ)
      → FitsValue H current K v
      → H.Sound heap
      → new_value H K v heap ≡ done (ptr, heap')
      → Keeps H heap' later
      → depth_of v < depth
      → H.Sound heap' × Keeps H heap heap' × (get_value H K depth ptr later ≡ done (sanitized v))
  unfolding new_value
  get_value-new_value v heap heap' later ptr depth fits sound h kept deep =
      let ((payload, heap₁), made, last) =
        bind_inversion (new_payload H K v heap) _ (ptr, heap') h in
      let p = payload_lem v heap heap₁ payload fits sound made in
      let (sound', keeps, small, reads) =
        enum_of-payload H current K v (sanitized v) (depth_of v) payload heap heap₁ heap' ptr p
          last in
      (sound', keeps, reads later kept depth (omega (arith, deep)))
