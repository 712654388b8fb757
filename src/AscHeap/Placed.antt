-- ===== src/AscHeap/Placed.antt =====
-- Where massbit/src/runtime/asc_ptr.rs puts an object, and what it reads there.
use test_ci_for_massbitproto.Prelude.{
  ℕ, ◌+◌, ◌≤◌, ◌<◌, true, false, List, ◌++◌, ◌≡◌, refl, ap, sym, subst, ◌∙◌, inl, inr, length,
  arith, Bool-cases, ltb,
}
use test_ci_for_massbitproto.Prelude.Outcome.{Outcome, done, ◌>>=◌, bind_inversion, done-injective}
use test_ci_for_massbitproto.AscHeap.Bytes.{two_32, take, drop, to_le_bytes}
use test_ci_for_massbitproto.AscHeap.Ptr.{
  Version, version_le, legacy_version, AscHeap, AscObject, header, generate_header, padded,
  alloc_obj, read_len, read_ptr, checked_u32,
}
use test_ci_for_massbitproto.AscHeap.Header.{
  length-header, length-header_alone, header_aligned, read_len-Stored,
}

module _ (H : AscHeap) where
  -- the heap keeps what was stored
  abbrev pub Keeps : H.State → H.State → Type 0
  Keeps heap heap' = (q : ℕ) (old : List ℕ) → H.Stored q old heap → H.Stored q old heap'

  -- `content` lies at `ptr` as version 0.0.4 writes it; as later versions do, with the length `len`.
  abbrev pub IsLegacy : ℕ → List ℕ → H.State → Type 0
  IsLegacy ptr content heap = H.Stored ptr content heap

  pub record IsCurrent (ptr : ℕ) (content : List ℕ) (len : ℕ) (heap : H.State) : Type 0 where
    pub start : ℕ
    pub id : ℕ
    pub full : ℕ
    pub above : ptr ≡ start + 20
    pub below : ptr < two_32
    pub stored : H.Stored start (header id len full ++ padded H content) heap

  pub alloc_obj-IsLegacy :
      (asc_obj : AscObject) (content : List ℕ) (heap heap' : H.State) (ptr : ℕ)
      → version_le H.api_version legacy_version ≡ true
      → H.Sound heap
      → asc_obj.to_asc_bytes ≡ done content
      → alloc_obj H asc_obj heap ≡ done (ptr, heap')
      → H.Sound heap' × IsLegacy ptr content heap' × Keeps heap heap'
  unfolding alloc_obj
  alloc_obj-IsLegacy asc_obj content heap heap' ptr legacy sound bytes h =
      let written : H.raw_new content heap ≡ done (ptr, heap') = ground (arith, legacy, bytes, h) in
      H.raw_new-Stored content heap heap' ptr sound (inl legacy) written

  -- the pointer that `alloc_obj` returns
  abbrev pointer_at : ℕ → H.State → Outcome (ℕ × H.State)
  pointer_at n heap = checked_u32 n >>= λ ptr. done (ptr, heap)

  pointer_at_lem :
      (n : ℕ) (heap heap' : H.State) (ptr : ℕ)
      → pointer_at n heap ≡ done (ptr, heap')
      → (ptr ≡ n) × (heap ≡ heap') × (n < two_32)
  pointer_at_lem n heap heap' ptr h = elim (Bool-cases (ltb n two_32)) [
    | inl fits ↦
        let e = done-injective (rw fits at h) in
        (
          ap (λ (r : ℕ × H.State). r.0) (sym e),
          ap (λ (r : ℕ × H.State). r.1) e,
          ground (arith, fits),
        )
    | inr large ↦ absurd (ground (arith, rw large at h))
  ]

  written_header :
      (content : List ℕ) (id len start : ℕ) (heap heap₁ heap' : H.State) (ptr : ℕ)
      → H.Sound heap
      → H.raw_new (header id len (length (padded H content)) ++ padded H content) heap
        ≡ done (start, heap₁)
      → pointer_at (start + length (header id len (length (padded H content)))) heap₁
        ≡ done (ptr, heap')
      → H.Sound heap' × IsCurrent ptr content len heap' × Keeps heap heap'
  written_header content id len start heap heap₁ heap' ptr sound written h =
      let full = length (padded H content) in
      let (e, same, low) = pointer_at_lem (start + length (header id len full)) heap₁ heap' ptr h in
      let (sound', stored, keeps) =
        H.raw_new-Stored (header id len full ++ padded H content) heap heap₁ start sound
          (inr (header_aligned H id len full content)) written in
      subst (λ (s : H.State). H.Sound s × IsCurrent ptr content len s × Keeps heap s) same
        (
          sound',
          record {
            start = start;
            id = id;
            full = full;
            below = subst (λ p. p < two_32) (sym e) low;
            above = e ∙ ap (λ n. start + n) (length-header_alone H id len full);
            stored = stored;
          },
          keeps,
        )

  pub alloc_obj-IsCurrent :
      (asc_obj : AscObject) (content : List ℕ) (len : ℕ) (heap heap' : H.State) (ptr : ℕ)
      → version_le H.api_version legacy_version ≡ false
      → H.Sound heap
      → asc_obj.to_asc_bytes ≡ done content
      → asc_obj.content_len (padded H content) ≡ done len
      → alloc_obj H asc_obj heap ≡ done (ptr, heap')
      → H.Sound heap' × IsCurrent ptr content len heap' × Keeps heap heap'
  unfolding alloc_obj generate_header
  alloc_obj-IsCurrent asc_obj content len heap heap' ptr current sound bytes measured h =
      let full = length (padded H content) in
      let chain = rw measured at (rw bytes at (rw current at h)) in
      let ((head, heap₁), generated, rest) =
        bind_inversion (generate_header H asc_obj.index_asc_type_id len full heap) _ (ptr, heap')
          chain in
      let ((id, heap₂), typed, last) =
        bind_inversion (H.asc_type_id asc_obj.index_asc_type_id heap) _ (head, heap₁) generated in
      let ((start, heap₃), written, rest') =
        bind_inversion (H.raw_new (head ++ padded H content) heap₁) _ (ptr, heap') rest in
      let e = done-injective last in
      let headed = ap (λ (r : List ℕ × H.State). r.0) (sym e) in
      let same = ap (λ (r : List ℕ × H.State). r.1) e in
      let (sound', keeps) =
        H.asc_type_id-Stored asc_obj.index_asc_type_id heap heap₂ id sound typed in
      let (sound'', current', keeps') =
        written_header content id len start heap₁ heap₃ heap' ptr (subst H.Sound same sound')
          (subst (λ (b : List ℕ). H.raw_new (b ++ padded H content) heap₁ ≡ done (start, heap₃))
            headed written)
          (subst (λ (b : List ℕ). pointer_at (start + length b) heap₃ ≡ done (ptr, heap')) headed
            rest') in
      (
        sound'',
        current',
        λ q old s. keeps' q old (subst (λ (m : H.State). H.Stored q old m) same (keeps q old s)),
      )

  drop-header : (id len full : ℕ) (bytes : List ℕ) → drop 20 (header id len full ++ bytes) ≡ bytes
  unfolding header to_le_bytes
  drop-header id len full bytes = refl

  -- An object that was placed stays so.
  pub Keeps-IsCurrent :
      {ptr : ℕ} {content : List ℕ} {len : ℕ} {heap heap' : H.State}
      → Keeps heap heap'
      → IsCurrent ptr content len heap
      → IsCurrent ptr content len heap'
  Keeps-IsCurrent keeps c = record {
    start = c.start;
    id = c.id;
    full = c.full;
    above = c.above;
    below = c.below;
    stored = keeps _ _ c.stored;
  }

  -- The header tells the length.
  pub read_len-IsCurrent :
      {ptr : ℕ} {content : List ℕ} {len : ℕ} {heap : H.State}
      → IsCurrent ptr content len heap
      → len < two_32
      → read_len H ptr heap ≡ done len
  read_len-IsCurrent {content = content} {len = len} {heap = heap} c small =
      subst (λ p. read_len H p heap ≡ done len) (sym c.above)
        (read_len-Stored H heap c.start c.id len c.full (padded H content) c.stored small)

  -- `read_ptr` reads as many bytes of the padded content as the header says.
  pub read_ptr-IsCurrent :
      {A : Type 0} (asc_size : ℕ → H.State → Outcome ℕ)
      (from_asc_bytes : List ℕ → Version → Outcome A) (ptr : ℕ) (content : List ℕ) (len : ℕ)
      (heap : H.State)
      → version_le H.api_version legacy_version ≡ false
      → IsCurrent ptr content len heap
      → len < two_32
      → len ≤ length (padded H content)
      → read_ptr H asc_size from_asc_bytes ptr heap
        ≡ from_asc_bytes (take len (padded H content)) H.api_version
  unfolding read_ptr
  read_ptr-IsCurrent asc_size from_asc_bytes ptr content len heap current c small fits =
      let measured = read_len-IsCurrent c small in
      let got =
        H.get-Stored c.start (header c.id len c.full ++ padded H content) heap 20 len c.stored
          (omega (arith, length-header H c.id len c.full (padded H content))) in
      ground
        (arith, current, measured, got, c.above, drop-header c.id len c.full (padded H content))

  pub read_ptr-IsLegacy :
      {A : Type 0} (asc_size : ℕ → H.State → Outcome ℕ)
      (from_asc_bytes : List ℕ → Version → Outcome A) (ptr : ℕ) (content : List ℕ) (len : ℕ)
      (heap : H.State)
      → version_le H.api_version legacy_version ≡ true
      → IsLegacy ptr content heap
      → asc_size ptr heap ≡ done len
      → len ≤ length content
      → read_ptr H asc_size from_asc_bytes ptr heap
        ≡ from_asc_bytes (take len content) H.api_version
  unfolding read_ptr
  read_ptr-IsLegacy asc_size from_asc_bytes ptr content len heap legacy stored sized fits =
      ground (arith, legacy, sized, H.get-Stored ptr content heap 0 len stored)
