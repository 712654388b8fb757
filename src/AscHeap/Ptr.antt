-- ===== src/AscHeap/Ptr.antt =====
-- `AscPtr` of massbit/src/runtime/asc_ptr.rs, over the trait `AscHeap` of massbit/src/runtime/asc_heap.rs.
use test_ci_for_massbitproto.Prelude.{
  ℕ, ◌+◌, ◌-◌, ◌%◌, ◌≤◌, Bool, ◌||◌, ◌&&◌, ltb, leb, ◌==◌, if◌then◌else◌, List, ◌++◌, ◌≡◌, ◌⊎◌,
  true, length,
}
use test_ci_for_massbitproto.Prelude.Outcome.{Outcome, done, failed, panic, ◌>>=◌}
use test_ci_for_massbitproto.AscHeap.Bytes.{
  two_32, to_le_bytes, from_le_bytes, padding_to_16, zeros, take, drop,
}

-- A version of semver, without a pre-release.
pub record Version : Type 0 where
  pub major : ℕ
  pub minor : ℕ
  pub patch : ℕ

abbrev pub version_le : Version → Version → Bool
version_le a b =
    ltb a.major b.major
    || (a.major == b.major) && (ltb a.minor b.minor || (a.minor == b.minor) && leb a.patch b.patch)

abbrev pub legacy_version : Version
legacy_version = record { major = 0; minor = 0; patch = 4 }

-- After version 0.0.4 an allocation takes a multiple of 16 bytes.
abbrev pub IsAligned : Version → ℕ → Type 0
IsAligned version size = (version_le version legacy_version ≡ true) ⊎ (size % 16 ≡ 0)

-- The trait `AscHeap`, whose implementor gives the allocation and the reads. `Stored ptr bytes heap`: the
-- heap keeps these bytes, which `raw_new` wrote at `ptr`. `Sound` is the implementor's invariant.
pub record AscHeap : Type 1 where
  pub State : Type 0
  pub api_version : Version
  pub raw_new : List ℕ → State → Outcome (ℕ × State)
  pub get : ℕ → ℕ → State → Outcome (List ℕ)
  pub asc_type_id : ℕ → State → Outcome (ℕ × State)
  pub Stored : ℕ → List ℕ → State → Type 0
  pub Sound : State → Type 0
  pub get-Stored :
      (ptr : ℕ) (bytes : List ℕ) (heap : State) (offset size : ℕ)
      → Stored ptr bytes heap
      → offset + size ≤ length bytes
      → get (ptr + offset) size heap ≡ done (take size (drop offset bytes))
  pub raw_new-Stored :
      (bytes : List ℕ) (heap heap' : State) (ptr : ℕ)
      → Sound heap
      → IsAligned api_version (length bytes)
      → raw_new bytes heap ≡ done (ptr, heap')
      → Sound heap'
        × Stored ptr bytes heap'
        × ((q : ℕ) (old : List ℕ) → Stored q old heap → Stored q old heap')
  pub asc_type_id-Stored :
      (index : ℕ) (heap heap' : State) (id : ℕ)
      → Sound heap
      → asc_type_id index heap ≡ done (id, heap')
      → Sound heap' × ((q : ℕ) (old : List ℕ) → Stored q old heap → Stored q old heap')

-- An object of a class that implements `AscType` and `AscIndexId`.
pub record AscObject : Type 0 where
  pub to_asc_bytes : Outcome (List ℕ)
  pub content_len : List ℕ → Outcome ℕ
  pub index_asc_type_id : ℕ

abbrev pub checked_u32 : ℕ → Outcome ℕ
checked_u32 n = if ltb n two_32 then done n else panic

unfoldable pub is_null : ℕ → Bool
is_null ptr = ptr == 0

unfoldable pub check_is_not_null : ℕ → Outcome (Unit {0})
check_is_not_null ptr =
    if is_null ptr then failed "Tried to read AssemblyScript value that is 'null'" else done tt

-- the header for a class, a content length and the length of the padded content
unfoldable pub header : ℕ → ℕ → ℕ → List ℕ
header asc_type_id content_length full_length =
    to_le_bytes ((4 + 4 + 4 + 4 + full_length) % two_32)
    ++ to_le_bytes 0
    ++ to_le_bytes 0
    ++ to_le_bytes asc_type_id
    ++ to_le_bytes (content_length % two_32)

module _ (H : AscHeap) where
  unfoldable pub generate_header : ℕ → ℕ → ℕ → H.State → Outcome (List ℕ × H.State)
  generate_header type_id_index content_length full_length heap = do
    (asc_type_id, heap') ← H.asc_type_id type_id_index heap
    done (header asc_type_id content_length full_length, heap')

  -- `bytes` with the padding
  unfoldable pub padded : List ℕ → List ℕ
  padded bytes = bytes ++ zeros (padding_to_16 (length bytes))

  unfoldable pub alloc_obj : AscObject → H.State → Outcome (ℕ × H.State)
  alloc_obj asc_obj heap =
      if version_le H.api_version legacy_version
      then (asc_obj.to_asc_bytes >>= λ bytes. H.raw_new bytes heap)
      else (do
        content ← asc_obj.to_asc_bytes
        let bytes = padded content
        len ← asc_obj.content_len bytes
        (head, heap₁) ← generate_header asc_obj.index_asc_type_id len (length bytes) heap
        (heap_ptr, heap₂) ← H.raw_new (head ++ bytes) heap₁
        ptr ← checked_u32 (heap_ptr + length head)
        done (ptr, heap₂))

  unfoldable pub read_u32 : ℕ → H.State → Outcome ℕ
  read_u32 ptr heap = H.get ptr 4 heap >>= from_le_bytes

  -- the bytes of a field of the header that lies below the pointer
  unfoldable pub start_of_rt_size : ℕ → Outcome ℕ
  start_of_rt_size ptr = if leb 4 ptr then done (ptr - 4) else failed "Subtract overflow on pointer"

  unfoldable pub read_len : ℕ → H.State → Outcome ℕ
  read_len ptr heap = do
    _ ← check_is_not_null ptr
    start ← start_of_rt_size ptr
    raw_bytes ← H.get start 4 heap
    from_le_bytes raw_bytes

  -- `asc_size` is that of the class, of which the versions up to 0.0.4 have one.
  unfoldable pub read_ptr :
      {A : Type 0} (asc_size : ℕ → H.State → Outcome ℕ)
      (from_asc_bytes : List ℕ → Version → Outcome A)
      → ℕ
      → H.State
      → Outcome A
  read_ptr asc_size from_asc_bytes ptr heap = do
    len ← if version_le H.api_version legacy_version then asc_size ptr heap else read_len ptr heap
    bytes ← H.get ptr len heap
    from_asc_bytes bytes H.api_version
