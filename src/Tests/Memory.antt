-- ===== src/Tests/Memory.antt =====
-- A linear memory with an allocator that hands out block after block.
use test_ci_for_massbitproto.Prelude.{
  ℕ, zero, suc, ◌+◌, ◌≤◌, ◌<◌, leb, ◌==◌, if◌then◌else◌, Option, none, some, List, [], ◌∷◌, length,
  ◌⊎◌, ◌≡◌, refl, ap, sym, ◌∙◌, subst, arith,
}
use native.Mathlib.Decide.{dec_le}
use test_ci_for_massbitproto.Prelude.Int.{ℤ, pos}
use test_ci_for_massbitproto.Prelude.Outcome.{Outcome, done, panic}
use test_ci_for_massbitproto.AscHeap.Bytes.{take, drop, two_32}
use test_ci_for_massbitproto.AscHeap.Ptr.{Version}
use test_ci_for_massbitproto.Wasm.Memory.{WasmMemory, address}

-- a mebibyte
abbrev pub memory_size : ℕ
memory_size = 1048576

pub record Cells : Type 0 where
  pub cell : ℕ → ℕ
  pub brk : ℕ

abbrev pub cells_at : (ℕ → ℕ) → ℕ → ℕ → List ℕ
cells_at c p zero = []
cells_at c p (suc n) = c p ∷ cells_at c (suc p) n

abbrev pub write_cells : (ℕ → ℕ) → ℕ → List ℕ → ℕ → ℕ
write_cells c p [] a = c a
write_cells c p (b ∷ bytes) a = if a == p then b else write_cells c (suc p) bytes a

abbrev pub read : ℕ → ℕ → Cells → Option (List ℕ)
read p n m = if leb (p + n) memory_size then some (cells_at m.cell p n) else none

abbrev pub write : ℕ → List ℕ → Cells → Option Cells
write p bytes m =
    if leb (p + length bytes) memory_size
    then some (record m { cell = write_cells m.cell p bytes })
    else none

abbrev pub reserved : ℕ → ℕ
reserved n = n + 12

abbrev pub allocate : ℕ → Cells → Outcome (ℤ × Cells)
allocate n m =
    if leb (m.brk + reserved n) memory_size
    then done (pos m.brk, record m { brk = m.brk + reserved n })
    else panic

abbrev pub Taken : Cells → ℕ → Type 0
Taken m a = a < m.brk

some-injective {ℓ} : {A : Type ℓ} {x y : A} → some x ≡ some y → x ≡ y
some-injective h = cc

part :
    (c : ℕ → ℕ) (p k o n : ℕ) → o + n ≤ k → cells_at c (p + o) n ≡ take n (drop o (cells_at c p k))
part c p k zero zero h = refl
part c p zero zero (suc n) h = absurd (omega (arith, h))
part c p (suc k) zero (suc n) h =
    ap (λ q. c q ∷ cells_at c (suc q) n) (add-0 p)
    ∙ ap (◌∷◌ (c p))
        (ap (λ q. cells_at c q n) (sym (add-0 (suc p))) ∙ part c (suc p) k zero n (omega arith))
  where
    add-0 : (q : ℕ) → q + 0 ≡ q
    add-0 q = omega arith
part c p zero (suc o) n h = absurd (omega (arith, h))
part c p (suc k) (suc o) n h =
    ap (λ q. cells_at c q n) (shift p o) ∙ part c (suc p) k o n (omega arith)
  where
    shift : (q o : ℕ) → q + suc o ≡ suc q + o
    shift q o = omega arith

write_before :
    (c : ℕ → ℕ) (p : ℕ) (bytes : List ℕ) (a : ℕ)
    → (a < p) ⊎ (p + length bytes ≤ a)
    → write_cells c p bytes a ≡ c a
write_before c p [] a h = refl
write_before c p (b ∷ bytes) a h = ground (arith, h, write_before c (suc p) bytes a)

cells-write_before :
    (c : ℕ → ℕ) (p : ℕ) (bytes : List ℕ) (q n : ℕ)
    → ((i : ℕ) → i < n → (q + i < p) ⊎ (p + length bytes ≤ q + i))
    → cells_at (write_cells c p bytes) q n ≡ cells_at c q n
cells-write_before c p bytes q zero h = refl
cells-write_before c p bytes q (suc n) h = λ i.
    write_before c p bytes q
      (subst (λ a. (a < p) ⊎ (p + length bytes ≤ a)) (add-0 q) (h 0 (omega arith))) i
    ∷ cells-write_before c p bytes (suc q) n
        (λ j lt.
          subst (λ a. (a < p) ⊎ (p + length bytes ≤ a)) (shift q j) (h (suc j) (omega arith)))
        i
  where
    add-0 : (q : ℕ) → q + 0 ≡ q
    add-0 q = omega arith

    shift : (q o : ℕ) → q + suc o ≡ suc q + o
    shift q o = omega arith

cells_cong :
    (c d : ℕ → ℕ) (q n : ℕ) → ((a : ℕ) → q ≤ a → c a ≡ d a) → cells_at c q n ≡ cells_at d q n
cells_cong c d q zero h = refl
cells_cong c d q (suc n) h =
    λ i. h q (omega arith) i ∷ cells_cong c d (suc q) n (λ a le. h a (omega arith)) i

cells-write :
    (c : ℕ → ℕ) (p : ℕ) (bytes : List ℕ) → cells_at (write_cells c p bytes) p (length bytes) ≡ bytes
cells-write c p [] = refl
cells-write c p (b ∷ bytes) = λ i.
    first c p b bytes i
    ∷ (cells_cong (write_cells c p (b ∷ bytes)) (write_cells c (suc p) bytes) (suc p) (length bytes)
            (λ a le. ground arith)
          ∙ cells-write c (suc p) bytes)
        i
  where
    first : (c : ℕ → ℕ) (p b : ℕ) (bytes : List ℕ) → write_cells c p (b ∷ bytes) p ≡ b
    first c p b bytes = ground arith

pub read_part :
    (p k o n : ℕ) (bytes : List ℕ) (m : Cells)
    → read p k m ≡ some bytes
    → o + n ≤ k
    → read (p + o) n m ≡ some (take n (drop o bytes))
read_part p k o n bytes m h fits = elim (dec_le (p + k) memory_size) [
  | yes inside ↦
      let e : cells_at m.cell p k ≡ bytes = ground (arith, h) in
      let inside' : p + o + n ≤ memory_size = omega (arith, inside, fits) in
      read_inside (p + o) n m inside'
      ∙ ap some (part m.cell p k o n fits ∙ ap (λ l. take n (drop o l)) e)
  | no outside ↦ absurd (ground (arith, h))
]
  where
    read_inside :
        (p n : ℕ) (m : Cells) → p + n ≤ memory_size → read p n m ≡ some (cells_at m.cell p n)
    read_inside p n m h = ground arith

write_lem :
    (p : ℕ) (bytes : List ℕ) (m m' : Cells)
    → write p bytes m ≡ some m'
    → (p + length bytes ≤ memory_size) × (record m { cell = write_cells m.cell p bytes } ≡ m')
write_lem p bytes m m' h = elim (dec_le (p + length bytes) memory_size) [
  | yes inside ↦ (inside, some-injective (sym (written p bytes m inside) ∙ h))
  | no outside ↦ absurd (ground (arith, h))
]
  where
    written :
        (p : ℕ) (bytes : List ℕ) (m : Cells)
        → p + length bytes ≤ memory_size
        → write p bytes m ≡ some (record m { cell = write_cells m.cell p bytes })
    written p bytes m h = ground arith

pub write_fits :
    (p : ℕ) (bytes : List ℕ) (m m' : Cells) → write p bytes m ≡ some m' → p + length bytes ≤ two_32
write_fits p bytes m m' h = omega (arith, (write_lem p bytes m m' h).0)

pub read-write :
    (p : ℕ) (bytes : List ℕ) (m m' : Cells)
    → write p bytes m ≡ some m'
    → read p (length bytes) m' ≡ some bytes
read-write p bytes m m' h =
    let (inside, e) = write_lem p bytes m m' h in
    ground (
      arith,
      inside,
      ap (λ (c : Cells). cells_at c.cell p (length bytes)) e,
      cells-write m.cell p bytes,
    )

pub read-write_apart :
    (p q n : ℕ) (bytes : List ℕ) (m m' : Cells)
    → write p bytes m ≡ some m'
    → ((i : ℕ) → i < n → (q + i < p) ⊎ (p + length bytes ≤ q + i))
    → read q n m' ≡ read q n m
read-write_apart p q n bytes m m' h apart =
    let (inside, e) = write_lem p bytes m m' h in
    ap (read q n) (sym e)
    ∙ ap (λ l. if leb (q + n) memory_size then some l else none)
        (cells-write_before m.cell p bytes q n apart)

pub Taken-write :
    (p : ℕ) (bytes : List ℕ) (m m' : Cells)
    → write p bytes m ≡ some m'
    → (a : ℕ) → Taken m a
    → Taken m' a
Taken-write p bytes m m' h a t = subst (λ (c : Cells). Taken c a) (write_lem p bytes m m' h).1 t

pub reserved-le : (n : ℕ) → n ≤ reserved n
reserved-le n = omega arith

pub reserved_aligned : (n : ℕ) → n + 12 ≤ reserved n
reserved_aligned n = omega arith

allocate_lem :
    (n : ℕ) (m m' : Cells) (p : ℤ)
    → allocate n m ≡ done (p, m')
    → (m.brk + reserved n ≤ memory_size)
      × (p ≡ pos m.brk)
      × (m' ≡ record m { brk = m.brk + reserved n })
allocate_lem n m m' p h = ground (arith, h)

pub allocate_fits :
    (n : ℕ) (m m' : Cells) (p : ℤ) → allocate n m ≡ done (p, m') → address p + reserved n ≤ two_32
allocate_fits n m m' p h =
    let (inside, at, e) = allocate_lem n m m' p h in
    subst (λ (q : ℤ). address q + reserved n ≤ two_32) (sym at) (omega (arith, inside))

pub allocate_fresh :
    (n : ℕ) (m m' : Cells) (p : ℤ)
    → allocate n m ≡ done (p, m')
    → (a : ℕ) → address p ≤ a
    → a < address p + reserved n
    → ¬ Taken m a × Taken m' a
allocate_fresh n m m' p h a low high =
    let (inside, at, e) = allocate_lem n m m' p h in
    let at' : address p ≡ m.brk = ap address at in
    let e' : m'.brk ≡ m.brk + reserved n = ap (λ (c : Cells). c.brk) e in
    (λ t. omega (arith, t, low, at'), omega (arith, high, at', e'))

pub allocate_keeps :
    (n : ℕ) (m m' : Cells) (p : ℤ)
    → allocate n m ≡ done (p, m')
    → ((a : ℕ) → Taken m a → Taken m' a)
      × ((q k : ℕ) (bytes : List ℕ)
          → read q k m ≡ some bytes
          → ((i : ℕ) → i < k → Taken m (q + i))
          → read q k m' ≡ some bytes)
allocate_keeps n m m' p h =
    let (inside, at, e) = allocate_lem n m m' p h in
    let e' : m'.brk ≡ m.brk + reserved n = ap (λ (c : Cells). c.brk) e in
    (λ a t. omega (arith, t, e'), λ q k bytes r taken. ap (read q k) e ∙ r)

pub id_of_type_keeps :
    (index : ℕ) (m m' : Cells) (id : ℕ)
    → ◌≡◌ {A = Outcome (ℕ × Cells)} (done (index, m)) (done (id, m'))
    → ((a : ℕ) → Taken m a → Taken m' a)
      × ((q k : ℕ) (bytes : List ℕ)
          → read q k m ≡ some bytes
          → ((i : ℕ) → i < k → Taken m (q + i))
          → read q k m' ≡ some bytes)
id_of_type_keeps index m m' id h =
    let e : m ≡ m' = ground (arith, h) in
    (λ a t. subst (λ (c : Cells). Taken c a) e t, λ q k bytes r taken. ap (read q k) (sym e) ∙ r)

-- the memory of a module of a version, whose types have their indexes as ids
abbrev pub memory : Version → WasmMemory
memory api_version = record {
  State = Cells;
  version = api_version;
  read = read;
  write = write;
  allocate = allocate;
  id_of_type = λ index m. done (index, m);
  reserved = reserved;
  Taken = Taken;
  read_part = read_part;
  write_fits = write_fits;
  read-write = read-write;
  read-write_apart = read-write_apart;
  Taken-write = Taken-write;
  reserved-le = reserved-le;
  reserved_aligned = λ n v h. reserved_aligned n;
  allocate_fits = allocate_fits;
  allocate_fresh = allocate_fresh;
  allocate_keeps = allocate_keeps;
  id_of_type_keeps = id_of_type_keeps;
}

abbrev pub empty : Cells
empty = record { cell = λ a. 0; brk = 16 }

abbrev pub version_0_0_5 : Version
version_0_0_5 = record { major = 0; minor = 0; patch = 5 }

abbrev pub version_0_0_4 : Version
version_0_0_4 = record { major = 0; minor = 0; patch = 4 }
