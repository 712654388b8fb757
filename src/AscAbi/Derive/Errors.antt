-- ===== src/AscAbi/Derive/Errors.antt =====
-- The bytes of which `#[derive(AscType)]` of runtime/derive/src/lib.rs makes a struct, and those for which it
-- returns an error.
use test_ci_for_massbitproto.Prelude.{
  ℕ, zero, suc, String, Bool-cases, true, inl, inr, ◌+◌, ◌≤◌, ◌<◌, ltb, ◌==◌, if◌then◌else◌, List,
  [], ◌∷◌, length, ◌≡◌, ◌⊎◌, refl, arith,
}
use test_ci_for_massbitproto.Prelude.Outcome.{Outcome, done, failed}
use test_ci_for_massbitproto.AscHeap.Bytes.{take, drop, header_size, padding_to_16}
use test_ci_for_massbitproto.AscHeap.Words.{of_le_bytes, from_asc_bytes}
use test_ci_for_massbitproto.AscHeap.Ptr.{Version, version_le, legacy_version}
use test_ci_for_massbitproto.AscAbi.Derive.{
  FieldType, unsigned, boolean, derived_enum, field_size, size_of, bool_from_asc_bytes,
  enum_from_asc_bytes, field_from_asc_bytes, read_fields, struct_from_asc_bytes,
}

length-drop {ℓ} :
    {A : Type ℓ} (n : ℕ) (xs : List A) → n ≤ length xs → length (drop n xs) + n ≡ length xs
length-drop zero xs h = omega arith
length-drop (suc n) [] h = absurd (omega arith)
length-drop (suc n) (x ∷ xs) h = omega (arith, length-drop n xs)

length-take {ℓ} : {A : Type ℓ} (n : ℕ) (xs : List A) → n ≤ length xs → length (take n xs) ≡ n
length-take zero xs h = refl
length-take (suc n) [] h = absurd (omega arith)
length-take (suc n) (x ∷ xs) h = omega (arith, length-take n xs)

-- the value of a type that a number stands for: every number but 0 is `true`
abbrev pub value_of : FieldType → ℕ → ℕ
value_of (unsigned size) n = n
value_of boolean n = if n == 0 then 0 else 1
value_of (derived_enum variants) n = n

-- the values of the numbers in the bytes, at the places of the fields
abbrev pub values_in : List FieldType → List ℕ → List ℕ
values_in [] asc_obj = []
values_in (t ∷ types) asc_obj =
    value_of t (of_le_bytes (take (field_size t) asc_obj))
    ∷ values_in types (drop (field_size t) asc_obj)

-- Where the type is an enum, the number is below that of its variants.
abbrev pub IsKnown : FieldType → ℕ → Type 0
IsKnown (unsigned size) v = Unit
IsKnown boolean v = Unit
IsKnown (derived_enum variants) v = v < variants

abbrev pub AreKnown : List FieldType → List ℕ → Type 0
AreKnown [] asc_obj = Unit
AreKnown (t ∷ types) asc_obj =
    IsKnown t (of_le_bytes (take (field_size t) asc_obj))
    × AreKnown types (drop (field_size t) asc_obj)

-- What reading gives: the numbers, or an error.
abbrev IsRead : List FieldType → List ℕ → Outcome (List ℕ) → Type 0
IsRead types asc_obj result =
    ((size_of types ≤ length asc_obj)
      × AreKnown types asc_obj
      × (result ≡ done (values_in types asc_obj)))
    ⊎ (((length asc_obj < size_of types) ⊎ (¬ AreKnown types asc_obj))
        × (e : String) × (result ≡ failed e))

field_lem :
    (t : FieldType) (asc_obj : List ℕ)
    → field_size t ≤ length asc_obj
    → let bytes = take (field_size t) asc_obj in
      (IsKnown t (of_le_bytes bytes)
        × (field_from_asc_bytes t bytes ≡ done (value_of t (of_le_bytes bytes))))
      ⊎ ((¬ IsKnown t (of_le_bytes bytes))
          × (e : String) × (field_from_asc_bytes t bytes ≡ failed e))
unfolding field_from_asc_bytes from_asc_bytes enum_from_asc_bytes bool_from_asc_bytes of_le_bytes
field_lem (unsigned size) asc_obj long = inl (tt, ground (arith, length-take size asc_obj long))
field_lem boolean [] long = absurd (omega (arith, long))
field_lem boolean (b ∷ rest) long = inl (tt, ground arith)
field_lem (derived_enum variants) asc_obj long =
    let v = of_le_bytes (take 4 asc_obj) in
    elim (Bool-cases (ltb v variants)) [
      | inl known ↦ inl (ground (arith, known), ground (arith, length-take 4 asc_obj long, known))
      | inr unknown ↦ inr (
        λ h. absurd (ground (arith, unknown, h)),
        "value {} is out of range for {}",
        ground (arith, length-take 4 asc_obj long, unknown),
      )
    ]

read_fields-IsRead :
    (types : List FieldType) (asc_obj : List ℕ) → IsRead types asc_obj (read_fields types asc_obj)
unfolding read_fields
read_fields-IsRead [] asc_obj = inl (omega arith, tt, refl)
read_fields-IsRead (t ∷ types) asc_obj = elim (Bool-cases (ltb (length asc_obj) (field_size t))) [
  | inl short ↦
      inr
        (inl (ground (arith, short)), "Attempted to read past end of array", ground (arith, short))
  | inr long ↦
      let enough : field_size t ≤ length asc_obj = ground (arith, long) in
      elim (field_lem t asc_obj enough) [
        | inr (unknown, e, fails) ↦ inr (inr (λ all. unknown all.0), e, ground (arith, long, fails))
        | inl (known, reads) ↦ elim (read_fields-IsRead types (drop (field_size t) asc_obj)) [
          | inl (more, rest, values) ↦ inl (
            omega (arith, more, enough, length-drop (field_size t) asc_obj enough),
            (known, rest),
            ground (arith, long, reads, values),
          )
          | inr (why, e, fails) ↦ inr (
            elim why [
              | inl short ↦
                  inl (omega (arith, short, enough, length-drop (field_size t) asc_obj enough))
              | inr unknown ↦ inr (λ all. unknown all.1)
            ],
            e,
            ground (arith, long, reads, fails),
          )
        ]
      ]
]

-- The derived `from_asc_bytes` of a struct makes its value of the bytes, in every version, where they
-- are at least as many as the fields have, and each field that is a derived enum has the discriminant
-- of a variant: the values are those of the numbers at the places of the fields. In every other case it
-- returns an error. The check of the versions after 0.0.4 changes nothing but the message of one case.
pub struct_from_asc_bytes_lem :
    (types : List FieldType) (asc_obj : List ℕ) (api_version : Version)
    → ((size_of types ≤ length asc_obj)
        × AreKnown types asc_obj
        × (struct_from_asc_bytes types asc_obj api_version ≡ done (values_in types asc_obj)))
      ⊎ (((length asc_obj < size_of types) ⊎ (¬ AreKnown types asc_obj))
          × (e : String) × (struct_from_asc_bytes types asc_obj api_version ≡ failed e))
unfolding struct_from_asc_bytes padding_to_16
struct_from_asc_bytes_lem types asc_obj api_version =
    elim (Bool-cases (ltb (length asc_obj) (size_of types))) [
      | inr long ↦ elim (read_fields-IsRead types asc_obj) [
        | inl (enough, known, reads) ↦ inl (enough, known, ground (arith, long, reads))
        | inr (why, e, refused) ↦ inr (why, e, ground (arith, long, refused))
      ]
      | inl short ↦
          let (message, refused) = fails short in
          inr (inl (ground (arith, short)), message, refused)
    ]
  where
    fails :
        ltb (length asc_obj) (size_of types) ≡ true
        → (e : String) × (struct_from_asc_bytes types asc_obj api_version ≡ failed e)
    fails short = elim (Bool-cases (version_le api_version legacy_version)) [
      | inl legacy ↦ ("Size does not match", ground (arith, legacy, short))
      | inr current ↦
          elim (Bool-cases
            (header_size + length asc_obj == padding_to_16 (size_of types) + size_of types)) [
              | inl e ↦ ("Size does not match", ground (arith, current, e))
              | inr e ↦ elim (read_fields-IsRead types asc_obj) [
                | inl (enough, known, reads) ↦ absurd (ground (arith, enough, short))
                | inr (why, message, refused) ↦ (message, ground (arith, current, e, refused))
              ]
            ]
    ]
