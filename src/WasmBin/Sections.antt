-- ===== src/WasmBin/Sections.antt =====
-- Wasm modules as sequences of sections: what wasmbin.go finds in the bytes of one.
use wzprof.Base.{
  ℕ, zero, suc, ◌+◌, ◌^◌, ◌≤◌, ◌<◌, ◌≡◌, ◌≢◌, refl, sym, inl, inr, List, [], ◌∷◌, ◌++◌,
  append_assoc, Option, some, none, ltb, ◌==◌, ==→eq, ltb→ge, lt→ltb, ge→ltb, ne→==, le→leb,
  if◌then◌else◌, Bool-cases, length, length-append, take-append_length, drop-append_length, Outcome,
  ok, arith,
}
use wzprof.Base.Words.{sub64}
use wzprof.WasmBin.{
  slice_from, slice, bytes_eq, custom_body, custom_loop, wasm_custom_section, data_loop,
  wasmdata_section,
}
use wzprof.WasmBin.Leb.{
  uvarint_bytes, groups_size, take_uvarint-bytes, slice_to-append, slice_from-append,
}

-- A section: a custom one with its name and content, or another with its id and content.
pub data Section : Type 0 where
  custom : List ℕ → List ℕ → Section
  other : ℕ → List ℕ → Section

abbrev pub body : List ℕ → List ℕ → List ℕ
body name content = uvarint_bytes (length name) ++ (name ++ content)

abbrev pub sections_bytes : List Section → List ℕ
sections_bytes [] = []
sections_bytes (custom name content ∷ secs) =
    0 ∷ (uvarint_bytes (length (body name content)) ++ (body name content ++ sections_bytes secs))
sections_bytes (other id content ∷ secs) =
    id ∷ (uvarint_bytes (length content) ++ (content ++ sections_bytes secs))

-- Sizes fit their fields, and ids are as the constructors say.
abbrev pub IsSection : Section → Type 0
IsSection (custom name content) = length (body name content) < 2 ^ 64
IsSection (other id content) = (id ≢ 0) × (length content < 2 ^ 64) × (id ≡ 11 → content ≢ [])

abbrev pub AreSections : List Section → Type 0
AreSections [] = Unit {0}
AreSections (s ∷ secs) = IsSection s × AreSections secs

-- The content of the first custom section of a name.
abbrev pub custom_named : List ℕ → List Section → Option (List ℕ)
custom_named name [] = none
custom_named name (custom m content ∷ secs) =
    if bytes_eq m name then some content else custom_named name secs
custom_named name (other id content ∷ secs) = custom_named name secs

-- The content of the first data section.
abbrev pub data_content : List Section → Option (List ℕ)
data_content [] = none
data_content (custom m content ∷ secs) = data_content secs
data_content (other id content ∷ secs) = if id == 11 then some content else data_content secs

pub middle :
    (xs ys zs : List ℕ) (n : ℕ)
    → n ≡ length xs + length ys
    → slice (length xs) n (xs ++ (ys ++ zs)) ≡ ok ys
middle xs ys zs n e =
    rw (e, ← length-append xs ys, ← append_assoc xs ys zs)
      (rw (
        le→leb (length xs) (length (xs ++ ys)) (omega (arith, length-append xs ys)),
        le→leb (length (xs ++ ys)) (length ((xs ++ ys) ++ zs))
            (omega (arith, length-append (xs ++ ys) zs)),
        take-append_length (xs ++ ys) zs,
        drop-append_length xs ys,
      ))

beyond :
    (xs ys zs : List ℕ) (n : ℕ)
    → n ≡ length xs + length ys
    → slice_from n (xs ++ (ys ++ zs)) ≡ ok zs
beyond xs ys zs n e =
    rw (← append_assoc xs ys zs)
      (slice_from-append (xs ++ ys) zs n (omega (arith, length-append xs ys)))

module _ (want m content : List ℕ) (more : List ℕ → Outcome (Option (List ℕ))) (rest : List ℕ) where
  custom_body-at :
      (len : ℕ)
      → length m < 2 ^ 64
      → sub64 len (length (uvarint_bytes (length m))) ≡ length m + length content
      → custom_body want len (uvarint_bytes (length m) ++ (m ++ (content ++ rest))) more
        ≡ (if bytes_eq m want then ok (some content) else more rest)
  unfolding custom_body
  custom_body-at len small e =
      rw
        (
          take_uvarint-bytes (length m) (m ++ (content ++ rest)) small,
          slice_to-append m (content ++ rest) (length m) refl,
        )
        (elim (Bool-cases (bytes_eq m want)) [
          | inl t ↦ rw (t, middle m content rest (sub64 len (length (uvarint_bytes (length m)))) e)
          | inr t ↦ rw (t, beyond m content rest (sub64 len (length (uvarint_bytes (length m)))) e)
        ])

  custom_body-bytes :
      length (body m content) < 2 ^ 64
      → custom_body want (length (body m content)) (body m content ++ rest) more
        ≡ (if bytes_eq m want then ok (some content) else more rest)
  custom_body-bytes h =
      rw (append_assoc (uvarint_bytes (length m)) (m ++ content) rest, append_assoc m content rest)
        (custom_body-at (length (body m content)) (omega (arith, sizes)) (omega (arith, sizes)))
    where
      sizes :
          length (body m content) ≡ length (uvarint_bytes (length m)) + (length m + length content)
      sizes =
          omega (
            arith,
            length-append (uvarint_bytes (length m)) (m ++ content),
            length-append m content,
          )

length-body : (m content : List ℕ) → 0 < length (body m content)
length-body m content =
    omega (arith, length-append (uvarint_bytes (length m)) (m ++ content), groups_size 9 (length m))

length-custom :
    (m content rest : List ℕ)
    → 1 < length (uvarint_bytes (length (body m content)) ++ (body m content ++ rest))
      × (length rest < length (uvarint_bytes (length (body m content)) ++ (body m content ++ rest)))
length-custom m content rest = omega (
  arith,
  length-append (uvarint_bytes (length (body m content))) (body m content ++ rest),
  length-append (body m content) rest,
  groups_size 9 (length (body m content)),
  length-body m content,
)

length-other :
    (content rest : List ℕ)
    → length (uvarint_bytes (length content) ++ (content ++ rest))
      ≡ length (uvarint_bytes (length content)) + length content + length rest
length-other content rest = omega (
  arith,
  length-append (uvarint_bytes (length content)) (content ++ rest),
  length-append content rest,
)

eq_nil : (xs : List ℕ) → length xs ≡ 0 → xs ≡ []
eq_nil [] h = refl
eq_nil (x ∷ xs) h = absurd (omega arith)

-- A module's last section may be too short for the loop to look at: it is no custom section.
short-sections :
    (want : List ℕ) (secs : List Section)
    → length (sections_bytes secs) ≤ 2
    → AreSections secs
    → (custom_named want secs ≡ none) × (data_content secs ≡ none)
short-sections want [] h v = (refl, refl)
short-sections want (custom m content ∷ secs) h v =
    absurd (omega (arith, length-custom m content (sections_bytes secs)))
short-sections want (other id content ∷ secs) h v = (
  (short-sections want secs (omega (arith, sized, some_bytes)) v.1).0,
  elim (Bool-cases (id == 11)) [
    | inl t ↦ absurd (v.0.2 (==→eq id 11 t) (eq_nil content (omega (arith, sized, some_bytes))))
    | inr t ↦ rw t (short-sections want secs (omega (arith, sized, some_bytes)) v.1).1
  ],
)
  where
    sized :
        length (uvarint_bytes (length content) ++ (content ++ sections_bytes secs))
        ≡ length (uvarint_bytes (length content)) + length content + length (sections_bytes secs)
    sized = length-other content (sections_bytes secs)

    some_bytes : 0 < length (uvarint_bytes (length content))
    some_bytes = (groups_size 9 (length content)).0

custom_loop-sections :
    (secs : List Section) (want : List ℕ) (fuel : ℕ)
    → length (sections_bytes secs) < fuel
    → AreSections secs
    → custom_loop fuel want (sections_bytes secs) ≡ ok (custom_named want secs)
unfolding custom_loop
custom_loop-sections secs want zero h v = absurd (omega arith)
custom_loop-sections [] want (suc fuel) h v = refl
custom_loop-sections (custom m content ∷ secs) want (suc fuel) h v =
    let rest = sections_bytes secs in
    let (long, shorter) = length-custom m content rest in
    rw
      (
        lt→ltb 1 _ long,
        take_uvarint-bytes (length (body m content)) (body m content ++ rest) v.0,
        custom_body-bytes want m content (λ b. custom_loop fuel want b) rest v.0,
      )
      (elim (Bool-cases (bytes_eq m want)) [
        | inl t ↦ rw t
        | inr t ↦ rw t (custom_loop-sections secs want fuel (omega (arith, shorter)) v.1)
      ])
custom_loop-sections (other id content ∷ secs) want (suc fuel) h v =
    let rest = sections_bytes secs in
    let sized = length-other content rest in
    let some_bytes = (groups_size 9 (length content)).0 in
    elim (Bool-cases (ltb 1 (length (uvarint_bytes (length content) ++ (content ++ rest))))) [
      | inl t ↦
          rw
            (
              t,
              take_uvarint-bytes (length content) (content ++ rest) v.0.1,
              ne→== id 0 v.0.0,
              slice_from-append content rest (length content) refl,
            )
            (custom_loop-sections secs want fuel (omega (arith, sized, some_bytes)) v.1)
      | inr t ↦
          rw (t, (short-sections want secs (omega (arith, sized, some_bytes, ltb→ge 1 _ t)) v.1).0)
    ]

-- `wasmCustomSection`, on a module of any header and any sections whose sizes fit their fields,
-- returns the content of the first custom section of the name, or nil when there is none.
pub wasm_custom_section-sections :
    (header want : List ℕ) (secs : List Section)
    → length header ≡ 8
    → AreSections secs
    → wasm_custom_section (header ++ sections_bytes secs) want ≡ ok (custom_named want secs)
unfolding wasm_custom_section
wasm_custom_section-sections header want secs h v =
    let sized = length-append header (sections_bytes secs) in
    rw
      (
        ge→ltb (length (header ++ sections_bytes secs)) 8 (omega (arith, sized)),
        ← h,
        drop-append_length header (sections_bytes secs),
      )
      (custom_loop-sections secs want (suc (length (header ++ sections_bytes secs)))
        (omega (arith, sized)) v)

data_loop-sections :
    (secs : List Section) (fuel : ℕ)
    → length (sections_bytes secs) < fuel
    → AreSections secs
    → data_loop fuel (sections_bytes secs) ≡ ok (data_content secs)
unfolding data_loop
data_loop-sections secs zero h v = absurd (omega arith)
data_loop-sections [] (suc fuel) h v = refl
data_loop-sections (custom m content ∷ secs) (suc fuel) h v =
    let rest = sections_bytes secs in
    let (long, shorter) = length-custom m content rest in
    rw
      (
        lt→ltb 1 _ long,
        take_uvarint-bytes (length (body m content)) (body m content ++ rest) v.0,
        slice_from-append (body m content) rest (length (body m content)) refl,
      )
      (data_loop-sections secs fuel (omega (arith, shorter)) v.1)
data_loop-sections (other id content ∷ secs) (suc fuel) h v =
    let rest = sections_bytes secs in
    let sized = length-other content rest in
    let some_bytes = (groups_size 9 (length content)).0 in
    elim (Bool-cases (ltb 1 (length (uvarint_bytes (length content) ++ (content ++ rest))))) [
      | inl t ↦
          rw (t, take_uvarint-bytes (length content) (content ++ rest) v.0.1)
            (elim (Bool-cases (id == 11)) [
              | inl d ↦ rw (d, slice_to-append content rest (length content) refl)
              | inr d ↦
                  rw (d, slice_from-append content rest (length content) refl)
                    (data_loop-sections secs fuel (omega (arith, sized, some_bytes)) v.1)
            ])
      | inr t ↦ rw (
        t,
        (short-sections [] (other id content ∷ secs)
            (omega (arith, sized, some_bytes, ltb→ge 1 _ t)) v).1,
      )
    ]

-- `wasmdataSection`, on such a module, returns the content of its first data section, or nil when
-- there is none. A data section is not empty.
pub wasmdata_section-sections :
    (header : List ℕ) (secs : List Section)
    → length header ≡ 8
    → AreSections secs
    → wasmdata_section (header ++ sections_bytes secs) ≡ ok (data_content secs)
unfolding wasmdata_section
wasmdata_section-sections header secs h v =
    let sized = length-append header (sections_bytes secs) in
    rw (slice_from-append header (sections_bytes secs) 8 (sym h)) (
      data_loop-sections secs (suc (length (header ++ sections_bytes secs))) (omega (arith, sized))
        v)
