-- ===== src/Pclntab/Scan.antt =====
-- The search of the data section for the Go symbol tables: `pclntabHeaderFromData`,
-- `moduledataAddrFromData`, `findStartOfModuleData` and `preparePclntabSymbolizer`.
use wzprof.Base.{
  ℕ, zero, suc, ◌+◌, ◌*◌, ◌<◌, ◌≡◌, refl, List, [], ◌∷◌, ◌++◌, Bool, true, false, not, ◌&&◌, Option,
  none, some, ltb, leb, ◌==◌, if◌then◌else◌, length, take, drop, Outcome, ok, panic, stuck, require,
  ◌>>=◌, ◌>>◌, lt→ltb, ◌∙◌,
}
use wzprof.Base.Words.{add64}
use native.Mathlib.Nat.{zero-add}
use wzprof.Trace.{le_bytes}
use wzprof.Pclntab.{le_number}
use wzprof.WasmBin.{
  slice_from, slice_to, slice, bytes_eq, wasmdata_section, DataIterator, new_data_iterator, next,
  skip_to_data_offset, Vmemb, has, copy_at_address,
}

-- `bytes.Index`: the first place where the needle stands; `none` is its -1.
unfoldable pub is_prefix : List ℕ → List ℕ → Bool
is_prefix [] b = true
is_prefix (x ∷ xs) [] = false
is_prefix (x ∷ xs) (y ∷ ys) = (x == y) && is_prefix xs ys

unfoldable pub index_of : List ℕ → List ℕ → Option ℕ
index_of needle [] = if is_prefix needle [] then some 0 else none
index_of needle (y ∷ ys) =
    let later : Option ℕ = elim (index_of needle ys) [ none ↦ none | some i ↦ some (suc i) ] in
    if is_prefix needle (y ∷ ys) then some 0 else later

-- `partialPCHeader`.
pub record PartialPcHeader : Type 0 where
  pub address : ℕ
  pub funcnametab_off : ℕ
  pub cutab_off : ℕ
  pub filetab_off : ℕ

abbrev pub needle : List ℕ
needle = 0xf1 ∷ 0xff ∷ 0xff ∷ 0xff ∷ 0 ∷ 0 ∷ 1 ∷ 8 ∷ []

-- `readWord`: segments are added until the word is in memory. Each round takes a segment, and
-- without one the code panics.
pub read_word : ℕ → ℕ → Vmemb → DataIterator → Outcome (ℕ × Vmemb × DataIterator)
read_word zero word vm d = stuck
read_word (suc fuel) word vm d =
    let start = 8 + word * 8 in
    let more = (do
      (vaddr, seg, d) ← next d
      elim seg [
        | none ↦ panic
        | some seg ↦ (do vm ← copy_at_address vaddr seg vm; read_word fuel word vm d)
      ]) in
    if has (start + 8) vm
    then slice_from start vm.b >>= (λ b. le_number 8 b >>= (λ v. ok (v, vm, d)))
    else more

header_at : List ℕ → ℕ → Outcome PartialPcHeader
unfolding read_word
header_at b offset = do
  d ← new_data_iterator b
  (vaddr, seg, d) ← skip_to_data_offset (d.n + 2) offset d
  vm ← copy_at_address vaddr seg (record { start = vaddr; b = [] })
  magic ← slice_to 6 seg
  require (bytes_eq (take 6 needle) magic)
  require (leb 8 (length seg))
  (funcnametab_off, vm, d) ← read_word (suc d.n) 3 vm d
  (cutab_off, vm, d) ← read_word (suc d.n) 4 vm d
  (filetab_off, vm, d) ← read_word (suc d.n) 5 vm d
  ok (record {
    address = vaddr;
    funcnametab_off = funcnametab_off;
    cutab_off = cutab_off;
    filetab_off = filetab_off;
  })

-- `pclntabHeaderFromData`.
unfoldable pub pclntab_header_from_data : List ℕ → Outcome PartialPcHeader
unfolding header_at
pclntab_header_from_data b = elim (index_of needle b) [
  | none ↦ ok (record { address = 0; funcnametab_off = 0; cutab_off = 0; filetab_off = 0 })
  | some offset ↦ header_at b offset
]

-- A round of `findStartOfModuleData`: `inl` is the next `begin`, `inr` the result, -1 being `none`.
-- The checks index the whole of `b` by a place counted from `begin`, and the next `begin` is counted
-- so too.
pub data Round : Type 0 where
  again : ℕ → Round
  result : Option ℕ → Round

pub find_round : List ℕ → List ℕ → List ℕ → List ℕ → ℕ → Outcome Round
find_round b start cutabaddr filetabaddr begin = elim (index_of start (drop begin b)) [
  | none ↦ ok (result none)
  | some start_index ↦ (do
    cutab ← slice (start_index + 32) (start_index + 32 + 8) b
    if not (bytes_eq cutab cutabaddr) then ok (again (start_index + 1)) else (do
      filetab ← slice (start_index + 56) (start_index + 56 + 8) b
      if not (bytes_eq filetab filetabaddr)
          then ok (again (start_index + 1))
          else ok (result (some (begin + start_index)))))
]

pub find_loop : ℕ → List ℕ → List ℕ → List ℕ → List ℕ → ℕ → Outcome (Option ℕ)
find_loop zero b start cutabaddr filetabaddr begin = stuck
find_loop (suc fuel) b start cutabaddr filetabaddr begin =
    let round = (do
      r ← find_round b start cutabaddr filetabaddr begin
      elim r [
        | again begin' ↦ find_loop fuel b start cutabaddr filetabaddr begin'
        | result i ↦ ok i
      ]) in
    if ltb begin (length b) then round else ok none

-- `findStartOfModuleData`, for at most so many rounds.
pub find_start_of_module_data : ℕ → List ℕ → List ℕ → List ℕ → List ℕ → Outcome (Option ℕ)
unfolding find_loop
find_start_of_module_data fuel b start cutabaddr filetabaddr =
    find_loop fuel b start cutabaddr filetabaddr 0

-- `moduledataAddrFromData`; the address 0 says that nothing was found.
unfoldable pub moduledata_addr_from_data : ℕ → PartialPcHeader → List ℕ → Outcome ℕ
moduledata_addr_from_data fuel pch b = do
  let word = λ (off : ℕ). le_bytes 8 (add64 pch.address off)
  found ←
      find_start_of_module_data fuel b (word 0 ++ word pch.funcnametab_off) (word pch.cutab_off)
        (word pch.filetab_off)
  elim found [
    | none ↦ ok 0
    | some offset ↦ (do
      d ← new_data_iterator b
      (vaddr, seg, d) ← skip_to_data_offset (d.n + 2) offset d
      ok vaddr)
  ]

-- `preparePclntabSymbolizer`: the address of the module data, or the error that it returns.
pub data Prepared : Type 0 where
  no_data_section : Prepared
  no_header : Prepared
  no_moduledata : Prepared
  symbolizer_at : ℕ → Prepared

unfoldable pub prepare_pclntab_symbolizer : ℕ → List ℕ → Outcome Prepared
prepare_pclntab_symbolizer fuel wasmbin = wasmdata_section wasmbin >>= λ section. elim section [
  | none ↦ ok no_data_section
  | some b ↦ (do
    pch ← pclntab_header_from_data b
    if pch.address == 0 then ok no_header else (do
      mdaddr ← moduledata_addr_from_data fuel pch b
      if mdaddr == 0 then ok no_moduledata else ok (symbolizer_at mdaddr)))
]

find_round-hit :
    (b start cutabaddr filetabaddr x y : List ℕ) (i : ℕ)
    → index_of start b ≡ some i
    → slice (i + 32) (i + 32 + 8) b ≡ ok x
    → bytes_eq x cutabaddr ≡ true
    → slice (i + 56) (i + 56 + 8) b ≡ ok y
    → bytes_eq y filetabaddr ≡ true
    → find_round b start cutabaddr filetabaddr 0 ≡ ok (result (some i))
unfolding find_round
find_round-hit b start cutabaddr filetabaddr x y i at sx ex sy ey =
    rw (at, find_round) (rw (sx, ex, sy, ey) (rw (zero-add i)))

-- Where the first occurrence of the two addresses has the third 32 bytes on and the fourth 56 bytes
-- on, it is the answer, in the first round.
pub find_start_first :
    (b start cutabaddr filetabaddr x y : List ℕ) (i fuel : ℕ)
    → 0 < length b
    → index_of start b ≡ some i
    → slice (i + 32) (i + 32 + 8) b ≡ ok x
    → bytes_eq x cutabaddr ≡ true
    → slice (i + 56) (i + 56 + 8) b ≡ ok y
    → bytes_eq y filetabaddr ≡ true
    → find_start_of_module_data (suc fuel) b start cutabaddr filetabaddr ≡ ok (some i)
unfolding find_start_of_module_data
find_start_first b start cutabaddr filetabaddr x y i fuel h at sx ex sy ey =
    rw (lt→ltb 0 (length b) h, find_round-hit b start cutabaddr filetabaddr x y i at sx ex sy ey)

module _ (b start cutabaddr filetabaddr : List ℕ) where
  -- A round that finds the addresses and not the third one starts again behind the place where it
  -- found them, counted from where it began.
  abbrev pub Misses : ℕ → ℕ → Type 0
  Misses begin i =
      (begin < length b)
      × (index_of start (drop begin b) ≡ some i)
      × ((x : List ℕ) × (slice (i + 32) (i + 32 + 8) b ≡ ok x) × (bytes_eq x cutabaddr ≡ false))

  find_round-miss :
      (begin i : ℕ)
      → Misses begin i
      → find_round b start cutabaddr filetabaddr begin ≡ ok (again (i + 1))
  unfolding find_round
  find_round-miss begin i (h, at, (x, sx, ex)) = rw (at, find_round) (rw (sx, ex))

  loop_step :
      (fuel begin i : ℕ)
      → Misses begin i
      → find_loop (suc fuel) b start cutabaddr filetabaddr begin
        ≡ find_loop fuel b start cutabaddr filetabaddr (i + 1)
  unfolding find_loop
  loop_step fuel begin i m = rw (lt→ltb begin (length b) m.0, find_round-miss begin i m)

  loop_cycle :
      (fuel p : ℕ)
      → Misses 1 p
      → Misses (p + 1) 0
      → (find_loop fuel b start cutabaddr filetabaddr 1 ≡ stuck)
        × (find_loop fuel b start cutabaddr filetabaddr (p + 1) ≡ stuck)
  loop_cycle zero p m n = unfold find_loop in (refl, refl)
  loop_cycle (suc fuel) p m n =
      let (one, two) = loop_cycle fuel p m n in
      (loop_step fuel 1 p m ∙ two, loop_step fuel (p + 1) 0 n ∙ rw (zero-add) one)

  -- The search has no end on data that begin with the two addresses and hold them once more at some
  -- place `p + 1`, when neither round finds the third address at the place where it looks, which is
  -- not that of the occurrence: the second occurrence sends the search back to the first byte.
  pub find_start_diverges :
      (p : ℕ)
      → Misses 0 0
      → Misses 1 p
      → Misses (p + 1) 0
      → (fuel : ℕ) → find_start_of_module_data fuel b start cutabaddr filetabaddr ≡ stuck
  unfolding find_start_of_module_data
  find_start_diverges p m n o zero = unfold find_loop in refl
  find_start_diverges p m n o (suc fuel) =
      loop_step fuel 0 0 m ∙ rw (zero-add) (loop_cycle fuel p n o).0
