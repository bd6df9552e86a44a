-- ===== src/Pclntab/Load/Ready.antt =====
-- `EnsureReady` on a memory that holds the module data in the runtime's layout.
use wzprof.Base.{
  ℕ, zero, suc, ◌+◌, ◌*◌, ◌/◌, ◌%◌, ◌^◌, ◌<◌, ◌≤◌, ◌≡◌, ◌≢◌, refl, sym, ap, subst, ◌∙◌, List, [],
  ◌∷◌, ◌++◌, none, some, ==_refl, ne→==, length, get_or, All, Outcome, ok, panic, ◌>>=◌, arith,
}
use wzprof.WasmBin.Leb.{slice_from-append}
use wzprof.Trace.{le_bytes}
use wzprof.Pclntab.{Vmem, deref, le_number, field, Functab, Textsect, Moduledata}
use wzprof.Pclntab.Load.{slice_at, functab_of, textsect_of, deref_moduledata, Pclntab, ensure_ready}
use wzprof.Pclntab.Load.Layout.{
  le_number-le_bytes, words_bytes, word_field, slice_from-zero, Elements, deref_go_slice-Elements,
}

-- An element type in memory: its size, its bytes and the values that fit them.
pub record Element (A : Type 0) (read : List ℕ → Outcome A) (size : ℕ) : Type 1 where
  pub bytes_of : A → List ℕ
  pub Fits : A → Type 0
  pub pos : 0 < size
  pub reads : (x : A) → Fits x → read (bytes_of x) ≡ ok x

le_mul_pos : (n k : ℕ) → 0 < k → n ≤ n * k
le_mul_pos n k h = grind arith

module _ {A : Type 0} {read : List ℕ → Outcome A} {size : ℕ} (e : Element A read size) where
  elements_read : (xs : List A) → All e.Fits xs → All (λ (x : A). read (e.bytes_of x) ≡ ok x) xs
  elements_read [] a = tt
  elements_read (x ∷ xs) a = (e.reads x a.0, elements_read xs a.1)

  -- A slice in memory, given by its pointer and its length: elements that fit, below 2 ^ 32.
  abbrev pub HasSlice : Vmem → ℕ → ℕ → List A → Type 0
  HasSlice mem dp count xs =
      (count ≡ length xs)
      × (dp + length xs * size ≤ 2 ^ 32)
      × All e.Fits xs
      × Elements e.bytes_of size mem dp xs

  slice_at-HasSlice :
      (mem : Vmem) (ws : List ℕ) (k : ℕ) (xs : List A)
      → All (λ (w : ℕ). w < 2 ^ 64) ws
      → k + 1 < length ws
      → HasSlice mem (get_or ws k 0) (get_or ws (k + 1) 0) xs
      → slice_at read size mem (words_bytes ws) (8 * k) ≡ ok xs
  unfolding slice_at
  slice_at-HasSlice mem ws k xs a l (c, n, f, h) =
      let next : 8 * k + 8 ≡ 8 * (k + 1) = omega arith in
      rw (word_field k ws a (omega arith), next, word_field (k + 1) ws a l, c)
        (deref_go_slice-Elements e.bytes_of size read mem (get_or ws k 0) xs (elements_read xs f) h
          n (omega (arith, le_mul_pos (length xs) size e.pos)) e.pos)

-- Bytes, words of 32 bits, rows of the function table and text sections.
pub read_byte : (x : ℕ) → x < 256 → le_number 1 (le_bytes 1 x ++ []) ≡ ok x
read_byte x l = le_number-le_bytes 1 x [] (omega arith)

pub read_u32 : (x : ℕ) → x < 2 ^ 32 → le_number 4 (le_bytes 4 x ++ []) ≡ ok x
read_u32 x l = le_number-le_bytes 4 x [] (omega arith)

abbrev pub functab_bytes : Functab → List ℕ
functab_bytes f = le_bytes 4 f.entryoff ++ (le_bytes 4 f.funcoff ++ [])

abbrev pub IsFunctab : Functab → Type 0
IsFunctab f = (f.entryoff < 2 ^ 32) × (f.funcoff < 2 ^ 32)

length-le_bytes : (n v : ℕ) → length (le_bytes n v) ≡ n
unfolding le_bytes
length-le_bytes zero v = refl
length-le_bytes (suc n) v = ap suc (length-le_bytes n (v / 256))

field_first : (n v : ℕ) (rest : List ℕ) → v < 256 ^ n → field n 0 (le_bytes n v ++ rest) ≡ ok v
unfolding field
field_first n v rest l =
    ap (λ (o : Outcome (List ℕ)). o >>= le_number n) (slice_from-zero (le_bytes n v ++ rest))
    ∙ le_number-le_bytes n v rest l

field_second :
    (n m v w : ℕ) (rest : List ℕ)
    → w < 256 ^ m
    → field m n (le_bytes n v ++ (le_bytes m w ++ rest)) ≡ ok w
unfolding field
field_second n m v w rest l =
    ap (λ (o : Outcome (List ℕ)). o >>= le_number m)
      (slice_from-append (le_bytes n v) (le_bytes m w ++ rest) n (sym (length-le_bytes n v)))
    ∙ le_number-le_bytes m w rest l

pub read_functab : (f : Functab) → IsFunctab f → functab_of (functab_bytes f) ≡ ok f
unfolding functab_of
read_functab f (l, m) =
    rw
      (
        field_first 4 f.entryoff (le_bytes 4 f.funcoff ++ []) (omega arith),
        field_second 4 4 f.entryoff f.funcoff [] (omega arith),
      )
      refl

abbrev pub textsect_bytes : Textsect → List ℕ
textsect_bytes s = words_bytes (s.vaddr ∷ s.end ∷ s.baseaddr ∷ [])

abbrev pub IsTextsect : Textsect → Type 0
IsTextsect s = (s.vaddr < 2 ^ 64) × (s.end < 2 ^ 64) × (s.baseaddr < 2 ^ 64)

pub read_textsect : (s : Textsect) → IsTextsect s → textsect_of (textsect_bytes s) ≡ ok s
unfolding textsect_of
read_textsect s (l, m, n) =
    let ws : List ℕ = s.vaddr ∷ s.end ∷ s.baseaddr ∷ [] in
    rw
      (
        word_field 0 ws (l, (m, (n, tt))) (omega arith),
        word_field 1 ws (l, (m, (n, tt))) (omega arith),
        word_field 2 ws (l, (m, (n, tt))) (omega arith),
      )
      refl

abbrev pub byte_elem : Element ℕ (le_number 1) 1
byte_elem = record {
  bytes_of = λ x. le_bytes 1 x ++ [];
  Fits = λ x. x < 256;
  pos = omega arith;
  reads = read_byte;
}

abbrev pub u32_elem : Element ℕ (le_number 4) 4
u32_elem = record {
  bytes_of = λ x. le_bytes 4 x ++ [];
  Fits = λ x. x < 2 ^ 32;
  pos = omega arith;
  reads = read_u32;
}

abbrev pub functab_elem : Element Functab functab_of 8
functab_elem = record {
  bytes_of = functab_bytes;
  Fits = IsFunctab;
  pos = omega arith;
  reads = read_functab;
}

abbrev pub textsect_elem : Element Textsect textsect_of 24
textsect_elem = record {
  bytes_of = textsect_bytes;
  Fits = IsTextsect;
  pos = omega arith;
  reads = read_textsect;
}

-- A memory that holds module data at an address: the words of the struct, and behind its pointers
-- the elements of its slices.
pub record HoldsModule (mem : Vmem) (addr : ℕ) (md : Moduledata) : Type 0 where
  pub words : List ℕ
  pub struct : mem (addr % 2 ^ 32) 352 ≡ some (words_bytes words)
  pub size : length words ≡ 44
  pub fit : All (λ (w : ℕ). w < 2 ^ 64) words
  pub funcnametab : HasSlice byte_elem mem (get_or words 1 0) (get_or words 2 0) md.funcnametab
  pub cutab : HasSlice u32_elem mem (get_or words 4 0) (get_or words 5 0) md.cutab
  pub filetab : HasSlice byte_elem mem (get_or words 7 0) (get_or words 8 0) md.filetab
  pub pctab : HasSlice byte_elem mem (get_or words 10 0) (get_or words 11 0) md.pctab
  pub pclntable : HasSlice byte_elem mem (get_or words 13 0) (get_or words 14 0) md.pclntable
  pub ftab : HasSlice functab_elem mem (get_or words 16 0) (get_or words 17 0) md.ftab
  pub findfunctab : get_or words 19 0 ≡ md.findfunctab
  pub minpc : get_or words 20 0 ≡ md.minpc
  pub maxpc : get_or words 21 0 ≡ md.maxpc
  pub text : get_or words 22 0 ≡ md.text
  pub gofunc : get_or words 40 0 ≡ md.gofunc
  pub textsectmap :
      HasSlice textsect_elem mem (get_or words 41 0) (get_or words 42 0) md.textsectmap

deref_moduledata-HoldsModule :
    (mem : Vmem) (addr : ℕ) (md : Moduledata)
    → HoldsModule mem addr md
    → deref_moduledata mem addr ≡ ok md
unfolding deref_moduledata deref
deref_moduledata-HoldsModule mem addr md h =
    let w : List ℕ = h.words in
    let small =
      λ (k : ℕ) (l : k < 44). word_field k w h.fit (subst (λ (n : ℕ). k < n) (sym h.size) l) in
    rw
      (
        h.struct,
        small 19 (omega arith),
        small 20 (omega arith),
        small 21 (omega arith),
        small 22 (omega arith),
        small 40 (omega arith),
        h.findfunctab,
        h.minpc,
        h.maxpc,
        h.text,
        h.gofunc,
        slice_at-HasSlice byte_elem mem w 1 md.funcnametab h.fit (omega (arith, h.size))
            h.funcnametab,
        slice_at-HasSlice u32_elem mem w 4 md.cutab h.fit (omega (arith, h.size)) h.cutab,
        slice_at-HasSlice byte_elem mem w 7 md.filetab h.fit (omega (arith, h.size)) h.filetab,
        slice_at-HasSlice byte_elem mem w 10 md.pctab h.fit (omega (arith, h.size)) h.pctab,
        slice_at-HasSlice byte_elem mem w 13 md.pclntable h.fit (omega (arith, h.size)) h.pclntable,
        slice_at-HasSlice functab_elem mem w 16 md.ftab h.fit (omega (arith, h.size)) h.ftab,
        slice_at-HasSlice textsect_elem mem w 41 md.textsectmap h.fit (omega (arith, h.size))
            h.textsectmap,
      )
      refl

-- The tables once they are loaded from a memory.
abbrev pub loaded : Pclntab → ℕ → Moduledata → Pclntab
loaded p m md = record p { mem = some m; md = md }

-- If nothing is loaded and a memory holds module data at the address of the tables, in the runtime's
-- layout and with its slices below 2 ^ 32, then `EnsureReady` loads these data from it. From then on
-- it changes nothing for this memory, whatever this has come to hold, and panics for another.
pub ensure_ready-HoldsModule :
    (memory later : ℕ → Vmem) (m other : ℕ) (p : Pclntab) (md : Moduledata)
    → p.mem ≡ none
    → HoldsModule (memory m) p.datap md
    → m ≢ other
    → (ensure_ready memory m p ≡ ok (loaded p m md))
      × (ensure_ready later m (loaded p m md) ≡ ok (loaded p m md))
      × (ensure_ready later other (loaded p m md) ≡ panic)
unfolding ensure_ready
ensure_ready-HoldsModule memory later m other p md n h d = (
  rw (n) (rw (deref_moduledata-HoldsModule (memory m) p.datap md h) refl),
  rw (==_refl m) refl,
  rw (ne→== m other d) refl,
)
