-- ===== src/Pclntab/Load.antt =====
-- The load of `moduledata` from the guest's memory: `derefGoSlice` of memory.go, and
-- `derefModuledata` and `EnsureReady` of pclntab.go. A slice in the guest's memory is its pointer and
-- its length, an `int`.
pub mod Layout
pub mod Ready
use wzprof.Base.{
  ℕ, zero, suc, ◌+◌, ◌^◌, List, [], ◌∷◌, Option, none, some, ltb, ◌==◌, Outcome, ok, require, ◌>>=◌,
  ◌>>◌,
}
use wzprof.Pclntab.{Vmem, deref, deref_array_index, le_number, field, Functab, Textsect, Moduledata}

-- The loop of `derefGoSlice`, from an element on. `element` is the cast of the bytes of one.
module _ {A : Type 0} (element : List ℕ → Outcome A) (size : ℕ) where
  pub slice_loop : Vmem → ℕ → ℕ → ℕ → Outcome (List A)
  slice_loop mem dp i zero = ok []
  slice_loop mem dp i (suc n) = do
    b ← deref_array_index mem dp i size
    x ← element b
    rest ← slice_loop mem dp (i + 1) n
    ok (x ∷ rest)

  -- `derefGoSlice`. `make` panics on a negative length.
  pub deref_go_slice : Vmem → ℕ → ℕ → Outcome (List A)
  deref_go_slice mem dp count = do require (ltb count (2 ^ 63)); slice_loop mem dp 0 count

  -- The slice whose header stands at an offset in the bytes of a struct.
  pub slice_at : Vmem → List ℕ → ℕ → Outcome (List A)
  slice_at mem m off = do
    dp ← field 8 off m
    count ← field 8 (off + 8) m
    deref_go_slice mem dp count

-- The casts to `functab` and `textsect`.
pub functab_of : List ℕ → Outcome Functab
functab_of b = do
  entryoff ← field 4 0 b
  funcoff ← field 4 4 b
  ok (record { entryoff = entryoff; funcoff = funcoff })

pub textsect_of : List ℕ → Outcome Textsect
textsect_of b = do
  vaddr ← field 8 0 b
  end ← field 8 8 b
  baseaddr ← field 8 16 b
  ok (record { vaddr = vaddr; end = end; baseaddr = baseaddr })

-- `derefModuledata`: the struct takes 352 bytes, and then its slices are loaded in order.
pub deref_moduledata : Vmem → ℕ → Outcome Moduledata
deref_moduledata mem addr = do
  m ← deref mem addr 352
  findfunctab ← field 8 152 m
  minpc ← field 8 160 m
  maxpc ← field 8 168 m
  text ← field 8 176 m
  gofunc ← field 8 320 m
  funcnametab ← slice_at (le_number 1) 1 mem m 8
  cutab ← slice_at (le_number 4) 4 mem m 32
  filetab ← slice_at (le_number 1) 1 mem m 56
  pctab ← slice_at (le_number 1) 1 mem m 80
  pclntable ← slice_at (le_number 1) 1 mem m 104
  ftab ← slice_at functab_of 8 mem m 128
  textsectmap ← slice_at textsect_of 24 mem m 328
  ok (record {
    funcnametab = funcnametab;
    cutab = cutab;
    filetab = filetab;
    pctab = pctab;
    pclntable = pclntable;
    ftab = ftab;
    findfunctab = findfunctab;
    minpc = minpc;
    maxpc = maxpc;
    text = text;
    gofunc = gofunc;
    textsectmap = textsectmap;
  })

-- `pclntab`, less the module's name. A memory is the number of one: `mem` is that of the
-- memory that was loaded, nil being `none`.
pub record Pclntab : Type 0 where
  pub imported : ℕ
  pub datap : ℕ
  pub mem : Option ℕ
  pub md : Moduledata

-- `EnsureReady`. What a memory holds when it is read is the first argument.
unfoldable pub ensure_ready : (ℕ → Vmem) → ℕ → Pclntab → Outcome Pclntab
ensure_ready memory mem p = elim p.mem [
  | none ↦
      deref_moduledata (memory mem) p.datap >>= (λ md. ok (record p { mem = some mem; md = md }))
  | some loaded ↦ (do require (loaded == mem); ok p)
]
