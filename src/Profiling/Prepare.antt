-- ===== src/Profiling/Prepare.antt =====
-- `ProfilingFor` and `Prepare` on a whole binary, with the symbolizer that `Prepare` makes.
use wzprof.Base.{
  ℕ, ◌≡◌, refl, sym, ap, ◌∙◌, List, [], ◌∷◌, ◌++◌, Bool, true, false, Option, none, some,
  if◌then◌else◌, length, Outcome, ok, panic, stuck, ◌>>=◌, >>=-eq-ok,
}
use wzprof.WasmBin.{wasm_has_custom_section}
use wzprof.WasmBin.Sections.{
  Section, sections_bytes, AreSections, custom_named, wasm_custom_section-sections,
}
use wzprof.Pclntab.Scan.{
  Prepared, symbolizer_at, no_data_section, no_header, no_moduledata, prepare_pclntab_symbolizer,
}
use wzprof.Dwarf.{Entry, Range, SubprogramRange, parse}
use wzprof.Dwarf.Sections.{DebugSections, new_dwarfparser, sections_of, customs}
use wzprof.Dwarf.Sections.Same.{NamesDiffer, new_dwarfparser-customs}
use wzprof.Dwarf.Units.{put_trees, AreTrees, found_units, parse-trees}
use wzprof.Dwarf.Forest.{Tree}
use wzprof.Python.Setup.{LocationAttr, prepare_python, python_address, supported_python}
use wzprof.Python.Setup.Versions.{supported_python_none}
use wzprof.Profiling.{
  unknown, golang, python311, unlistened, Profiling, profiling_of, profiling_for,
  bin_compiled_by_go,
}

-- The symbolizer that a `Profiling` holds: the one that finds nothing, the tables of Go with the number of
-- imported functions and the address of the module data, CPython with its runtime's address, or the
-- subprograms of `dwarfmapper`. The stack iterator goes with it: the guest's for Go and CPython,
-- and that of wazero else.
pub data Symbolizer : Type 0 where
  noop : Symbolizer
  pclntab : ℕ → ℕ → Symbolizer
  python : ℕ → Symbolizer
  dwarfmapper : List SubprogramRange → Symbolizer

-- `Prepare`, where the symbolizer is made, and where the error is returned.
abbrev pub prepared : Symbolizer → Profiling → Bool × Profiling × Symbolizer
prepared s p = (false, record p { prepare_called = true }, s)

abbrev pub failed : Profiling → Bool × Profiling × Symbolizer
failed p = (true, p, noop)

pub prepare_go : ℕ → Profiling → Prepared → Bool × Profiling × Symbolizer
prepare_go imported p (symbolizer_at addr) = prepared (pclntab imported addr) p
prepare_go imported p no_data_section = failed p
prepare_go imported p no_header = failed p
prepare_go imported p no_moduledata = failed p

pub prepare_cpython : Profiling → Option ℕ → Bool × Profiling × Symbolizer
prepare_cpython p none = failed p
prepare_cpython p (some addr) = prepared (python addr) p

abbrev is_prepared : Outcome Profiling → Bool
is_prepared (ok p) = p.prepare_called
is_prepared panic = false
is_prepared stuck = false

-- What the code takes from debug/dwarf: the entries of the sections, the attribute of an entry's
-- location, and the ranges of an entry.
module _ (dwarf_new : DebugSections → Option (List Entry))
    (location_of : Entry → Option LocationAttr) (ranges_of : Entry → Option (List Range)) where
  -- `ProfilingFor`, which asks for CPython only where the binary is not Go's.
  pub profiling_for_binary : List ℕ → Outcome Profiling
  profiling_for_binary wasm = do
    go ← bin_compiled_by_go wasm
    supported ← (if go then ok false else supported_python location_of dwarf_new wasm)
    profiling_for supported wasm

  -- An error of the DWARF parser is not returned, and leaves the `Profiling` as it was.
  pub prepare_dwarf : Profiling → Option (List Entry) → Outcome (Bool × Profiling × Symbolizer)
  prepare_dwarf p none = ok (false, p, noop)
  prepare_dwarf p (some entries) =
      parse ranges_of entries >>= (λ subprograms. ok (prepared (dwarfmapper subprograms) p))

  -- `Prepare`, on the module's custom sections and the number of its imported functions: whether it
  -- returns an error, and the `Profiling` with its symbolizer. The fuel is that of the search for
  -- the module data of Go.
  pub prepare_module :
      ℕ → List ℕ → List (List ℕ × List ℕ) → ℕ → Profiling → Outcome (Bool × Profiling × Symbolizer)
  unfolding prepare_go prepare_cpython prepare_dwarf
  prepare_module fuel wasm sections imported p = elim p.lang [
    | golang ↦ prepare_pclntab_symbolizer fuel wasm >>= (λ r. ok (prepare_go imported p r))
    | python311 ↦ prepare_python location_of dwarf_new sections >>= (λ r. ok (prepare_cpython p r))
    | unknown ↦ prepare_dwarf p (new_dwarfparser dwarf_new sections)
  ]

  -- What `ProfilingFor` returns is not prepared.
  pub profiling_for_binary_fresh :
      (wasm : List ℕ) (p : Profiling) → profiling_for_binary wasm ≡ ok p → p.prepare_called ≡ false
  unfolding profiling_for_binary profiling_for
  profiling_for_binary_fresh wasm p h =
      let (go, e, h) = >>=-eq-ok (bin_compiled_by_go wasm) _ h in
      let (supported, e, h) =
        >>=-eq-ok (if go then ok false else supported_python location_of dwarf_new wasm) _ h in
      let (go, e, h) = >>=-eq-ok (bin_compiled_by_go wasm) _ h in chosen go supported p h
    where
      chosen :
          (go supported : Bool) (p : Profiling)
          → ok (
              if go
              then profiling_of golang [] unlistened
              else if supported
              then profiling_of python311 ("PyObject_Vectorcall" ∷ []) []
              else profiling_of unknown [] [])
            ≡ ok p
          → p.prepare_called ≡ false
      chosen true s p h = sym (ap is_prepared h)
      chosen false true p h = sym (ap is_prepared h)
      chosen false false p h = sym (ap is_prepared h)

  -- A module that is not Go's nor CPython's.
  pub profiling_for_other :
      (header : List ℕ) (secs : List Section) (entries : List Entry)
      → length header ≡ 8
      → AreSections secs
      → custom_named (103 ∷ 111 ∷ 58 ∷ 98 ∷ 117 ∷ 105 ∷ 108 ∷ 100 ∷ 105 ∷ 100 ∷ []) secs ≡ none
      → dwarf_new (sections_of secs) ≡ some entries
      → python_address location_of entries "Py_Version" ≡ ok 0
      → profiling_for_binary (header ++ sections_bytes secs) ≡ ok (profiling_of unknown [] [])
  unfolding profiling_for_binary profiling_for bin_compiled_by_go wasm_has_custom_section
  profiling_for_other header secs entries h v g d p =
      rw
        (
          wasm_custom_section-sections header
              (103 ∷ 111 ∷ 58 ∷ 98 ∷ 117 ∷ 105 ∷ 108 ∷ 100 ∷ 105 ∷ 100 ∷ []) secs h v,
          g,
          supported_python_none location_of dwarf_new header secs entries h v d p,
        )
        refl

  prepare_other :
      (secs : List Section) (ts : List Tree) (fuel imported : ℕ) (wasm : List ℕ)
      → NamesDiffer secs
      → AreTrees ts
      → dwarf_new (sections_of secs) ≡ some (put_trees ts)
      → prepare_module fuel wasm (customs secs) imported (profiling_of unknown [] [])
        ≡ ok (prepared (dwarfmapper (found_units ranges_of ts)) (profiling_of unknown [] []))
  unfolding prepare_module
  prepare_other secs ts fuel imported wasm w t d =
      ap (prepare_dwarf (profiling_of unknown [] [])) (new_dwarfparser-customs dwarf_new secs w ∙ d)
      ∙ rw (parse-trees ranges_of ts t) refl

  -- On a module of any header and any sections whose sizes fit their fields, with no two custom sections
  -- of one name and none named `go:buildid`, where `dwarf.New` gives the entries of trees from the
  -- DWARF sections, with no variable `Py_Version` at an address: `ProfilingFor` and then `Prepare` return
  -- no error, take the guest for one of no special language, and give it the symbolizer of the subprograms
  -- in the trees; both functions return.
  pub prepare_module-trees :
      (header : List ℕ) (secs : List Section) (ts : List Tree) (fuel imported : ℕ)
      → length header ≡ 8
      → AreSections secs
      → NamesDiffer secs
      → custom_named (103 ∷ 111 ∷ 58 ∷ 98 ∷ 117 ∷ 105 ∷ 108 ∷ 100 ∷ 105 ∷ 100 ∷ []) secs ≡ none
      → AreTrees ts
      → dwarf_new (sections_of secs) ≡ some (put_trees ts)
      → python_address location_of (put_trees ts) "Py_Version" ≡ ok 0
      → (profiling_for_binary (header ++ sections_bytes secs)
          >>= prepare_module fuel (header ++ sections_bytes secs) (customs secs) imported)
        ≡ ok (prepared (dwarfmapper (found_units ranges_of ts)) (profiling_of unknown [] []))
  prepare_module-trees header secs ts fuel imported h v w g t d p =
      rw (profiling_for_other header secs (put_trees ts) h v g d p)
        (prepare_other secs ts fuel imported (header ++ sections_bytes secs) w t d)
