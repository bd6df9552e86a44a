-- ===== src/Python/Setup.antt =====
-- python.go: whether a binary is that of CPython 3.11, and where its runtime is.
pub mod Versions
use Prim.Native.String.{String}
use wzprof.Base.{
  ℕ, zero, suc, ◌+◌, ◌/◌, ◌%◌, ◌^◌, List, [], ◌∷◌, ◌++◌, Bool, true, false, ◌&&◌, ◌||◌, Option,
  none, some, ltb, leb, ◌==◌, if◌then◌else◌, length, Outcome, ok, panic, stuck, ◌>>=◌,
}
use wzprof.Base.Words.{add64, sub64}
use wzprof.WasmBin.{slice_from, wasmdata_section, DataIterator, new_data_iterator, next}
use wzprof.Pclntab.{le_number}
use wzprof.Profile.{is}
use wzprof.Dwarf.{Tag, variable, Entry}
use wzprof.Dwarf.Locations.{or_empty}
use wzprof.Dwarf.Sections.{DebugSections, new_dwarfparser, new_dwarf_parser_from_bin}

abbrev pub is_variable : Tag → Bool
is_variable variable = true
is_variable tag = false

-- The value of an attribute of a location: an expression, or of another class.
pub data LocationAttr : Type 0 where
  expression : List ℕ → LocationAttr
  other_class : LocationAttr

-- The end of `getDwarfLocationAddress`: the address behind the operation `DW_OP_addr`.
pub address_in : List ℕ → Outcome ℕ
address_in [] = panic
address_in (op ∷ loc) = if op == 3 then le_number 4 loc else panic

-- A round of the loop of `supportedPython` on a segment: an address is an `int64`, and that of the
-- version is a `uint32`.
pub version_in : ℕ → ℕ → List ℕ → Outcome ℕ → Outcome ℕ
version_in version_addr vaddr seg more =
    let end = add64 vaddr (length seg) in
    let read : Outcome ℕ = slice_from (sub64 version_addr vaddr) seg >>= le_number 4 in
    if ltb version_addr vaddr && ltb vaddr (2 ^ 63)
    then ok 0
    else if leb (2 ^ 63) end || leb end (version_addr + 4)
    then more
    else read

-- The loop of `supportedPython`: `Py_Version`, 0 where it is not found. A round takes one of the
-- segments, so their number is fuel enough.
pub version_loop : ℕ → ℕ → DataIterator → Outcome ℕ
version_loop zero version_addr d = stuck
version_loop (suc fuel) version_addr d = do
  (vaddr, seg, d) ← next d
  elim seg [
    | none ↦ ok 0
    | some seg ↦ version_in version_addr vaddr seg (version_loop fuel version_addr d)
  ]

abbrev pub is_311 : ℕ → Bool
is_311 version = (version / 2 ^ 24 % 256 == 3) && (version / 2 ^ 16 % 256 == 11)

pub version_at : ℕ → List ℕ → Outcome Bool
version_at version_addr content = do
  d ← new_data_iterator content
  version ← version_loop (d.n + 1) version_addr d
  ok (is_311 version)

-- `AttrField` of the location of an entry is a parameter.
module _ (location_of : Entry → Option LocationAttr) where
  -- `getDwarfLocationAddress`.
  pub get_dwarf_location_address : Entry → Outcome ℕ
  get_dwarf_location_address e = elim (location_of e) [
    | none ↦ ok 0
    | some attr ↦ elim attr [ expression loc ↦ address_in loc | other_class ↦ panic ]
  ]

  -- `pythonAddress`: the first variable of a name.
  unfoldable pub python_address : List Entry → String → Outcome ℕ
  unfolding get_dwarf_location_address address_in
  python_address [] name = ok 0
  python_address (e ∷ entries) name =
      let rest = python_address entries name in
      if is_variable (e.tag) && is (or_empty (e.name)) name
      then get_dwarf_location_address e
      else rest

  -- `preparePython`: the address of the runtime, or an error.
  unfoldable pub prepare_python :
      (DebugSections → Option (List Entry)) → List (List ℕ × List ℕ) → Outcome (Option ℕ)
  unfolding python_address
  prepare_python dwarf_new sections = elim (new_dwarfparser dwarf_new sections) [
    | none ↦ ok none
    | some entries ↦
        python_address entries "_PyRuntime"
        >>= (λ addr. if addr == 0 then ok none else ok (some addr))
  ]

  -- `supportedPython`.
  pub supported_python : (DebugSections → Option (List Entry)) → List ℕ → Outcome Bool
  supported_python dwarf_new wasmbin = do
    p ← new_dwarf_parser_from_bin dwarf_new wasmbin
    elim p [
      | none ↦ ok false
      | some entries ↦ (do
        version_addr ← python_address entries "Py_Version"
        if version_addr == 0 then ok false else (do
          content ← wasmdata_section wasmbin
          elim content [ none ↦ ok false | some content ↦ version_at version_addr content ]))
    ]
