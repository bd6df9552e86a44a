-- ===== src/Dwarf/Sections.antt =====
-- dwarf.go: the DWARF sections of a module, given by wazero or found in the binary. `dwarf.New` is a
-- parameter: it returns an error, or data whose reader gives entries.
pub mod Same
use wzprof.Base.{
  ℕ, ◌≡◌, refl, sym, ap, ◌∙◌, subst, Bool-cases, ◌==◌, ◌&&◌, ==→eq, inl, inr, arith, List, [], ◌∷◌,
  ◌++◌, Bool, true, false, Option, none, some, if◌then◌else◌, length, Outcome, ok, ◌>>=◌,
}
use wzprof.WasmBin.{bytes_eq, wasm_custom_section}
use wzprof.WasmBin.Sections.{
  Section, custom, other, sections_bytes, AreSections, custom_named, wasm_custom_section-sections,
}
use wzprof.Dwarf.{Entry}

-- The names of the sections: `.debug_info`, `.debug_line`, `.debug_str`, `.debug_abbrev`, `.debug_ranges`.
abbrev pub debug_ : List ℕ → List ℕ
debug_ name = 46 ∷ 100 ∷ 101 ∷ 98 ∷ 117 ∷ 103 ∷ 95 ∷ name

abbrev pub debug_info : List ℕ
debug_info = debug_ (105 ∷ 110 ∷ 102 ∷ 111 ∷ [])

abbrev pub debug_line : List ℕ
debug_line = debug_ (108 ∷ 105 ∷ 110 ∷ 101 ∷ [])

abbrev pub debug_str : List ℕ
debug_str = debug_ (115 ∷ 116 ∷ 114 ∷ [])

abbrev pub debug_abbrev : List ℕ
debug_abbrev = debug_ (97 ∷ 98 ∷ 98 ∷ 114 ∷ 101 ∷ 118 ∷ [])

abbrev pub debug_ranges : List ℕ
debug_ranges = debug_ (114 ∷ 97 ∷ 110 ∷ 103 ∷ 101 ∷ 115 ∷ [])

-- The sections that were found. A nil slice is `none`.
pub record DebugSections : Type 0 where
  pub info : Option (List ℕ)
  pub line : Option (List ℕ)
  pub ranges : Option (List ℕ)
  pub str : Option (List ℕ)
  pub abbrevs : Option (List ℕ)

abbrev pub no_sections : DebugSections
no_sections = record { info = none; line = none; ranges = none; str = none; abbrevs = none }

-- The switch of `newDwarfparser` on the name of a section.
pub with_section : List ℕ → List ℕ → DebugSections → DebugSections
with_section name content found =
    if bytes_eq name debug_info
    then record found { info = some content }
    else if bytes_eq name debug_line
    then record found { line = some content }
    else if bytes_eq name debug_str
    then record found { str = some content }
    else if bytes_eq name debug_abbrev
    then record found { abbrevs = some content }
    else if bytes_eq name debug_ranges
    then record found { ranges = some content }
    else found

pub collect_sections : List (List ℕ × List ℕ) → DebugSections → DebugSections
collect_sections [] found = found
collect_sections ((name, content) ∷ sections) found =
    collect_sections sections (with_section name content found)

-- `newDwarfparser`, on what `CustomSections` returns.
unfoldable pub new_dwarfparser :
    (DebugSections → Option (List Entry)) → List (List ℕ × List ℕ) → Option (List Entry)
unfolding collect_sections with_section
new_dwarfparser dwarf_new sections = dwarf_new (collect_sections sections no_sections)

-- `newDwarfParserFromBin`.
pub new_dwarf_parser_from_bin :
    (DebugSections → Option (List Entry)) → List ℕ → Outcome (Option (List Entry))
new_dwarf_parser_from_bin dwarf_new wasmbin = do
  info ← wasm_custom_section wasmbin debug_info
  line ← wasm_custom_section wasmbin debug_line
  ranges ← wasm_custom_section wasmbin debug_ranges
  str ← wasm_custom_section wasmbin debug_str
  abbrevs ← wasm_custom_section wasmbin debug_abbrev
  ok (
      dwarf_new
        (record { info = info; line = line; ranges = ranges; str = str; abbrevs = abbrevs }))

-- The sections of a module, by name.
abbrev pub sections_of : List Section → DebugSections
sections_of secs = record {
  info = custom_named debug_info secs;
  line = custom_named debug_line secs;
  ranges = custom_named debug_ranges secs;
  str = custom_named debug_str secs;
  abbrevs = custom_named debug_abbrev secs;
}

pub new_dwarf_parser_from_bin-sections :
    (dwarf_new : DebugSections → Option (List Entry)) (header : List ℕ) (secs : List Section)
    → length header ≡ 8
    → AreSections secs
    → new_dwarf_parser_from_bin dwarf_new (header ++ sections_bytes secs)
      ≡ ok (dwarf_new (sections_of secs))
unfolding new_dwarf_parser_from_bin
new_dwarf_parser_from_bin-sections dwarf_new header secs h v =
    rw
      (
        wasm_custom_section-sections header debug_info secs h v,
        wasm_custom_section-sections header debug_line secs h v,
        wasm_custom_section-sections header debug_ranges secs h v,
        wasm_custom_section-sections header debug_str secs h v,
        wasm_custom_section-sections header debug_abbrev secs h v,
      )
      refl

-- What `CustomSections` returns: the names and contents of the custom sections, in order.
abbrev pub customs : List Section → List (List ℕ × List ℕ)
customs [] = []
customs (custom name content ∷ secs) = (name, content) ∷ customs secs
customs (other id content ∷ secs) = customs secs
