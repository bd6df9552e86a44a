-- ===== src/Dwarf/Sections/Same.antt =====
-- The two ways to the DWARF sections of a module: from the binary, and from the sections that wazero gives.
use wzprof.Base.{
  ℕ, ◌≡◌, refl, sym, ap, ◌∙◌, subst, Bool-cases, inl, inr, List, [], ◌∷◌, ◌++◌, true, false, Option,
  none, some, length, ok,
}
use wzprof.WasmBin.Bytes.{bytes_eq→eq}
use wzprof.WasmBin.{bytes_eq}
use wzprof.WasmBin.Sections.{Section, custom, other, sections_bytes, AreSections, custom_named}
use wzprof.Dwarf.{Entry}
use wzprof.Dwarf.Sections.{
  debug_info, debug_line, debug_str, debug_abbrev, debug_ranges, DebugSections, no_sections,
  with_section, collect_sections, new_dwarfparser, new_dwarf_parser_from_bin, sections_of,
  new_dwarf_parser_from_bin-sections, customs,
}

-- No two custom sections have one name.
abbrev pub NamesDiffer : List Section → Type 0
NamesDiffer [] = Unit {0}
NamesDiffer (custom name content ∷ secs) = (custom_named name secs ≡ none) × NamesDiffer secs
NamesDiffer (other id content ∷ secs) = NamesDiffer secs

abbrev or_else : Option (List ℕ) → Option (List ℕ) → Option (List ℕ)
or_else none old = old
or_else (some s) old = some s

-- What was found, and over it what there is.
abbrev over : DebugSections → DebugSections → DebugSections
over found more = record {
  info = or_else more.info found.info;
  line = or_else more.line found.line;
  ranges = or_else more.ranges found.ranges;
  str = or_else more.str found.str;
  abbrevs = or_else more.abbrevs found.abbrevs;
}

module _ (content : List ℕ) (secs : List Section) (found : DebugSections) where
  abbrev TakesIn : List ℕ → Type 0
  TakesIn name =
      over (with_section name content found) (sections_of secs)
      ≡ over found (sections_of (custom name content ∷ secs))

  takes_debug : (n : List ℕ) (name : List ℕ) → bytes_eq name n ≡ true → TakesIn n → TakesIn name
  takes_debug n name e h = subst TakesIn (sym (bytes_eq→eq name n e)) h

  takes_info : custom_named debug_info secs ≡ none → TakesIn debug_info
  unfolding with_section bytes_eq
  takes_info none_later = rw none_later refl

  takes_line : custom_named debug_line secs ≡ none → TakesIn debug_line
  unfolding with_section bytes_eq
  takes_line none_later = rw none_later refl

  takes_str : custom_named debug_str secs ≡ none → TakesIn debug_str
  unfolding with_section bytes_eq
  takes_str none_later = rw none_later refl

  takes_abbrev : custom_named debug_abbrev secs ≡ none → TakesIn debug_abbrev
  unfolding with_section bytes_eq
  takes_abbrev none_later = rw none_later refl

  takes_ranges : custom_named debug_ranges secs ≡ none → TakesIn debug_ranges
  unfolding with_section bytes_eq
  takes_ranges none_later = rw none_later refl

  takes_other :
      (name : List ℕ)
      → bytes_eq name debug_info ≡ false
      → bytes_eq name debug_line ≡ false
      → bytes_eq name debug_str ≡ false
      → bytes_eq name debug_abbrev ≡ false
      → bytes_eq name debug_ranges ≡ false
      → TakesIn name
  unfolding with_section
  takes_other name i l s a r = rw (i, l, s, a, r) refl

  -- A section with a name that no later one has.
  takes_in : (name : List ℕ) → custom_named name secs ≡ none → TakesIn name
  takes_in name once = elim (Bool-cases (bytes_eq name debug_info)) [
    | inl e ↦ takes_debug debug_info name e (takes_info (later debug_info e))
    | inr i ↦ elim (Bool-cases (bytes_eq name debug_line)) [
      | inl e ↦ takes_debug debug_line name e (takes_line (later debug_line e))
      | inr l ↦ elim (Bool-cases (bytes_eq name debug_str)) [
        | inl e ↦ takes_debug debug_str name e (takes_str (later debug_str e))
        | inr s ↦ elim (Bool-cases (bytes_eq name debug_abbrev)) [
          | inl e ↦ takes_debug debug_abbrev name e (takes_abbrev (later debug_abbrev e))
          | inr a ↦ elim (Bool-cases (bytes_eq name debug_ranges)) [
            | inl e ↦ takes_debug debug_ranges name e (takes_ranges (later debug_ranges e))
            | inr r ↦ takes_other name i l s a r
          ]
        ]
      ]
    ]
  ]
    where
      later : (n : List ℕ) → bytes_eq name n ≡ true → custom_named n secs ≡ none
      later n e = subst (λ (m : List ℕ). custom_named m secs ≡ none) (bytes_eq→eq name n e) once

collect_sections-over :
    (secs : List Section) (found : DebugSections)
    → NamesDiffer secs
    → collect_sections (customs secs) found ≡ over found (sections_of secs)
unfolding collect_sections
collect_sections-over [] found w = refl
collect_sections-over (custom name content ∷ secs) found w =
    collect_sections-over secs (with_section name content found) w.1
    ∙ takes_in content secs found name w.0
collect_sections-over (other id content ∷ secs) found w = collect_sections-over secs found w

or_else-none : (o : Option (List ℕ)) → or_else o none ≡ o
or_else-none none = refl
or_else-none (some s) = refl

collect_sections-customs :
    (secs : List Section)
    → NamesDiffer secs
    → collect_sections (customs secs) no_sections ≡ sections_of secs
collect_sections-customs secs w = collect_sections-over secs no_sections w ∙ (λ i. record {
  info = or_else-none (custom_named debug_info secs) i;
  line = or_else-none (custom_named debug_line secs) i;
  ranges = or_else-none (custom_named debug_ranges secs) i;
  str = or_else-none (custom_named debug_str secs) i;
  abbrevs = or_else-none (custom_named debug_abbrev secs) i;
})

pub new_dwarfparser-customs :
    (dwarf_new : DebugSections → Option (List Entry)) (secs : List Section)
    → NamesDiffer secs
    → new_dwarfparser dwarf_new (customs secs) ≡ dwarf_new (sections_of secs)
unfolding new_dwarfparser
new_dwarfparser-customs dwarf_new secs w = ap dwarf_new (collect_sections-customs secs w)

-- On a module of any header and any sections whose sizes fit their fields, with no two custom
-- sections of one name, `newDwarfParserFromBin` on the binary and `newDwarfparser` on the custom
-- sections that wazero gives find the same sections, so they have the same result.
pub both_parsers-eq :
    (dwarf_new : DebugSections → Option (List Entry)) (header : List ℕ) (secs : List Section)
    → length header ≡ 8
    → AreSections secs
    → NamesDiffer secs
    → new_dwarf_parser_from_bin dwarf_new (header ++ sections_bytes secs)
      ≡ ok (new_dwarfparser dwarf_new (customs secs))
both_parsers-eq dwarf_new header secs h v w =
    new_dwarf_parser_from_bin-sections dwarf_new header secs h v
    ∙ ap (λ (o : Option (List Entry)). ok o) (sym (new_dwarfparser-customs dwarf_new secs w))
