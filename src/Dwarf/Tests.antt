-- ===== src/Dwarf/Tests.antt =====
-- The DWARF parser on a small section.
use wzprof.Base.{
  ◌==◌, if◌then◌else◌, ◌≡◌, refl, List, [], ◌∷◌, ◌++◌, true, false, Option, none, some, ok, arith,
}
use wzprof.Dwarf.{
  namespace, variable, other, Entry, Range, parse, enter_namespace, ranges_found, inline_of,
}
use wzprof.Dwarf.Forest.{Tree, leaf, branch, nil, cons}
use wzprof.Dwarf.Units.{put_trees, found_units, parse-trees}
use wzprof.WasmBin.Sections.{Section, custom, other, sections_bytes}
use wzprof.WasmBin.Leb.{groups}
use wzprof.WasmBin.{bytes_eq}
use wzprof.Dwarf.Sections.{
  DebugSections, debug_info, new_dwarf_parser_from_bin, new_dwarfparser, customs,
}
use wzprof.Dwarf.Sections.Same.{both_parsers-eq}
use wzprof.Dwarf.Locations.Tests.{entry, range, unit_entry, f, inlined_g, g, subprograms}

-- The ranges of the entries: `f` at 10, the call inlined in it, and nothing else.
abbrev ranges_of : Entry → Option (List Range)
ranges_of e =
    if e.offset == 3
    then some (range 10 30 ∷ [])
    else if e.offset == 4
    then some (range 14 18 ∷ [])
    else if e.offset == 5
    then some []
    else none

abbrev std : Entry
std = entry 2 namespace true (some "std") none

abbrev section : List Tree
section =
    branch unit_entry (
      cons (branch std (cons (branch f (cons (leaf inlined_g) nil)) (cons (leaf g) nil)))
        (cons (leaf (entry 6 variable false (some "v") none)) nil))
    ∷ leaf (entry 7 (other 65) false none none)
    ∷ []

parse-trees_example : parse ranges_of (put_trees section) ≡ ok (found_units ranges_of section)
parse-trees_example = parse-trees ranges_of section (
  (
    refl,
    refl,
    (
      (refl, refl, ((refl, refl, ((refl, refl, refl), tt)), ((refl, refl, refl), tt))),
      ((refl, refl, refl), tt),
    ),
  ),
  ((refl, refl, refl), tt),
)

found_in_section : found_units ranges_of section ≡ subprograms
unfolding enter_namespace ranges_found inline_of
found_in_section = refl

-- A module with a type section and the section of entries. `dwarf.New` wants the entries.
abbrev sections : List Section
sections = other 1 (96 ∷ []) ∷ custom (103 ∷ 111 ∷ []) (7 ∷ []) ∷ custom debug_info (9 ∷ []) ∷ []

abbrev dwarf_new : DebugSections → Option (List Entry)
dwarf_new s = elim s.info [ none ↦ none | some content ↦ some (unit_entry ∷ []) ]

both_parsers-eq_example :
    new_dwarf_parser_from_bin dwarf_new
      ((0 ∷ 97 ∷ 115 ∷ 109 ∷ 1 ∷ 0 ∷ 0 ∷ 0 ∷ []) ++ sections_bytes sections)
    ≡ ok (new_dwarfparser dwarf_new (customs sections))
unfolding groups bytes_eq
both_parsers-eq_example =
    both_parsers-eq dwarf_new (0 ∷ 97 ∷ 115 ∷ 109 ∷ 1 ∷ 0 ∷ 0 ∷ 0 ∷ []) sections refl
      (
        (omega arith, omega arith, (λ e. absurd (omega (arith, e)))),
        (omega arith, (omega arith, tt)),
      )
      (refl, (refl, tt))
