-- ===== src/Profiling/Tests.antt =====
-- A guest of an unknown language whose debug information does not parse, and one with DWARF.
use wzprof.Base.{
  ℕ, ◌≡◌, refl, true, false, List, [], ◌∷◌, ◌++◌, Option, none, some, ok, panic, ◌>>=◌, arith,
}
use wzprof.WasmBin.{bytes_eq}
use wzprof.WasmBin.Leb.{groups}
use wzprof.WasmBin.Sections.{Section, custom, other, sections_bytes}
use wzprof.Dwarf.{Entry, Range}
use wzprof.Dwarf.Sections.{DebugSections, debug_info, customs}
use wzprof.Dwarf.Forest.{Tree, branch, leaf, cons, nil}
use wzprof.Dwarf.Units.{put_trees, found_units}
use wzprof.Dwarf.Locations.Tests.{range, unit_entry, f, g, inlined_g}
use wzprof.Python.Setup.{LocationAttr, python_address}
use wzprof.Profiling.Prepare.{
  dwarfmapper, prepared, profiling_for_binary, prepare_module, prepare_module-trees,
}
use wzprof.Profiling.{unknown, Profiling, profiling_of, prepare, cpu_profiler}
use wzprof.Profiling.Protocol.{FollowsProtocol, constructors_protocol}

abbrev a_profiling : Profiling
a_profiling = profiling_of unknown [] []

constructors_protocol_example : FollowsProtocol false true true 3 a_profiling
constructors_protocol_example = constructors_protocol a_profiling false true true 3 refl

-- `Prepare` reports no error, and the CPU profiler's constructor panics.
prepare_run :
    ((prepare false a_profiling).0 ≡ false)
    × (cpu_profiler true (prepare false a_profiling).1 ≡ panic)
unfolding prepare cpu_profiler
prepare_run = (refl, refl)

-- A compile unit with two functions, in one of which a call is inlined.
abbrev unit : List Tree
unit = branch unit_entry (cons (branch f (cons (leaf inlined_g) nil)) (cons (leaf g) nil)) ∷ []

abbrev dwarf_new : DebugSections → Option (List Entry)
dwarf_new s = elim s.info [ none ↦ none | some content ↦ some (put_trees unit) ]

abbrev location_of : Entry → Option LocationAttr
location_of e = none

abbrev ranges_of : Entry → Option (List Range)
ranges_of e = some (range 10 30 ∷ [])

abbrev sections : List Section
sections = other 1 (96 ∷ []) ∷ custom debug_info (9 ∷ []) ∷ []

abbrev header : List ℕ
header = 0 ∷ 97 ∷ 115 ∷ 109 ∷ 1 ∷ 0 ∷ 0 ∷ 0 ∷ []

prepare_module-trees_example :
    (profiling_for_binary dwarf_new location_of ranges_of (header ++ sections_bytes sections)
      >>= prepare_module dwarf_new location_of ranges_of 9
          (header ++ sections_bytes sections)
          (customs sections)
          2)
    ≡ ok (prepared (dwarfmapper (found_units ranges_of unit)) (profiling_of unknown [] []))
unfolding groups bytes_eq python_address
prepare_module-trees_example =
    prepare_module-trees dwarf_new location_of ranges_of header sections unit 9 2 refl
      ((omega arith, omega arith, (λ e. absurd (omega (arith, e)))), (omega arith, tt)) (refl, tt)
      refl ((refl, refl, ((refl, refl, ((refl, refl, refl), tt)), ((refl, refl, refl), tt))), tt)
      refl refl
