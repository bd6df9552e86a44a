-- ===== src/Command/Tests.antt =====
-- The command line at concrete arguments.
use wzprof.Base.{
  ℕ, ◌≡◌, refl, List, [], ◌∷◌, ◌++◌, true, false, Option, none, some, ◌⊎◌, panic, arith,
}
use wzprof.WasmBin.{bytes_eq}
use wzprof.WasmBin.Leb.{groups}
use wzprof.WasmBin.Sections.{Section, custom, other, sections_bytes}
use wzprof.Dwarf.{Entry, Range}
use wzprof.Dwarf.Sections.{DebugSections, debug_info, customs}
use wzprof.Dwarf.Locations.Tests.{unit_entry}
use wzprof.Python.Setup.{LocationAttr, python_address}
use wzprof.Profiling.{unknown, profiling_of}
use wzprof.Profiling.Prepare.{profiling_for_other}
use wzprof.Command.{Mount, split, create_fs_config}
use wzprof.Command.Mounts.{create_fs_config-mounts_text}
use wzprof.Command.Startup.{Program, Surroundings, creating, returned, session, run}
use wzprof.Command.Startup.Runs.{IsOrderly, IsCutOff, session-IsOrderly, run_panics}

-- `/a:/b:ro,c:d`.
abbrev two_mounts : List Mount
two_mounts =
    record { dir = 47 ∷ 97 ∷ []; guest = 47 ∷ 98 ∷ []; read_only = true }
    ∷ record { dir = 99 ∷ []; guest = 100 ∷ []; read_only = false }
    ∷ []

create_fs_config-mounts_text_example :
    create_fs_config (split (47 ∷ 97 ∷ 58 ∷ 47 ∷ 98 ∷ 58 ∷ 114 ∷ 111 ∷ 44 ∷ 99 ∷ 58 ∷ 100 ∷ []))
    ≡ some two_mounts
create_fs_config-mounts_text_example = create_fs_config-mounts_text two_mounts (omega arith)

-- Both profiles of the host, the second of whose files cannot be created.
abbrev a_program : Program
a_program = record {
  file_path = 97 ∷ [];
  args = [];
  pprof_addr = [];
  cpu_profile = 99 ∷ [];
  mem_profile = 109 ∷ [];
  sampled = true;
  host_profile = true;
  host_time = false;
  inuse_memory = false;
  mounts = [];
}

abbrev sections : List Section
sections = other 1 (96 ∷ []) ∷ custom debug_info (9 ∷ []) ∷ []

abbrev wasm : List ℕ
wasm = (0 ∷ 97 ∷ 115 ∷ 109 ∷ 1 ∷ 0 ∷ 0 ∷ 0 ∷ []) ++ sections_bytes sections

abbrev here : Surroundings
here = record {
  file = some wasm;
  compiles = true;
  sections = customs sections;
  imported = 2;
  creates_cpu = true;
  creates_mem = false;
  starts_host_cpu = false;
  starts_cpu = true;
  stops_cpu = true;
  guest_fails = false;
  now = 5;
}

session-IsOrderly_example :
    ((mounts : List Mount)
      → create_fs_config [] ≡ some mounts
      → IsOrderly a_program here (session a_program here))
    × (create_fs_config [] ≡ none
        → ((IsOrderly a_program here (session a_program here))
            × ((session a_program here).ended ≡ returned (some creating)))
          ⊎ IsCutOff a_program here (session a_program here))
session-IsOrderly_example = session-IsOrderly a_program here

abbrev dwarf_new : DebugSections → Option (List Entry)
dwarf_new s = some (unit_entry ∷ [])

abbrev location_of : Entry → Option LocationAttr
location_of e = none

abbrev ranges_of : Entry → Option (List Range)
ranges_of e = none

run_panics_example : run dwarf_new location_of ranges_of 9 a_program here ≡ panic
unfolding groups bytes_eq python_address
run_panics_example =
    run_panics dwarf_new location_of ranges_of 9 a_program here wasm (profiling_of unknown [] [])
      refl
      (profiling_for_other dwarf_new location_of ranges_of (0 ∷ 97 ∷ 115 ∷ 109 ∷ 1 ∷ 0 ∷ 0 ∷ 0 ∷ [])
        sections (unit_entry ∷ []) refl
        ((omega arith, omega arith, (λ e. absurd (omega (arith, e)))), (omega arith, tt)) refl refl
        refl)
