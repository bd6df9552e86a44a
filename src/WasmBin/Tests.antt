-- ===== src/WasmBin/Tests.antt =====
-- Runs of the parsers of wasmbin.go, and the theorems at concrete modules.
use wzprof.Base.{ℕ, ◌≡◌, ◌≢◌, refl, List, [], ◌∷◌, ◌++◌, ok, ◌>>=◌, arith}
use wzprof.WasmBin.Leb.{groups}
use wzprof.WasmBin.{wasm_custom_section, new_data_iterator}
use wzprof.WasmBin.Segments.{data_bytes, read_all, read_all-data_bytes}
use wzprof.WasmBin.Sections.{
  Section, AreSections, custom, other, sections_bytes, wasm_custom_section-sections, custom_named,
}

abbrev header : List ℕ
header = 0 ∷ 97 ∷ 115 ∷ 109 ∷ 1 ∷ 0 ∷ 0 ∷ 0 ∷ []

-- A type section, a custom section named `go`, and a data section.
abbrev a_module : List Section
a_module = other 1 (96 ∷ []) ∷ custom (103 ∷ 111 ∷ []) (7 ∷ 8 ∷ []) ∷ other 11 (3 ∷ 4 ∷ 5 ∷ []) ∷ []

a_module-AreSections : AreSections a_module
unfolding groups
a_module-AreSections = (
  ((λ e. omega (arith, e)), omega arith, λ e. absurd (omega (arith, e))),
  (omega arith, (((λ e. omega (arith, e)), omega arith, λ e n. nonempty n), tt)),
)
  where
    nonempty : ◌≢◌ {A = List ℕ} (3 ∷ 4 ∷ 5 ∷ []) []
    nonempty n = cc

wasm_custom_section-sections_example :
    wasm_custom_section (header ++ sections_bytes a_module) (103 ∷ 111 ∷ [])
    ≡ ok (custom_named (103 ∷ 111 ∷ []) a_module)
wasm_custom_section-sections_example =
    wasm_custom_section-sections header (103 ∷ 111 ∷ []) a_module refl a_module-AreSections

abbrev two_segments : List (ℕ × List ℕ)
two_segments = (1000, 1 ∷ 2 ∷ []) ∷ (70000, 3 ∷ []) ∷ []

read_all-data_bytes_example :
    (new_data_iterator (data_bytes two_segments) >>= read_all 3) ≡ ok two_segments
read_all-data_bytes_example =
    read_all-data_bytes two_segments ((omega arith, omega arith), ((omega arith, omega arith), tt))
      (omega arith)
