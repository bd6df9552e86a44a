-- ===== src/Profiling.antt =====
-- wzprof.go: `Profiling`, which chooses the analysis of a guest and constructs the profilers; and which
-- functions the CPU profiler listens to.
pub mod Protocol
pub mod Prepare
mod Tests
use Prim.Native.String.{String}
use text.Mathlib.Text.{◌==◌ as str_eq}
use wzprof.Base.{
  ℕ, List, [], ◌∷◌, Bool, true, false, not, ◌&&◌, ◌||◌, if◌then◌else◌, Outcome, ok, ◌>>=◌, ◌>>◌,
  require,
}
use wzprof.WasmBin.{wasm_has_custom_section}
use wzprof.Cpu.{CpuProfiler, new_cpu_profiler}
use wzprof.Mem.{MemoryProfiler, new_memory_profiler}

-- `language`.
pub data Language : Type 0 where
  unknown golang python311 : Language

-- `Profiling`, less the binary, the symbolizer and the stack iterator. The two sets are lists.
pub record Profiling : Type 0 where
  pub lang : Language
  pub only_functions : List String
  pub filtered_functions : List String
  pub prepare_called : Bool

-- `binCompiledByGo`: the name is `go:buildid`.
unfoldable pub bin_compiled_by_go : List ℕ → Outcome Bool
bin_compiled_by_go b =
    wasm_has_custom_section b (103 ∷ 111 ∷ 58 ∷ 98 ∷ 117 ∷ 105 ∷ 108 ∷ 100 ∷ 105 ∷ 100 ∷ [])

abbrev pub unlistened : List String
unlistened =
    "_rt0_wasm_js" ∷ "_rt0_wasm_wasip1" ∷ "wasm_export_run" ∷ "wasm_export_resume"
    ∷ "wasm_export_getsp" ∷ "wasm_pc_f_loop" ∷ "gcWriteBarrier" ∷ "runtime.gcWriteBarrier1"
    ∷ "runtime.gcWriteBarrier2" ∷ "runtime.gcWriteBarrier3" ∷ "runtime.gcWriteBarrier4"
    ∷ "runtime.gcWriteBarrier5" ∷ "runtime.gcWriteBarrier6" ∷ "runtime.gcWriteBarrier7"
    ∷ "runtime.gcWriteBarrier8" ∷ "runtime.wasmDiv" ∷ "runtime.wasmTruncS" ∷ "runtime.wasmTruncU"
    ∷ "cmpbody" ∷ "memeqbody" ∷ "memcmp" ∷ "memchr" ∷ []

abbrev pub profiling_of : Language → List String → List String → Profiling
profiling_of lang only filtered = record {
  lang = lang;
  only_functions = only;
  filtered_functions = filtered;
  prepare_called = false;
}

-- `ProfilingFor`. Whether the binary is that of the supported CPython is an argument.
unfoldable pub profiling_for : Bool → List ℕ → Outcome Profiling
profiling_for supported_python wasm = bin_compiled_by_go wasm >>= (λ go. ok (
    if go
    then profiling_of golang [] unlistened
    else if supported_python
    then profiling_of python311 ("PyObject_Vectorcall" ∷ []) []
    else profiling_of unknown [] []))

-- `Prepare`, where the symbolizer of the language is made or not. The result is true for an error.
pub prepare : Bool → Profiling → Bool × Profiling
prepare made p = elim p.lang [
  | golang ↦ if made then (false, record p { prepare_called = true }) else (true, p)
  | python311 ↦ if made then (false, record p { prepare_called = true }) else (true, p)
  | unknown ↦ if made then (false, record p { prepare_called = true }) else (false, p)
]

-- `Profiling.CPUProfiler` and `Profiling.MemoryProfiler`, with their options.
pub cpu_profiler : Bool → Profiling → Outcome CpuProfiler
cpu_profiler host p = do require p.prepare_called; ok (new_cpu_profiler host)

pub memory_profiler : Bool → ℕ → Profiling → Outcome MemoryProfiler
memory_profiler inuse now p = do require p.prepare_called; ok (new_memory_profiler inuse now)

unfoldable pub is_among : List String → String → Bool
is_among [] name = false
is_among (n ∷ names) name = str_eq n name || is_among names name

-- `CPUProfiler.NewFunctionListener`: whether it returns a listener.
unfoldable pub listens : Profiling → String → Bool
listens p name = elim p.only_functions [
  | [] ↦ not (is_among p.filtered_functions name)
  | n ∷ names ↦ is_among (n ∷ names) name && not (is_among p.filtered_functions name)
]
