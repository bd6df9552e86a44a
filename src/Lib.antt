-- ===== src/Lib.antt =====
-- wzprof profiles WebAssembly guests from the host: wazero calls its listeners around guest
-- functions, the listeners walk the guest's stack and book time or memory under it, and the books
-- become a pprof profile. This library models its core and proves it correct.
--
-- The parts, and the file of each:
--   Base       numbers and words of 2 ^ w values, lists, bits, and `Outcome`: a Go call returns,
--              panics, or, when a loop runs on fuel, has no end within it.
--   Sample     sample.go: the stack of bits, and the listeners that let every n-th call through
--              (`Sample`) or the calls that start while a flag is set (`Flag`); in Sample/Functions the
--              listeners of all functions, around one profiler.
--   Trace      wzprof.go: stack traces (`makeStackTrace`), and the counters by their keys
--              (`stackCounterMap`). In Trace/Store the same on slices that share arrays (Trace/Slices),
--              which `makeStackTrace` writes into and `clone` copies.
--   Cpu        cpu.go: `StartProfile`, `StopProfile`, and the listener's `Before` and `After`, with
--              the frames of the calls that are running; in Cpu/Handler the HTTP handler. Cpu/Shared
--              is the profiler on the traces of Trace/Store, whose slices it reuses, and Cpu/Sampled the
--              profiler under `Sample`.
--   Mem        mem.go: `observeAlloc`, `observeFree`, `snapshot`, and in Mem/Hooks the listeners on
--              the allocation functions.
--   WasmBin    wasmbin.go: the sections of a wasm binary, its data segments, and the bytes they lay out.
--   Pclntab    pclntab.go: the search for Go's symbol tables (Pclntab/Scan), their load from the
--              guest's memory (Pclntab/Load), `FindFunc`, and the conversions of addresses.
--   Traceback  traceback.go and `goStackIterator`: the unwinder of Go stacks and the pc-value tables,
--              and in Traceback/Walk a whole walk, from the start that `Prepare` gives it.
--   Symbols    pclntab.go and traceback.go: the inline unwinder, files and lines, and `Locations`.
--   Python     python.go: the iterator over the frames of CPython (Python/Frames), its names and
--              lines, and the setup from the binary (Python/Setup).
--   Dwarf      dwarf.go: the sections of a module (Dwarf/Sections), the parser of entries into
--              subprograms, and the locations of an offset (Dwarf/Locations).
--   Profiling  wzprof.go: `ProfilingFor`, `Prepare` and the constructors of the profilers, and the
--              functions that the CPU profiler listens to. In Profiling/Prepare on a whole binary.
--   Profile    wzprof.go: `buildProfile` and `locationForCall`.
--   Profilers  mem.go: `NewProfile`, from the books of the memory profiler to a profile; and in
--              Profilers/CpuProfile, cpu.go: `StopProfile`, from the counters to a profile.
--   Endpoints  pprof.go: the entries of the HTTP handler, and which of them answers a request.
--   Command    cmd/wzprof/main.go: the mounts, and in Command/Startup the order of what `run` does, up
--              to its return, a panic, or the exit of the process.
--
-- They meet as in the code. `Sample` and `Flag` wrap any listener, which is a record of three
-- functions on a state. The profilers make a trace of the frames that a stack iterator yields, which
-- Traceback walks on Go guests and Python on CPython, and book it with `Trace.observe`.
-- `Profile.build_profile` takes the samples and a symbolizer, which Symbols is for Go, Python for
-- CPython and Dwarf for the others. `Profiling.Prepare.prepare_module` chooses among them by what
-- WasmBin and Dwarf find in the binary, and `Command.Startup.run` calls it.
--
-- State is passed explicitly: a method takes the receiver's record and returns it. A map is an
-- association list with one entry for each key; where Go's order of iteration could show, the order
-- is an argument. A word of w bits is a number below 2 ^ w, with the wrap written out, and an `int64`
-- sum is taken modulo 2 ^ 64. An index out of range, a nil access and a call of `panic` are
-- `Outcome.panic`. Runs of a guest are trees of nested calls, with each call's clock readings.
--
-- Fuel: the loops over bytes and over tables run on one more than the length of what they read, and
-- each round reads at least one element; so do the loops of the DWARF parser over its entries.
-- `find_start_of_module_data`, and with it `Prepare`, and the loop over the data segments take their
-- fuel as an argument, since they need not end, and so do the loops of `Locations`, since nothing in the
-- tables bounds a chain of inlined calls or of abstract origins, and `lineForFrame` and the walk of a
-- stack, which go on as far as the guest's memory tells.
--
-- Parameters: the hash of a trace, `slices.Clone` and what the runtime adds to a capacity, the
-- wrapped listener, the guest's memory, the symbolizer, and what Go's unsafe cast of an
-- inlined function's record reads; of debug/dwarf the entries that it reads from the sections,
-- their ranges and location attributes, its line rows, and the sort of the subprograms;
-- `filepath.Dir`; the host's profiles and the sort of the entries of a page; and the
-- surroundings of the command: its file, whether wazero compiles it, whether the calls start a profile,
-- and how the guest ends.
--
-- Not modelled: the text of the page of pprof.go and the headers of its answers, the profiles of the
-- host, what is logged, the scaling of a profile's values by the sampling rate, which is a float, and
-- the methods that print or only panic. Two traces with one hash share a counter, as in the code. The
-- models of the profilers other than Cpu/Shared take traces to be separate values.
pub mod Base
pub mod Command
pub mod Cpu
pub mod Endpoints
pub mod Mem
pub mod Pclntab
pub mod Profile
pub mod Profilers
pub mod Profiling
pub mod Sample
pub mod Symbols
pub mod Trace
pub mod Traceback
pub mod WasmBin
pub mod Dwarf
pub mod Python
