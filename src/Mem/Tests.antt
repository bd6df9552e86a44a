-- ===== src/Mem/Tests.antt =====
-- Runs of the memory profiler, and its theorems at concrete inputs.
use wzprof.Base.{ℕ, ◌%◌, ◌^◌, ◌≡◌, refl, List, [], ◌∷◌, true, Option, some, none, ok, arith}
use wzprof.Trace.{StackTrace}
use wzprof.Mem.{
  MemoryProfiler, Inuse, new_memory_profiler, Samples, snapshot, observe_alloc, observe_free,
}
use wzprof.Mem.Hooks.{
  malloc, realloc, free, HookState, Guest, fresh_hook, after, before, new_function_listener, calloc,
}
use wzprof.Mem.Inuse.{
  Told, returned, aborted, tell_all, told-snapshot, Use, mallocs, callocs, reallocs, frees, view,
  live_all, perform, perform_all, perform_all-live, realloc_fails,
}
use wzprof.Mem.Totals.{Totals}

abbrev stack : ℕ → StackTrace
stack k = record { fns = []; pcs = k ∷ []; key = k }

abbrev allocating : ℕ → ℕ → HookState
allocating k n = record fresh_hook { size = n; stack = stack k }

-- Two allocations on one stack and one on another; the first object is freed.
abbrev history : List Told
history =
    returned malloc (100 ∷ []) (allocating 7 16)
    ∷ returned malloc (200 ∷ []) (allocating 7 32)
    ∷ returned realloc (300 ∷ []) (record (allocating 8 64) { addr = 200 })
    ∷ aborted free (record fresh_hook { addr = 100 })
    ∷ []

abbrev held_after : MemoryProfiler
held_after = observe_free 100 (
    observe_alloc 300 64 (stack 8) (
      observe_free 200 (
        observe_alloc 200 32 (stack 7)
          (observe_alloc 100 16 (stack 7) (new_memory_profiler true 1)))))

told-snapshot_example : (m : Samples) × (snapshot held_after ≡ ok m) × Totals held_after m
unfolding tell_all after wzprof.Mem.Hooks.abort
told-snapshot_example = told-snapshot true 1 history held_after refl

abbrev toy_hash : List ℕ → ℕ
toy_hash bytes = 0

abbrev no_guest : Guest
no_guest = record { global_zero = 0; read = λ a n. none }

abbrev with_inuse : MemoryProfiler
with_inuse = record { alloc = []; inuse = some []; start = 0 }

abbrev uses : List Use
uses = mallocs 16 100 ∷ callocs 4 8 200 ∷ frees 100 ∷ reallocs 200 64 300 ∷ []

perform_all-live_example :
    (q : MemoryProfiler) × (m' : Inuse) × (perform_all toy_hash no_guest [] fresh_hook uses
        with_inuse
      ≡ ok q)
    × (q.inuse ≡ some m')
    × (view m' ≡ live_all uses (view []))
perform_all-live_example =
    perform_all-live toy_hash no_guest [] fresh_hook uses with_inuse []
      (omega arith, ((omega arith, omega arith), (tt, (omega arith, tt)))) refl

realloc_fails_example :
    (q : MemoryProfiler) × (m' : Inuse) × (perform toy_hash no_guest [] fresh_hook
        (reallocs 200 64 0)
        with_inuse
      ≡ ok q)
    × (q.inuse ≡ some m')
    × (view m' 200 ≡ none)
    × (view m' 0 ≡ some 64)
realloc_fails_example =
    realloc_fails toy_hash no_guest [] fresh_hook 200 64 with_inuse [] refl (omega arith)

hooks :
    (new_function_listener true "PyObject_Calloc" ≡ some calloc)
    × (new_function_listener true "malloc" ≡ none)
    × (new_function_listener wzprof.Base.false "runtime.alloc" ≡ some malloc)
unfolding new_function_listener
hooks = (refl, refl, refl)
