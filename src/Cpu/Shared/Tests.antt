-- ===== src/Cpu/Shared/Tests.antt =====
-- Runs of the profiler on stored traces.
use wzprof.Base.{ℕ, ◌≡◌, refl, List, [], ◌∷◌, false, none, length, ok, arith}
use wzprof.Trace.{Function}
use wzprof.Cpu.Sessions.{Run, done, call, starts, stops, run}
use wzprof.Cpu.Shared.{Machine, shared_run, run_handing, view_profiler, view_handed}
use wzprof.Cpu.Shared.Traces.{owners, count_traces, handed_traces}
use wzprof.Trace.Slices.Clones.{copies, copies-IsCloning}
use wzprof.Trace.Slices.{Slicing}
use wzprof.Trace.Store.Owned.{owned}
use wzprof.Cpu.Shared.Refines.{IsApart, shared_run-run_handing}

abbrev main : Function
main = record { module_name = "m"; index = 1; name = "main"; is_host = false }

abbrev doubling : Slicing Function
doubling = copies (λ n. n)

abbrev exact : Slicing ℕ
exact = copies (λ n. 0)

abbrev first_pc : List ℕ → ℕ
first_pc [] = 0
first_pc (b ∷ bs) = b

-- No array is allocated yet.
abbrev fresh : Machine
fresh = record {
  store = record {
    fns = record { next = 0; at = λ a i. main };
    pcs = record { next = 0; at = λ a i. 0 };
  };
  counts = none;
  frames = [];
  traces = [];
  start = 0;
  host = false;
  handed = [];
}

-- A profile with a call at one PC, and another profile with two calls that write into its slices.
abbrev two_profiles : Run
two_profiles = starts 5 (
    call 10 (record { fn = main; pc = 1 } ∷ []) 30 done (
      stops (
        starts 40 (
          call 50 (record { fn = main; pc = 2 } ∷ []) 60
            (call 52 (record { fn = main; pc = 3 } ∷ record { fn = main; pc = 2 } ∷ []) 57 done
              done)
            (stops done)))))

no_traces : owners fresh ≡ []
unfolding count_traces handed_traces
no_traces = refl

fresh-IsApart : IsApart fresh
unfolding IsApart owned
fresh-IsApart = rw no_traces (record {
  fns = record { once = λ a. omega arith; old = λ a l. omega arith };
  pcs = record { once = λ a. omega arith; old = λ a l. omega arith };
})

shared_run-run_handing_example :
    (q : Machine) × (shared_run doubling exact first_pc two_profiles fresh ≡ ok q)
    × (run_handing first_pc two_profiles (view_profiler fresh) (view_handed fresh)
        ≡ ok (view_profiler q, view_handed q))
    × (run first_pc two_profiles (view_profiler fresh) ≡ ok (view_profiler q))
    × IsApart q
    × (length q.frames ≡ 0)
shared_run-run_handing_example =
    shared_run-run_handing doubling exact first_pc (copies-IsCloning (λ n. n))
      (copies-IsCloning (λ n. 0)) two_profiles fresh fresh-IsApart
