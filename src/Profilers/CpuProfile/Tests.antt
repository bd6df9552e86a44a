-- ===== src/Profilers/CpuProfile/Tests.antt =====
-- The profile of a call that makes another call.
use mathlib.Core.List.Perm
use wzprof.Base.{ℕ, ◌%◌, ◌^◌, ◌≡◌, List, [], ◌∷◌, map, true, some, none, ok, arith}
use wzprof.Trace.{StackFrame, Counts}
use wzprof.Cpu.{CpuProfiler, new_cpu_profiler, start_profile}
use wzprof.Cpu.Stacks.{kept}
use wzprof.Cpu.Time.{Calls, done, call, size, elapsed, run}
use wzprof.Profile.{PprofSample, Profile}
use wzprof.Profilers.Tests.{a_function, symbols, same_order}
use wzprof.Profilers.CpuProfile.{stop_and_build}
use wzprof.Profilers.CpuProfile.Columns.{counted, calls_column, time_column, stop-columns}

abbrev at_pc : ℕ → List StackFrame
at_pc pc = record { fn = a_function; pc = pc } ∷ []

abbrev low_byte : List ℕ → ℕ
low_byte [] = 0
low_byte (b ∷ bs) = b

-- From 10 to 30, with a call from 12 to 19.
abbrev nested : Calls
nested = call 10 (at_pc 1) 30 (call 12 (at_pc 2) 19 done done) done

stop-columns_example :
    (q : CpuProfiler) × (n : Counts) × (prof : Profile) × (run low_byte nested
        (start_profile 5 (new_cpu_profiler true)).1
      ≡ ok q)
    × (q.counts ≡ some n)
    × (stop_and_build symbols (λ xs. xs) (λ xs. xs) (λ xs. xs) q
        ≡ ok (some prof, record q { counts = none }))
    × (map (λ (s : PprofSample). s.value) prof.samples ≡ map counted (kept true n))
    × (true ≡ true → calls_column prof % 2 ^ 64 ≡ size nested % 2 ^ 64)
    × (true ≡ true → time_column prof % 2 ^ 64 ≡ elapsed nested % 2 ^ 64)
stop-columns_example =
    stop-columns symbols (λ xs. xs) (λ xs. xs) (λ xs. xs) same_order same_order (λ xs. Perm.refl xs)
      low_byte true 5 nested (omega arith, (omega arith, tt, tt), tt)
