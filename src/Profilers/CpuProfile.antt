-- ===== src/Profilers/CpuProfile.antt =====
-- cpu.go: `StopProfile` of the CPU profiler with the profile that `buildProfile` makes of its samples.
pub mod Columns
mod Tests
use wzprof.Base.{ℕ, List, [], ◌∷◌, map, Option, none, some, length, Outcome, ok, ◌>>=◌}
use wzprof.Trace.{Function, StackCounter, Counts}
use wzprof.Cpu.{CpuProfiler, stop_profile}
use wzprof.Profile.{Location, Locations, Functions, SampleType, Profile, build_profile}
use wzprof.Profilers.{ValueType}

-- `SampleType`.
abbrev pub cpu_sample_types : List ValueType
cpu_sample_types =
    record { kind = "samples"; unit = "count" } ∷ record { kind = "cpu"; unit = "nanoseconds" } ∷ []

-- `sampleLocation` and `sampleValue` of a counter.
abbrev pub cpu_sample : ℕ × StackCounter → SampleType
cpu_sample (k, sc) = record { sample_location = sc.stack; sample_value = sc.count ∷ sc.total ∷ [] }

-- `StopProfile`. The parameters are the symbolizer and the orders in which Go ranges over the maps.
module _ (symbols : Function → ℕ → ℕ × List Location) (range_locations : Locations → Locations)
    (range_functions : Functions → Functions) (range_samples : Counts → Counts) where
  pub build_cpu_profile : CpuProfiler → Option Counts → Outcome (Option Profile × CpuProfiler)
  build_cpu_profile p none = ok (none, p)
  build_cpu_profile p (some m) =
      build_profile symbols range_locations range_functions (length cpu_sample_types)
        (map cpu_sample (range_samples m))
      >>= (λ prof. ok (some prof, p))

  pub stop_and_build : CpuProfiler → Outcome (Option Profile × CpuProfiler)
  unfolding build_cpu_profile
  stop_and_build p = build_cpu_profile (stop_profile p).1 (stop_profile p).0
