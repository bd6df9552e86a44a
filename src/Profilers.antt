-- ===== src/Profilers.antt =====
-- mem.go: `NewProfile` of the memory profiler, from its books to a profile.
pub mod Columns
pub mod CpuProfile
mod Tests
use Prim.Native.String.{String}
use wzprof.Base.{ℕ, List, [], ◌∷◌, map, none, some, length, Outcome, ◌>>=◌}
use wzprof.Trace.{Function}
use wzprof.Mem.{MemoryProfiler, MemorySample, Samples, snapshot}
use wzprof.Profile.{Location, Locations, Functions, SampleType, Profile, build_profile}

-- A type of values, by its name and its unit.
pub record ValueType : Type 0 where
  pub kind : String
  pub unit : String

-- `SampleType`: the values of the objects in use come only with `InuseMemory`.
unfoldable pub sample_types : MemoryProfiler → List ValueType
sample_types p =
    record { kind = "alloc_objects"; unit = "count" }
    ∷ record { kind = "alloc_space"; unit = "bytes" }
    ∷ elim p.inuse [
      | none ↦ []
      | some m ↦
          record { kind = "inuse_objects"; unit = "count" }
          ∷ record { kind = "inuse_space"; unit = "bytes" }
          ∷ []
    ]

-- `sampleLocation` and `sampleValue`.
pub memory_sample : MemorySample → SampleType
memory_sample s = record {
  sample_location = s.stack;
  sample_value = s.alloc_count ∷ s.alloc_bytes ∷ s.inuse_count ∷ s.inuse_bytes ∷ [];
}

-- `NewProfile`. The parameters are the symbolizer and the orders in which Go ranges over the maps.
pub new_profile :
    (Function → ℕ → ℕ × List Location)
    → (Locations → Locations)
    → (Functions → Functions)
    → (Samples → Samples)
    → MemoryProfiler
    → Outcome Profile
new_profile symbols range_locations range_functions range_samples p = snapshot p >>= (λ m.
    build_profile symbols range_locations range_functions (length (sample_types p))
      (map (λ (e : ℕ × MemorySample). memory_sample e.1) (range_samples m)))
