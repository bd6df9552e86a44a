-- ===== src/Profilers/Columns.antt =====
-- The profile that the memory profiler makes after any calls of the listeners.
use wzprof.Base.{
  ℕ, ◌≤◌, ◌≡◌, inl, inr, List, [], ◌∷◌, map, Bool, some, length, take, All, ok, arith,
}
use wzprof.Trace.{Function}
use wzprof.Mem.{MemoryProfiler, new_memory_profiler, MemorySample, Samples, snapshot}
use wzprof.Mem.Inuse.{Told, tell_all, told-snapshot}
use wzprof.Trace.Paired.{IsPaired}
use wzprof.Mem.Stacks.{PairedSamples, hook_of, snapshot-Paired}
use wzprof.Mem.Totals.{Totals}
use wzprof.Profile.{Location, Locations, Functions, SampleType, PprofSample, Profile, no_caches}
use wzprof.Profile.Ids.{AreSamples}
use wzprof.Profile.Slots.{values, IsIn, IsRange, build_profile_lem}
use wzprof.Profile.Values.{build_samples-values}
use wzprof.Profilers.{sample_types, memory_sample, new_profile}

IsIn-Paired : (s : MemorySample) (m : Samples) → PairedSamples m → IsIn s m → IsPaired s.stack
IsIn-Paired s [] a h = elim h [ ]
IsIn-Paired s ((k, x) ∷ m) a (inl e) = rw e (a.0)
IsIn-Paired s ((k, x) ∷ m) a (inr h) = IsIn-Paired s m a.1 h

abbrev pub in_order : Samples → List SampleType
in_order m = map (λ (e : ℕ × MemorySample). memory_sample e.1) m

in_order-AreSamples :
    (types : ℕ) (ys m : Samples)
    → types ≤ 4
    → PairedSamples m
    → All (λ (s : MemorySample). IsIn s m) (values ys)
    → AreSamples types (in_order ys)
unfolding memory_sample
in_order-AreSamples types [] m l a h = tt
in_order-AreSamples types ((k, s) ∷ ys) m l a h =
    (IsIn-Paired s m a h.0, l, in_order-AreSamples types ys m l a h.1)

types_bound : (p : MemoryProfiler) → length (sample_types p) ≤ 4
unfolding sample_types
types_bound p = ground arith

-- After any ends of calls that the listeners are told of, `NewProfile` returns a profile, whatever the
-- symbolizer finds and in whatever orders Go ranges over the maps. Its samples are those of `snapshot`,
-- in the order of their map, each with its first values, as many as there are types; and before they
-- are cut, their columns add up to what the books hold. The premises are that no listener met a missing
-- result and that each holds a stack with a PC for each function.
pub new_profile-columns :
    (symbols : Function → ℕ → ℕ × List Location) (range_locations : Locations → Locations)
    (range_functions : Functions → Functions) (range_samples : Samples → Samples) (enable : Bool)
    (now : ℕ) (ts : List Told) (p : MemoryProfiler)
    → ((xs : Locations) → IsRange (range_locations xs) xs)
    → ((xs : Functions) → IsRange (range_functions xs) xs)
    → ((xs : Samples) → IsRange (range_samples xs) xs)
    → All (λ (t : Told). IsPaired (hook_of t).stack) ts
    → tell_all ts (new_memory_profiler enable now) ≡ ok p
    → (m : Samples) × (prof : Profile) × (snapshot p ≡ ok m)
      × Totals p m
      × (new_profile symbols range_locations range_functions range_samples p ≡ ok prof)
      × (map (λ (s : PprofSample). s.value) prof.samples
          ≡ map
              (λ (s : SampleType). take (length (sample_types p)) s.sample_value)
              (in_order (range_samples m)))
unfolding new_profile
new_profile-columns symbols rl rf rs enable now ts p ranges_l ranges_f ranges_s paired told =
    let (m, taken, totals) = told-snapshot enable now ts p told in
    let stacks = snapshot-Paired enable now ts p m paired told taken in
    let types = length (sample_types p) in
    let samples = in_order-AreSamples types (rs m) m (types_bound p) stacks (ranges_s m).0 in
    let (out, c, built, profiled, n, o, len, ids, lines, made) =
      build_profile_lem symbols rl rf types (in_order (rs m)) ranges_l ranges_f samples in
    (
      m,
      record {
        samples = out;
        locations = map some (values c.locations);
        functions = map some (values c.functions);
      },
      taken,
      totals,
      rw taken profiled,
      build_samples-values symbols types (in_order (rs m)) no_caches c out built,
    )
