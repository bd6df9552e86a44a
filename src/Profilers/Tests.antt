-- ===== src/Profilers/Tests.antt =====
-- The profile of two allocations, one of which is freed.
use wzprof.Base.{
  ℕ, ◌≡◌, refl, List, [], ◌∷◌, map, true, false, length, take, All, ok, inl, inr, arith,
}
use wzprof.Trace.{Function, StackTrace}
use wzprof.Mem.{MemoryProfiler, new_memory_profiler, observe_alloc, observe_free, Samples, snapshot}
use wzprof.Mem.Hooks.{malloc, free, HookState, fresh_hook, after}
use wzprof.Mem.Inuse.{Told, returned, tell_all}
use wzprof.Mem.Totals.{Totals}
use wzprof.Profile.{Location, SampleType, PprofSample, Profile, no_location}
use wzprof.Profile.Slots.{values, IsIn, IsRange}
use wzprof.Profilers.{sample_types, new_profile}
use wzprof.Profilers.Columns.{in_order, new_profile-columns}

abbrev pub a_function : Function
a_function = record { module_name = "m"; index = 3; name = "f"; is_host = false }

abbrev pub symbols : Function → ℕ → ℕ × List Location
symbols fn pc = (pc, record no_location { stable_name = "g"; human_name = "g" } ∷ [])

abbrev stack : ℕ → StackTrace
stack k = record { fns = a_function ∷ []; pcs = k ∷ []; key = k }

abbrev allocating : ℕ → ℕ → HookState
allocating k n = record fresh_hook { size = n; stack = stack k }

abbrev history : List Told
history =
    returned malloc (100 ∷ []) (allocating 7 16)
    ∷ returned malloc (200 ∷ []) (allocating 8 32)
    ∷ returned free [] (record fresh_hook { addr = 100 })
    ∷ []

abbrev held : MemoryProfiler
held =
    observe_free 100
      (observe_alloc 200 32 (stack 8) (observe_alloc 100 16 (stack 7) (new_memory_profiler true 1)))

All-IsIn :
    {K A : Type 0} (zs ys : List (K × A))
    → ((x : A) → IsIn x ys → IsIn x zs)
    → All (λ y. IsIn y zs) (values ys)
All-IsIn zs [] h = tt
All-IsIn zs ((k, y) ∷ ys) h = (h y (inl refl), All-IsIn zs ys (λ x m. h x (inr m)))

pub same_order : {K A : Type 0} (xs : List (K × A)) → IsRange xs xs
same_order xs = (All-IsIn xs xs (λ x m. m), All-IsIn xs xs (λ x m. m))

held_told : tell_all history (new_memory_profiler true 1) ≡ ok held
unfolding tell_all after
held_told = refl

new_profile-columns_example :
    (m : Samples) × (prof : Profile) × (snapshot held ≡ ok m)
    × Totals held m
    × (new_profile symbols (λ xs. xs) (λ xs. xs) (λ xs. xs) held ≡ ok prof)
    × (map (λ (s : PprofSample). s.value) prof.samples
        ≡ map (λ (s : SampleType). take (length (sample_types held)) s.sample_value) (in_order m))
new_profile-columns_example =
    new_profile-columns symbols (λ xs. xs) (λ xs. xs) (λ xs. xs) true 1 history held same_order
      same_order same_order (omega arith, (omega arith, (omega arith, tt))) held_told
