-- ===== src/Profile/Tests.antt =====
-- A profile built from two samples.
use wzprof.Base.{ℕ, ◌≡◌, refl, List, [], ◌∷◌, map, some, false, ok, inl, inr, arith, length, All}
use wzprof.Trace.{Function}
use wzprof.Profile.{
  Location, SampleType, PprofSample, Caches, build_samples, build_profile, no_caches, no_location,
}
use wzprof.Profile.Ids.{AreNumbered, SamplesIn, AllLinesIn}
use wzprof.Profile.Places.{AreBuilt}
use wzprof.Profile.Slots.{build_profile_lem, values, IsRange, IsIn}

abbrev a_function : Function
a_function = record { module_name = "m"; index = 3; name = "f"; is_host = false }

abbrev symbols : Function → ℕ → ℕ × List Location
symbols fn pc = (pc, record no_location { stable_name = "g"; human_name = "g" } ∷ no_location ∷ [])

abbrev samples : List SampleType
samples =
    record {
      sample_location = record { fns = a_function ∷ a_function ∷ []; pcs = 5 ∷ 0 ∷ []; key = 1 };
      sample_value = 1 ∷ 20 ∷ [];
    }
    ∷ record {
      sample_location = record { fns = a_function ∷ []; pcs = 5 ∷ []; key = 2 };
      sample_value = 2 ∷ 30 ∷ [];
    }
    ∷ []

All-IsIn :
    {K A : Type 0} (zs ys : List (K × A))
    → ((x : A) → IsIn x ys → IsIn x zs)
    → All (λ y. IsIn y zs) (values ys)
All-IsIn zs [] h = tt
All-IsIn zs ((k, y) ∷ ys) h = (h y (inl refl), All-IsIn zs ys (λ x m. h x (inr m)))

in_order : {K A : Type 0} (xs : List (K × A)) → IsRange xs xs
in_order xs = (All-IsIn xs xs (λ x m. m), All-IsIn xs xs (λ x m. m))

build_profile_lem_example :
    (out : List PprofSample) × (c : Caches) × (build_samples symbols 2 samples no_caches
      ≡ ok (out, c))
    × (build_profile symbols (λ xs. xs) (λ xs. xs) 2 samples
        ≡ ok (record {
          samples = out;
          locations = map some (values c.locations);
          functions = map some (values c.functions);
        }))
    × AreNumbered (λ l. l.id) 1 c.locations
    × AreNumbered (λ f. f.id) 1 c.functions
    × (length out ≡ length samples)
    × SamplesIn (length c.locations) out
    × AllLinesIn (length c.functions) c.locations
    × AreBuilt 2 c.locations samples out
build_profile_lem_example =
    build_profile_lem symbols (λ xs. xs) (λ xs. xs) 2 samples in_order in_order
      (omega arith, omega arith, (omega arith, omega arith, tt))
