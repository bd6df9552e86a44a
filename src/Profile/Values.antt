-- ===== src/Profile/Values.antt =====
-- The values of the samples of a profile.
use wzprof.Base.{
  ℕ, ◌≡◌, refl, sym, ap, subst, ◌∙◌, inl, inr, List, [], ◌∷◌, map, Bool, true, false, ltb,
  Bool-cases, length, take, Outcome, ok, panic, ◌>>=◌, >>=-eq-ok,
}
use wzprof.Trace.{Function}
use wzprof.Profile.{Location, SampleType, PprofSample, Caches, build_samples, stack_locations}

abbrev samples_of : Outcome (List PprofSample × Caches) → List PprofSample
samples_of (ok r) = r.0
samples_of panic = []
samples_of wzprof.Base.stuck = []

-- The values of the samples are cut to the number of types, in the order of the samples.
pub build_samples-values :
    (symbols : Function → ℕ → ℕ × List Location) (types : ℕ) (samples : List SampleType)
    (c after : Caches) (out : List PprofSample)
    → build_samples symbols types samples c ≡ ok (out, after)
    → map (λ (s : PprofSample). s.value) out
      ≡ map (λ (s : SampleType). take types s.sample_value) samples
unfolding build_samples
build_samples-values symbols types [] c after out e =
    ap
      (λ (r : Outcome (List PprofSample × Caches)).
        map (λ (s : PprofSample). s.value) (samples_of r))
      (sym e)
build_samples-values symbols types (s ∷ samples) c after out e =
    let (located, e1, more) =
      >>=-eq-ok (stack_locations symbols s.sample_location.fns s.sample_location.pcs c) _ e in
    let (built, e2, last) = >>=-eq-ok (build_samples symbols types samples located.1) _ more in
    let rest = build_samples-values symbols types samples located.1 built.1 built.0 e2 in
    elim (Bool-cases (ltb (length s.sample_value) types)) [
      | inl short ↦ absurd (short_panics (rw short at last))
      | inr fits ↦
          ap
            (λ (r : Outcome (List PprofSample × Caches)).
              map (λ (s : PprofSample). s.value) (samples_of r))
            (sym (rw fits at last))
          ∙ ap (λ (vs : List (List ℕ)). take types s.sample_value ∷ vs) rest
    ]
  where
    short_panics : {r : List PprofSample × Caches} → panic ≡ ok r → ⊥
    short_panics e = cc
