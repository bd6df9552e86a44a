-- ===== src/Profilers/CpuProfile/Columns.antt =====
-- The profile that the CPU profiler hands over after a run of the guest.
use mathlib.Core.Logic.{∥∥₁_elim}
use mathlib.Core.List.{Permᴰ, Perm}
use native.Mathlib.Nat.{ℕ_set}
use wzprof.Base.{
  ℕ, ◌+◌, ◌-◌, ◌%◌, ◌^◌, ◌≡◌, refl, ap, subst, ◌∙◌, List, [], ◌∷◌, map, Bool, true, none, some,
  length, take, ok, arith,
}
use wzprof.Trace.{Function, StackCounter, Counts}
use wzprof.Trace.Counts.{sum_count, sum_total}
use wzprof.Trace.Paired.{PairedCounts}
use wzprof.Cpu.{CpuProfiler, new_cpu_profiler, start_profile}
use wzprof.Cpu.Time.{Calls, IsTimed, size, elapsed, run, run-Ran}
use wzprof.Cpu.Stacks.{run-Holds, PairedSome, kept, kept-Paired, stop-kept, start-new}
use wzprof.Profile.{Location, Locations, Functions, SampleType, PprofSample, Profile, no_caches}
use wzprof.Profile.Ids.{AreSamples}
use wzprof.Profile.Slots.{values, IsRange, build_profile_lem}
use wzprof.Profile.Values.{build_samples-values}
use wzprof.Profilers.CpuProfile.{cpu_sample_types, cpu_sample, stop_and_build, build_cpu_profile}

-- A sum over a list.
abbrev total : {A : Type 0} → (A → ℕ) → List A → ℕ
total f [] = 0
total f (x ∷ xs) = f x + total f xs

module _ {A : Type 0} where
  Permᴰ-total : (f : A → ℕ) {xs ys : List A} → Permᴰ xs ys → total f xs ≡ total f ys
  Permᴰ-total f Permᴰ.nil = refl
  Permᴰ-total f (Permᴰ.cons e p) = omega (arith, ap f e, Permᴰ-total f p)
  Permᴰ-total f (Permᴰ.swap a b) = omega (arith, ap f a, ap f b)
  Permᴰ-total f (Permᴰ.trans p q) = Permᴰ-total f p ∙ Permᴰ-total f q

  total-Perm : (f : A → ℕ) {xs ys : List A} → Perm xs ys → total f xs ≡ total f ys
  total-Perm f p = ∥∥₁_elim p (ℕ_set _ _) (Permᴰ-total f)

-- The values of a sample, and the sums of the numbers of calls and of the times.
abbrev pub counted : ℕ × StackCounter → List ℕ
counted e = e.1.count ∷ e.1.total ∷ []

abbrev call_value : List ℕ → ℕ
call_value [] = 0
call_value (v ∷ vs) = v

abbrev time_value : List ℕ → ℕ
time_value [] = 0
time_value (v ∷ []) = 0
time_value (v ∷ w ∷ vs) = w

abbrev pub calls_column : Profile → ℕ
calls_column prof = total call_value (map (λ (s : PprofSample). s.value) prof.samples)

abbrev pub time_column : Profile → ℕ
time_column prof = total time_value (map (λ (s : PprofSample). s.value) prof.samples)

call_value-counted : (ys : Counts) → total call_value (map counted ys) ≡ total (λ e. e.1.count) ys
call_value-counted [] = refl
call_value-counted (e ∷ ys) = omega (arith, call_value-counted ys)

time_value-counted : (ys : Counts) → total time_value (map counted ys) ≡ total (λ e. e.1.total) ys
time_value-counted [] = refl
time_value-counted (e ∷ ys) = omega (arith, time_value-counted ys)

total-sum_count : (m : Counts) → total (λ e. e.1.count) m ≡ sum_count m
total-sum_count [] = refl
total-sum_count ((k, sc) ∷ m) = omega (arith, total-sum_count m)

total-sum_total : (m : Counts) → total (λ e. e.1.total) m ≡ sum_total m
total-sum_total [] = refl
total-sum_total ((k, sc) ∷ m) = omega (arith, total-sum_total m)

-- The functions of the stacks that have no PC.
abbrev excess : ℕ × StackCounter → ℕ
excess e = length e.1.stack.fns - length e.1.stack.pcs

total-excess : (m : Counts) → PairedCounts m → total excess m ≡ 0
total-excess [] a = refl
total-excess ((k, sc) ∷ m) a = omega (arith, a.0, total-excess m a.1)

abbrev types : ℕ
types = length cpu_sample_types

samples-AreSamples : (ys : Counts) → total excess ys ≡ 0 → AreSamples types (map cpu_sample ys)
samples-AreSamples [] h = tt
samples-AreSamples ((k, sc) ∷ ys) h =
    (omega (arith, h), omega arith, samples-AreSamples ys (omega (arith, h)))

values-counted :
    (ys : Counts)
    → map (λ (s : SampleType). take types s.sample_value) (map cpu_sample ys) ≡ map counted ys
values-counted [] = refl
values-counted ((k, sc) ∷ ys) =
    ap (λ (vs : List (List ℕ)). (sc.count ∷ sc.total ∷ []) ∷ vs) (values-counted ys)

module _ (symbols : Function → ℕ → ℕ × List Location) (range_locations : Locations → Locations)
    (range_functions : Functions → Functions) (range_samples : Counts → Counts)
    (ranges_l : (xs : Locations) → IsRange (range_locations xs) xs)
    (ranges_f : (xs : Functions) → IsRange (range_functions xs) xs)
    (ranges_s : (xs : Counts) → Perm (range_samples xs) xs) where
  -- A stop of a profiler with paired stacks.
  stop-profile :
      (q : CpuProfiler) (n : Counts)
      → q.counts ≡ some n
      → PairedCounts n
      → (prof : Profile) × (stop_and_build symbols range_locations range_functions range_samples q
          ≡ ok (some prof, record q { counts = none }))
        × (map (λ (s : PprofSample). s.value) prof.samples
            ≡ map counted (range_samples (kept q.host n)))
  unfolding stop_and_build build_cpu_profile
  stop-profile q n e a =
      let ys = range_samples (kept q.host n) in
      let none_left =
        total-Perm excess (ranges_s (kept q.host n))
        ∙ total-excess (kept q.host n) (kept-Paired q.host n a) in
      let (out, c, built, profiled, n_l, n_f, len, ids, lines, made) =
        build_profile_lem symbols range_locations range_functions types (map cpu_sample ys) ranges_l
          ranges_f (samples-AreSamples ys none_left) in
      (
        record {
          samples = out;
          locations = map some (values c.locations);
          functions = map some (values c.functions);
        },
        rw (stop-kept q n e, profiled) refl,
        build_samples-values symbols types (map cpu_sample ys) no_caches c out built
            ∙ values-counted ys,
      )

  column :
      (f : List ℕ → ℕ) (g : ℕ × StackCounter → ℕ) (prof : Profile) (n : Counts)
      → ((ys : Counts) → total f (map counted ys) ≡ total g ys)
      → map (λ (s : PprofSample). s.value) prof.samples ≡ map counted (range_samples n)
      → total f (map (λ (s : PprofSample). s.value) prof.samples) ≡ total g n
  column f g prof n h e = ap (total f) e ∙ h (range_samples n) ∙ total-Perm g (ranges_s n)

  -- A profile that is started, recorded over a run of the guest whose clock never reads 0, and stopped: the
  -- run and `StopProfile` return, whatever the symbolizer finds and in whatever orders Go ranges over the
  -- maps. The profile has a sample for each counter, or without `HostTime` for each that was not taken in
  -- a host function, with the number of its calls and their time; and with `HostTime` the samples add up
  -- to the number of all calls and to the time that the outermost calls took, as `int64`s.
  pub stop-columns :
      (hash : List ℕ → ℕ) (host : Bool) (now : ℕ) (cs : Calls)
      → IsTimed cs
      → (q : CpuProfiler) × (n : Counts) × (prof : Profile) × (run hash cs
            (start_profile now (new_cpu_profiler host)).1
          ≡ ok q)
        × (q.counts ≡ some n)
        × (stop_and_build symbols range_locations range_functions range_samples q
            ≡ ok (some prof, record q { counts = none }))
        × (map (λ (s : PprofSample). s.value) prof.samples
            ≡ map counted (range_samples (kept host n)))
        × (host ≡ true → calls_column prof % 2 ^ 64 ≡ size cs % 2 ^ 64)
        × (host ≡ true → time_column prof % 2 ^ 64 ≡ elapsed cs % 2 ^ 64)
  stop-columns hash host now cs t =
      let p : CpuProfiler = record {
        counts = some [];
        frames = [];
        traces = [];
        start = now;
        host = host;
      } in
      let (q, n, ran, recorded, frames, count, time) = run-Ran hash cs p [] refl t in
      let held =
        run-Holds hash cs host p q (record { counters = tt; calls = tt; option = refl }) ran in
      let paired = subst PairedSome recorded held.counters in
      let (prof, stopped, values) = stop-profile q n recorded paired in
      let in_order : map (λ (s : PprofSample). s.value) prof.samples
          ≡ map counted (range_samples (kept host n)) =
        subst
          (λ (h : Bool).
            map (λ (s : PprofSample). s.value) prof.samples
            ≡ map counted (range_samples (kept h n)))
          held.option values in
      let whole = λ (e : host ≡ true).
        subst
          (λ (h : Bool).
            map (λ (s : PprofSample). s.value) prof.samples
            ≡ map counted (range_samples (kept h n)))
          e in_order in
      (
        q,
        n,
        prof,
        ap (run hash cs) (start-new now host) ∙ ran,
        recorded,
        stopped,
        in_order,
        λ e. omega (
          arith,
          count,
          total-sum_count n,
          column call_value (λ x. x.1.count) prof n call_value-counted (whole e),
        ),
        λ e. omega (
          arith,
          time,
          total-sum_total n,
          column time_value (λ x. x.1.total) prof n time_value-counted (whole e),
        ),
      )
