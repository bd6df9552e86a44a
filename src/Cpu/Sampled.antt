-- ===== src/Cpu/Sampled.antt =====
-- The CPU profiler under `Sample`, over a run of the whole guest.
use wzprof.Base.{
  ℕ, ◌+◌, ◌%◌, ◌^◌, ◌<◌, ◌≡◌, ◌≢◌, refl, ap, ◌∙◌, List, true, false, some, Outcome, ok, panic,
  stuck, ◌>>=◌, arith,
}
use wzprof.Trace.{StackFrame, Counts}
use wzprof.Trace.Counts.{sum_count, sum_total}
use wzprof.Sample.{Listener, Sampled, sampled_start}
use wzprof.Sample.Calls as Guest
use wzprof.Sample.Functions.{every_nth_of, run_functions}
use wzprof.Sample.Functions.Runs.{run_functions-every_nth}
use wzprof.Cpu.{CpuProfiler, before, after}
use wzprof.Cpu.Time.{Calls, done, call, IsTimed, size, elapsed, run, run-Ran}

-- What a call has: the clock at its start and at its end, and the stack.
pub record Reading : Type 0 where
  pub start : ℕ
  pub stack : List StackFrame
  pub finish : ℕ

module _ (hash : List ℕ → ℕ) (readings : ℕ → Reading) where
  -- `cpuProfiler` as a listener, on the readings of each call. `Abort` calls `After`.
  unfoldable pub cpu_listener : Listener (Outcome CpuProfiler)
  cpu_listener = record {
    before = λ n o. o >>= (λ p. ok (before hash (readings n).start (readings n).stack p));
    after = λ n o. o >>= after (readings n).finish;
    abort = λ n o. o >>= after (readings n).finish;
  }

  -- The calls with their readings.
  unfoldable pub timed : Guest.Calls → Calls
  timed Guest.done = done
  timed (Guest.call n flag aborts inside later) =
      call (readings n).start (readings n).stack (readings n).finish (timed inside) (timed later)

  size-timed : (cs : Guest.Calls) → size (timed cs) ≡ Guest.size cs
  unfolding timed
  size-timed Guest.done = refl
  size-timed (Guest.call n flag aborts inside later) =
      omega (arith, size-timed inside, size-timed later)

  timed-IsTimed : ((n : ℕ) → (readings n).start ≢ 0) → (cs : Guest.Calls) → IsTimed (timed cs)
  unfolding timed
  timed-IsTimed h Guest.done = tt
  timed-IsTimed h (Guest.call n flag aborts inside later) =
      (h n, timed-IsTimed h inside, timed-IsTimed h later)

  >>=_assoc :
      (o : Outcome CpuProfiler) (f g : CpuProfiler → Outcome CpuProfiler)
      → (o >>= f >>= g) ≡ (o >>= (λ p. f p >>= g))
  >>=_assoc (ok p) f g = refl
  >>=_assoc panic f g = refl
  >>=_assoc stuck f g = refl

  -- The profiler on one call.
  through :
      (n : ℕ) (inside later : Guest.Calls) (o : Outcome CpuProfiler)
      → (((o >>= (λ p. ok (before hash (readings n).start (readings n).stack p)))
            >>= run hash (timed inside))
          >>= after (readings n).finish
          >>= run hash (timed later))
        ≡ (o >>= run hash (timed (Guest.call n true true inside later)))
  unfolding run timed
  through n inside later panic = refl
  through n inside later stuck = refl
  through n inside later (ok p) =
      >>=_assoc (run hash (timed inside) (before hash (readings n).start (readings n).stack p))
        (after (readings n).finish) (run hash (timed later))

  -- The listener that is told of every call runs as the profiler does.
  run-timed :
      (cs : Guest.Calls) (o : Outcome CpuProfiler)
      → Guest.run cpu_listener cs o ≡ (o >>= run hash (timed cs))
  unfolding Guest.run cpu_listener run timed
  run-timed Guest.done (ok p) = refl
  run-timed Guest.done panic = refl
  run-timed Guest.done stuck = refl
  run-timed (Guest.call n flag true inside later) o =
      run-timed later _
      ∙ ap (λ (x : Outcome CpuProfiler). x >>= after (readings n).finish >>= run hash (timed later))
          (run-timed inside _)
      ∙ through n inside later o
  run-timed (Guest.call n flag false inside later) o =
      run-timed later _
      ∙ ap (λ (x : Outcome CpuProfiler). x >>= after (readings n).finish >>= run hash (timed later))
          (run-timed inside _)
      ∙ through n inside later o

  -- The CPU profiler under `Sample` at a rate between 0 and 1, over a run of the whole guest while a profile
  -- is recorded and the clock never reads 0: each function has a listener of its own, and none panics. The
  -- profiler makes one observation for each call that stands at a multiple of `cycle` among those of
  -- its function, and the observed times together are the time that the outermost of these took, as
  -- `int64`s. `cycle` is a positive `uint32`, and the calls nest less than 2 ^ 64 deep.
  pub sampled_run-totals :
      (fn_of : ℕ → ℕ) (cycle : ℕ) (cs : Guest.Calls) (p : CpuProfiler) (m : Counts)
      → 0 < cycle
      → cycle < 2 ^ 32
      → Guest.depth cs < 2 ^ 64
      → p.counts ≡ some m
      → ((n : ℕ) → (readings n).start ≢ 0)
      → (T : ℕ → Sampled) × (q : CpuProfiler) × (n : Counts) × (run_functions fn_of cpu_listener cs
            ((λ g. sampled_start cycle), ok p)
          ≡ ok (T, ok q))
        × (q.counts ≡ some n)
        × (sum_count n % 2 ^ 64
            ≡ (sum_count m + Guest.size (every_nth_of fn_of cycle (λ g. 0) cs)) % 2 ^ 64)
        × (sum_total n % 2 ^ 64
            ≡ (sum_total m + elapsed (timed (every_nth_of fn_of cycle (λ g. 0) cs))) % 2 ^ 64)
  sampled_run-totals fn_of cycle cs p m low high deep recording ticks =
      let kept = every_nth_of fn_of cycle (λ g. 0) cs in
      let (T, ran) = run_functions-every_nth fn_of cpu_listener cycle cs (ok p) low high deep in
      let (q, n, came_to, recorded, framed, counted, totalled) =
        run-Ran hash (timed kept) p m recording (timed-IsTimed ticks kept) in
      (
        T,
        q,
        n,
        ran ∙ ap (λ (x : Outcome CpuProfiler). ok (T, x)) (run-timed kept (ok p) ∙ came_to),
        recorded,
        omega (arith, counted, size-timed kept),
        totalled,
      )
