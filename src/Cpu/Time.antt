-- ===== src/Cpu/Time.antt =====
-- The CPU profiler over a run of the guest: the recorded times share out the time that passes.
use wzprof.Base.{
  ℕ, suc, ◌+◌, ◌%◌, ◌^◌, ◌≡◌, ◌≢◌, refl, ap, ◌∙◌, List, ◌∷◌, some, Outcome, ok, ◌>>=◌, ne→==, arith,
}
use wzprof.Base.Words.{add64, sub64}
use wzprof.Trace.{StackFrame, make_stack_trace, Counts, observe}
use wzprof.Trace.Counts.{sum_count, sum_total, sum_count-observe, sum_total-observe}
use wzprof.Cpu.{CpuTimeFrame, CpuProfiler, credit, reuse_trace, after_frames, before, after}

-- `call start stack finish inside later`: a call that starts and ends at these times on this stack,
-- which makes the calls `inside` and is followed by the calls `later`.
pub data Calls : Type 0 where
  done : Calls
  call : ℕ → List StackFrame → ℕ → Calls → Calls → Calls

-- The clock never reads 0, which marks a frame that is not timed.
abbrev pub IsTimed : Calls → Type 0
IsTimed done = Unit {0}
IsTimed (call start stack finish inside later) = (start ≢ 0) × IsTimed inside × IsTimed later

abbrev pub size : Calls → ℕ
size done = 0
size (call start stack finish inside later) = suc (size inside + size later)

-- The time that the outermost calls take together.
abbrev pub elapsed : Calls → ℕ
elapsed done = 0
elapsed (call start stack finish inside later) = sub64 finish start + elapsed later

-- The frame of the caller is credited with each outermost call in turn.
pub credit_all : Calls → List CpuTimeFrame → List CpuTimeFrame
credit_all done fs = fs
credit_all (call start stack finish inside later) fs =
    credit_all later (credit (sub64 finish start) fs)

abbrev credited : ℕ → Calls → ℕ
credited acc done = acc
credited acc (call start stack finish inside later) =
    credited (add64 acc (sub64 finish start)) later

credit_all-cons :
    (cs : Calls) (f : CpuTimeFrame) (fs : List CpuTimeFrame)
    → credit_all cs (f ∷ fs) ≡ record f { sub = credited f.sub cs } ∷ fs
unfolding credit_all credit
credit_all-cons done f fs = refl
credit_all-cons (call start stack finish inside later) f fs =
    credit_all-cons later (record f { sub = add64 f.sub (sub64 finish start) }) fs

credited-elapsed : (cs : Calls) (acc : ℕ) → credited acc cs % 2 ^ 64 ≡ (acc + elapsed cs) % 2 ^ 64
credited-elapsed done acc = omega arith
credited-elapsed (call start stack finish inside later) acc =
    omega (arith, credited-elapsed later (add64 acc (sub64 finish start)))

module _ (hash : List ℕ → ℕ) where
  unfoldable pub run : Calls → CpuProfiler → Outcome CpuProfiler
  run done p = ok p
  run (call start stack finish inside later) p = do
    inside_done ← run inside (before hash start stack p)
    call_done ← after finish inside_done
    run later call_done

  -- What a run comes to: the frames with the time that it took credited, and the counters' sums.
  abbrev pub Ran : Calls → CpuProfiler → Counts → Outcome CpuProfiler → Type 0
  Ran cs p m out =
      (q : CpuProfiler) × (n : Counts) × (out ≡ ok q)
      × (q.counts ≡ some n)
      × (q.frames ≡ credit_all cs p.frames)
      × (sum_count n % 2 ^ 64 ≡ (sum_count m + size cs) % 2 ^ 64)
      × (sum_total n % 2 ^ 64 ≡ (sum_total m + elapsed cs) % 2 ^ 64)

  before_recording :
      (start : ℕ) (stack : List StackFrame) (p : CpuProfiler) (m : Counts)
      → p.counts ≡ some m
      → (f : CpuTimeFrame) × ((before hash start stack p).counts ≡ some m)
        × ((before hash start stack p).frames ≡ f ∷ p.frames)
        × (f.start ≡ start)
        × (f.sub ≡ 0)
  unfolding before
  before_recording start stack p m e = (
    record { start = start; sub = 0; trace = make_stack_trace hash (reuse_trace p.traces).0 stack },
    ground arith,
    ground arith,
    refl,
    refl,
  )

  after_timed :
      (finish : ℕ) (p : CpuProfiler) (m : Counts) (f : CpuTimeFrame) (rest : List CpuTimeFrame)
      → p.counts ≡ some m
      → p.frames ≡ f ∷ rest
      → f.start ≢ 0
      → after finish p
        ≡ ok (record p {
          frames = credit (sub64 finish f.start) rest;
          counts = some (observe m f.trace (sub64 (sub64 finish f.start) f.sub));
          traces = f.trace ∷ p.traces;
        })
  unfolding after
  after_timed finish p m f rest hm hf ne = rw (hf, after_frames) (rw (ne→== f.start 0 ne, hm))

  -- While a profile is recorded, a run of the guest whose clock never reads 0 makes one observation
  -- for each call, and the observed times together are the time that the outermost calls took: each
  -- call is charged for its time less that of the calls inside it. The frames are left as they were,
  -- with that time credited to the frame of the caller. Sums are `int64`s, so up to their wrap.
  pub run-Ran :
      (cs : Calls) (p : CpuProfiler) (m : Counts)
      → p.counts ≡ some m
      → IsTimed cs
      → Ran cs p m (run cs p)
  unfolding run before credit_all
  run-Ran done p m e t = (
    p,
    m,
    refl,
    e,
    refl,
    ap (λ (t : ℕ). t % 2 ^ 64) (omega arith),
    ap (λ (t : ℕ). t % 2 ^ 64) (omega arith),
  )
  run-Ran (call start stack finish inside later) p m e (t, ti, tl) =
      let p₁ : CpuProfiler = before hash start stack p in
      let (f, recording, framed, started, fresh) = before_recording start stack p m e in
      let (p₂, m₂, ran, recording₂, framed₂, counted₂, totalled₂) =
        run-Ran inside p₁ m recording ti in
      let g : CpuTimeFrame = record f { sub = credited f.sub inside } in
      let held : p₂.frames ≡ g ∷ p.frames =
        rw (framed₂, framed) (credit_all-cons inside f p.frames) in
      let self = sub64 (sub64 finish f.start) g.sub in
      let p₃ : CpuProfiler = record p₂ {
        frames = credit (sub64 finish f.start) p.frames;
        counts = some (observe m₂ g.trace self);
        traces = g.trace ∷ p₂.traces;
      } in
      let (q, n, ran₃, recording₃, framed₃, counted₃, totalled₃) =
        run-Ran later p₃ (observe m₂ g.trace self) refl tl in
      (
        q,
        n,
        rw (ran, after_timed finish p₂ m₂ g p.frames recording₂ held (rw started t)) ran₃,
        recording₃,
        framed₃ ∙ ap (λ (x : ℕ). credit_all later (credit (sub64 finish x) p.frames)) started,
        omega (arith, counted₂, counted₃, sum_count-observe m₂ g.trace self),
        omega (
          arith,
          totalled₂,
          totalled₃,
          sum_total-observe m₂ g.trace self,
          credited-elapsed inside f.sub,
          started,
          fresh,
        ),
      )
