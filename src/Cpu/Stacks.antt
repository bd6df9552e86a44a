-- ===== src/Cpu/Stacks.antt =====
-- cpu.go: whether the stacks that the CPU profiler records have a PC for each function.
use wzprof.Base.{
  ℕ, ◌≡◌, refl, ap, subst, inl, inr, List, [], ◌∷◌, Bool, true, false, Option, none, some, ◌==◌,
  if◌then◌else◌, Bool-cases, Outcome, ok, >>=-eq-ok, arith,
}
use wzprof.Base.Words.{sub64}
use wzprof.Trace.{StackFrame, StackTrace, Counts, host}
use wzprof.Cpu.{
  CpuTimeFrame, CpuProfiler, reuse_trace, before, after, after_frames, finish_frame, credit,
  record_sample, drop_host, start_profile, stop_profile, new_cpu_profiler,
}
use wzprof.Cpu.Time.{Calls, done, call, run}
use wzprof.Trace.Paired.{IsPaired, PairedCounts, observe-Paired, make_stack_trace-IsPaired}

abbrev PairedFrames : List CpuTimeFrame → Type 0
PairedFrames [] = Unit {0}
PairedFrames (f ∷ fs) = IsPaired f.trace × PairedFrames fs

abbrev pub PairedSome : Option Counts → Type 0
PairedSome none = Unit {0}
PairedSome (some m) = PairedCounts m

-- The stacks of the counters and of the frames; and the option that the profiler was made with.
pub record Holds (host : Bool) (p : CpuProfiler) : Type 0 where
  pub counters : PairedSome p.counts
  pub calls : PairedFrames p.frames
  pub option : p.host ≡ host

before-Holds :
    (hash : List ℕ → ℕ) (now : ℕ) (stack : List StackFrame) (h : Bool) (p : CpuProfiler)
    (o : Option Counts)
    → Holds h (record p { counts = o })
    → Holds h (before hash now stack (record p { counts = o }))
unfolding before
before-Holds hash now stack h p none held = record {
  counters = tt;
  calls = (omega arith, held.calls);
  option = held.option;
}
before-Holds hash now stack h p (some m) held = record {
  counters = held.counters;
  calls = (make_stack_trace-IsPaired hash (reuse_trace p.traces).0 stack, held.calls);
  option = held.option;
}

credit-Paired : (d : ℕ) (fs : List CpuTimeFrame) → PairedFrames fs → PairedFrames (credit d fs)
unfolding credit
credit-Paired d [] a = a
credit-Paired d (f ∷ fs) a = a

record_sample-Paired :
    (st : StackTrace) (v : ℕ) (o : Option Counts)
    → IsPaired st
    → PairedSome o
    → PairedSome (record_sample st v o)
unfolding record_sample
record_sample-Paired st v none a h = h
record_sample-Paired st v (some m) a h = observe-Paired m st v a h

finish-Holds :
    (now : ℕ) (f : CpuTimeFrame) (rest : List CpuTimeFrame) (h : Bool) (p : CpuProfiler)
    → PairedFrames (f ∷ rest)
    → PairedSome p.counts
    → p.host ≡ h
    → Holds h (finish_frame now f rest p)
unfolding finish_frame
finish-Holds now f rest h p a c o = elim (Bool-cases (f.start == 0)) [
  | inl e ↦ rw e (record { counters = c; calls = a.1; option = o })
  | inr e ↦ rw e (record {
    counters = record_sample-Paired f.trace (sub64 (sub64 now f.start) f.sub) p.counts a.0 c;
    calls = credit-Paired (sub64 now f.start) rest a.1;
    option = o;
  })
]

abbrev result_or : CpuProfiler → Outcome CpuProfiler → CpuProfiler
result_or p (ok q) = q
result_or p o = p

after-Holds :
    (now : ℕ) (fs : List CpuTimeFrame) (h : Bool) (p q : CpuProfiler)
    → PairedFrames fs
    → PairedSome p.counts
    → p.host ≡ h
    → after_frames now fs p ≡ ok q
    → Holds h q
unfolding after_frames
after-Holds now [] h p q a c o e = cc
after-Holds now (f ∷ rest) h p q a c o e =
    subst (Holds h) (ap (result_or p) e) (finish-Holds now f rest h p a c o)

pub run-Holds :
    (hash : List ℕ → ℕ) (cs : Calls) (h : Bool) (p q : CpuProfiler)
    → Holds h p
    → run hash cs p ≡ ok q
    → Holds h q
unfolding run after
run-Holds hash done h p q held e = subst (Holds h) (ap (result_or p) e) held
run-Holds hash (call start stack finish inside later) h p q held e =
    let (p₂, e₂, more) = >>=-eq-ok (run hash inside (before hash start stack p)) _ e in
    let (p₃, e₃, last) = >>=-eq-ok (after_frames finish p₂.frames p₂) _ more in
    let held₂ =
      run-Holds hash inside h (before hash start stack p) p₂
        (before-Holds hash start stack h p p.counts held) e₂ in
    run-Holds hash later h p₃ q
      (after-Holds finish p₂.frames h p₂ p₃ held₂.calls held₂.counters held₂.option e₃) last

drop_host-Paired : (m : Counts) → PairedCounts m → PairedCounts (drop_host m)
unfolding drop_host
drop_host-Paired [] a = a
drop_host-Paired ((k, sc) ∷ m) a = elim (Bool-cases (host sc.stack)) [
  | inl e ↦ rw e (drop_host-Paired m a.1)
  | inr e ↦ rw e (a.0, drop_host-Paired m a.1)
]

-- The samples that a stop hands over.
abbrev pub kept : Bool → Counts → Counts
kept host m = if host then m else drop_host m

pub kept-Paired : (host : Bool) (m : Counts) → PairedCounts m → PairedCounts (kept host m)
kept-Paired true m a = a
kept-Paired false m a = drop_host-Paired m a

pub stop-kept :
    (q : CpuProfiler) (n : Counts)
    → q.counts ≡ some n
    → stop_profile q ≡ (some (kept q.host n), record q { counts = none })
unfolding stop_profile
stop-kept q n e = rw e refl

pub start-new :
    (now : ℕ) (host : Bool)
    → (start_profile now (new_cpu_profiler host)).1
      ≡ record { counts = some []; frames = []; traces = []; start = now; host = host }
unfolding start_profile new_cpu_profiler
start-new now host = refl
