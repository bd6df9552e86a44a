-- ===== src/Cpu/Shared.antt =====
-- cpu.go: the CPU profiler on traces as they lie in memory: `Before` writes a trace into the slices of
-- one that a finished call has left, `After` leaves them for the next call, and `StopProfile` hands over
-- counters that the caller goes on to read.
pub mod Traces
pub mod Profiles
pub mod Before
pub mod Credit
pub mod After
pub mod Refines
mod Tests
use wzprof.Base.{
  ℕ, List, [], ◌∷◌, ◌++◌, map, Bool, true, false, Option, none, some, ◌==◌, if◌then◌else◌, Outcome,
  ok, panic, ◌>>=◌,
}
use wzprof.Base.Words.{add64, sub64}
use wzprof.Trace.{Function, StackFrame, Counts, host}
use wzprof.Trace.Slices.Clones.{IsCloning}
use wzprof.Trace.Slices.{Slicing}
use wzprof.Trace.Store.{
  Store, SharedTrace, SharedCounts, no_shared_trace, view, view_counts, make, shared_observe,
}
use wzprof.Cpu.{CpuTimeFrame, CpuProfiler, start_profile, stop_profile, before, after}
use wzprof.Cpu.Sessions.{Run, done, call, starts, stops}

-- `cpuTimeFrame`.
pub record SharedFrame : Type 0 where
  pub start : ℕ
  pub sub : ℕ
  pub trace : SharedTrace

-- The memory, `CPUProfiler`, and the samples that have been handed over, the last first.
pub record Machine : Type 0 where
  pub store : Store
  pub counts : Option SharedCounts
  pub frames : List SharedFrame
  pub traces : List SharedTrace
  pub start : ℕ
  pub host : Bool
  pub handed : List SharedCounts

-- `StartProfile`, at a time.
pub shared_start : ℕ → Machine → Machine
shared_start now p = elim p.counts [
  | none ↦ record p { counts = some []; start = now }
  | some m ↦ p
]

-- The `delete` loop of `StopProfile`, and `StopProfile`.
pub shared_drop_host : Store → SharedCounts → SharedCounts
shared_drop_host st [] = []
shared_drop_host st ((k, sc) ∷ m) =
    if host (view st sc.stack) then shared_drop_host st m else (k, sc) ∷ shared_drop_host st m

pub shared_stop : Machine → Machine
unfolding shared_drop_host
shared_stop p = elim p.counts [
  | none ↦ p
  | some m ↦ record p {
    counts = none;
    handed = (if p.host then m else shared_drop_host p.store m) ∷ p.handed;
  }
]

-- The trace that `Before` writes into, and those that are left.
pub take_trace : List SharedTrace → SharedTrace × List SharedTrace
take_trace [] = (no_shared_trace, [])
take_trace (t ∷ ts) = (t, ts)

pub shared_credit : ℕ → List SharedFrame → List SharedFrame
shared_credit duration [] = []
shared_credit duration (f ∷ fs) = record f { sub = add64 f.sub duration } ∷ fs

module _ (of_fns : Slicing Function) (of_pcs : Slicing ℕ) (hash : List ℕ → ℕ) where
  -- `Before`.
  pub shared_before : ℕ → List StackFrame → Machine → Machine
  unfolding take_trace
  shared_before now stack p = elim p.counts [
    | none ↦ record p { frames = record { start = 0; sub = 0; trace = no_shared_trace } ∷ p.frames }
    | some m ↦
        let (reused, traces) = take_trace p.traces in
        let (store, trace) = make of_fns of_pcs hash p.store reused stack in
        record p {
          store = store;
          frames = record { start = now; sub = 0; trace = trace } ∷ p.frames;
          traces = traces;
        }
  ]

  -- `After`, on the frame that it takes off and the others.
  pub shared_finish : ℕ → SharedFrame → List SharedFrame → Machine → Machine
  unfolding shared_credit
  shared_finish now f rest p =
      let duration = sub64 now f.start in
      let recorded : Machine = elim p.counts [
        | none ↦ p
        | some m ↦
            let (store, counts) =
              shared_observe of_fns of_pcs hash p.store m f.trace (sub64 duration f.sub) in
            record p { store = store; counts = some counts }
      ] in
      if f.start == 0
      then record p { frames = rest }
      else record recorded { frames = shared_credit duration rest; traces = f.trace ∷ p.traces }

  pub shared_after_frames : ℕ → List SharedFrame → Machine → Outcome Machine
  unfolding shared_finish
  shared_after_frames now [] p = panic
  shared_after_frames now (f ∷ rest) p = ok (shared_finish now f rest p)

  pub shared_run : Run → Machine → Outcome Machine
  unfolding shared_before shared_after_frames shared_start shared_stop
  shared_run done p = ok p
  shared_run (call start stack finish inside later) p = do
    inside_done ← shared_run inside (shared_before start stack p)
    call_done ← shared_after_frames finish inside_done.frames inside_done
    shared_run later call_done
  shared_run (starts now rest) p = shared_run rest (shared_start now p)
  shared_run (stops rest) p = shared_run rest (shared_stop p)

-- The profiler of a machine, and what has been handed over.
abbrev pub view_frame : Store → SharedFrame → CpuTimeFrame
view_frame st f = record { start = f.start; sub = f.sub; trace = view st f.trace }

unfoldable pub view_profiler : Machine → CpuProfiler
unfolding view_counts
view_profiler p = record {
  counts = elim p.counts [ none ↦ none | some m ↦ some (view_counts p.store m) ];
  frames = map (view_frame p.store) p.frames;
  traces = map (view p.store) p.traces;
  start = p.start;
  host = p.host;
}

unfoldable pub view_handed : Machine → List Counts
view_handed p = map (view_counts p.store) p.handed

-- The samples that a stop adds to those that have been handed over.
abbrev pub with_samples : Option Counts → List Counts → List Counts
with_samples none out = out
with_samples (some m) out = m ∷ out

-- A run on separate traces, with what is handed over.
module _ (hash : List ℕ → ℕ) where
  unfoldable pub run_handing : Run → CpuProfiler → List Counts → Outcome (CpuProfiler × List Counts)
  run_handing done p out = ok (p, out)
  run_handing (call start stack finish inside later) p out = do
    (q, out) ← run_handing inside (before hash start stack p) out
    q ← after finish q
    run_handing later q out
  run_handing (starts now rest) p out = run_handing rest (start_profile now p).1 out
  run_handing (stops rest) p out =
      run_handing rest (stop_profile p).1 (with_samples (stop_profile p).0 out)
