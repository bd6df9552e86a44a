-- ===== src/Cpu.antt =====
-- cpu.go: the CPU profiler. Times are `int64` patterns; the clock's readings are arguments, in the
-- order in which the code takes them.
pub mod Handler
pub mod Sampled
pub mod Sessions
pub mod Shared
pub mod Stacks
pub mod Time
mod Tests
use wzprof.Base.{
  ℕ, ◌+◌, ◌%◌, ◌^◌, List, [], ◌∷◌, ◌++◌, Bool, true, false, Option, none, some, ◌==◌, if◌then◌else◌,
  Outcome, ok, panic,
}
use wzprof.Base.Words.{add64, sub64}
use wzprof.Trace.{
  StackFrame, StackTrace, no_trace, make_stack_trace, host, StackCounter, Counts, observe,
}

-- `cpuTimeFrame`: a call under way.
pub record CpuTimeFrame : Type 0 where
  pub start : ℕ
  pub sub : ℕ
  pub trace : StackTrace

-- What `Before` leaves when no profile is being recorded.
abbrev pub no_frame : CpuTimeFrame
no_frame = record { start = 0; sub = 0; trace = no_trace }

-- `CPUProfiler`. `counts` is nil while no profile is recorded; `frames` and `traces` have their last
-- element first.
pub record CpuProfiler : Type 0 where
  pub counts : Option Counts
  pub frames : List CpuTimeFrame
  pub traces : List StackTrace
  pub start : ℕ
  pub host : Bool

-- `newCPUProfiler`, with the option `HostTime`.
unfoldable pub new_cpu_profiler : Bool → CpuProfiler
new_cpu_profiler host = record { counts = none; frames = []; traces = []; start = 0; host = host }

pub start_profile : ℕ → CpuProfiler → Bool × CpuProfiler
start_profile now p = elim p.counts [
  | none ↦ (true, record p { counts = some []; start = now })
  | some m ↦ (false, p)
]

-- The `delete` loop of `StopProfile`.
pub drop_host : Counts → Counts
drop_host [] = []
drop_host ((k, sc) ∷ m) = if host sc.stack then drop_host m else (k, sc) ∷ drop_host m

-- `StopProfile` up to the call of `buildProfile`: the samples that it hands over, or nil.
pub stop_profile : CpuProfiler → Option Counts × CpuProfiler
unfolding drop_host
stop_profile p = elim p.counts [
  | none ↦ (none, record p { counts = none })
  | some m ↦ (some (if p.host then m else drop_host m), record p { counts = none })
]

-- `Count`.
unfoldable pub count : CpuProfiler → ℕ
count p = elim p.counts [ none ↦ 0 | some m ↦ wzprof.Base.length m ]

-- The trace whose slices the next stack is written into, and the traces that are left.
pub reuse_trace : List StackTrace → StackTrace × List StackTrace
reuse_trace [] = (no_trace, [])
reuse_trace (t ∷ ts) = (t, ts)

-- `p.frames[i-1].sub += duration`, where a frame is left.
pub credit : ℕ → List CpuTimeFrame → List CpuTimeFrame
credit duration [] = []
credit duration (f ∷ fs) = record f { sub = add64 f.sub duration } ∷ fs

pub record_sample : StackTrace → ℕ → Option Counts → Option Counts
record_sample st value none = none
record_sample st value (some m) = some (observe m st value)

module _ (hash : List ℕ → ℕ) where
  unfoldable pub before : ℕ → List StackFrame → CpuProfiler → CpuProfiler
  unfolding reuse_trace
  before now stack p = elim p.counts [
    | none ↦ record p { frames = no_frame ∷ p.frames }
    | some m ↦
        let (trace, traces) = reuse_trace p.traces in
        record p {
          frames =
              record { start = now; sub = 0; trace = make_stack_trace hash trace stack } ∷ p.frames;
          traces = traces;
        }
  ]

-- `After` on the frame that it takes off, with what is left of the frames.
pub finish_frame : ℕ → CpuTimeFrame → List CpuTimeFrame → CpuProfiler → CpuProfiler
unfolding credit record_sample
finish_frame now f rest p =
    let duration = sub64 now f.start in
    if f.start == 0 then record p { frames = rest } else record p {
      frames = credit duration rest;
      counts = record_sample f.trace (sub64 duration f.sub) p.counts;
      traces = f.trace ∷ p.traces;
    }

after_frames : ℕ → List CpuTimeFrame → CpuProfiler → Outcome CpuProfiler
unfolding finish_frame
after_frames now [] p = panic
after_frames now (f ∷ rest) p = ok (finish_frame now f rest p)

-- `After`, and `Abort`, which calls it.
unfoldable pub after : ℕ → CpuProfiler → Outcome CpuProfiler
unfolding after_frames
after now p = after_frames now p.frames p
