-- ===== src/Command/Startup/Runs.antt =====
-- How `run` ends, and what it does before.
use wzprof.Base.{
  ℕ, ◌≡◌, refl, List, [], ◌∷◌, ◌++◌, Bool, true, false, not, ◌&&◌, ◌||◌, Option, none, some, ◌⊎◌,
  if◌then◌else◌, ok, panic, arith,
}
use wzprof.Command.Startup.{
  Program, is_set, Action, run_guest, start_host_cpu, stop_host_cpu, start_cpu, stop_cpu, creating,
  End, returned, exited, RunResult, when, Surroundings, host_part, session, run,
}
use wzprof.Command.{Mount, create_fs_config}
use wzprof.Dwarf.{Entry, Range}
use wzprof.Dwarf.Sections.{DebugSections}
use wzprof.Python.Setup.{LocationAttr}
use wzprof.Profiling.{Profiling, cpu_profiler}
use wzprof.Profiling.Prepare.{profiling_for_binary, profiling_for_binary_fresh}
use wzprof.Profiling.Protocol.{constructors_protocol}

-- The actions for which a test holds, in their order.
abbrev pub only : (Action → Bool) → List Action → List Action
only test [] = []
only test (a ∷ actions) = let rest = only test actions in if test a then a ∷ rest else rest

-- The run of the guest, and the start and the stop of the host's CPU profile, or of the guest's.
abbrev pub host_cpu : Action → Bool
host_cpu (start_host_cpu started) = true
host_cpu stop_host_cpu = true
host_cpu run_guest = true
host_cpu a = false

abbrev pub guest_cpu : Action → Bool
guest_cpu (start_cpu started) = true
guest_cpu (stop_cpu stopped) = true
guest_cpu run_guest = true
guest_cpu a = false

abbrev pub is_creating : End → Bool
is_creating (returned (some creating)) = true
is_creating e = false

-- A profile that is asked for is started before the guest is run, if it is, and stopped behind.
abbrev pub around : Action → Action → Bool → Bool → List Action
around start stop asked ran =
    when asked (start ∷ []) ++ (when ran (run_guest ∷ []) ++ when asked (stop ∷ []))

-- The guest is run unless a file of the host's profiles that is asked for cannot be created, and
-- each CPU profile is around it: the host's, if its file is created, and the guest's, if the guest
-- is run.
abbrev pub IsOrderly : Program → Surroundings → RunResult → Type 0
IsOrderly prog env r =
    let host = prog.host_profile in
    let cpus = is_set prog.cpu_profile in
    let ran = not (is_creating r.ended) in
    (is_creating r.ended ≡ (
      host && ((cpus && not env.creates_cpu) || (is_set prog.mem_profile && not env.creates_mem))))
    × (only host_cpu r.actions
        ≡ around (start_host_cpu env.starts_host_cpu) stop_host_cpu
            (host && (cpus && env.creates_cpu)) ran)
    × (only guest_cpu r.actions
        ≡ around (start_cpu env.starts_cpu) (stop_cpu env.stops_cpu) (cpus && ran) ran)

-- The process exits with the profiles that were asked for started, none of them stopped, and the
-- guest not run.
abbrev pub IsCutOff : Program → Surroundings → RunResult → Type 0
IsCutOff prog env r =
    (r.ended ≡ exited)
    × (only host_cpu r.actions
        ≡ when (prog.host_profile && is_set prog.cpu_profile)
            (start_host_cpu env.starts_host_cpu ∷ []))
    × (only guest_cpu r.actions ≡ when (is_set prog.cpu_profile) (start_cpu env.starts_cpu ∷ []))

orderly :
    (prog : Program) (env : Surroundings) (mounts : List Mount)
    → create_fs_config prog.mounts ≡ some mounts
    → IsOrderly prog env (session prog env)
unfolding session host_part
orderly prog env mounts e = ground arith

cut_off :
    (prog : Program) (env : Surroundings)
    → create_fs_config prog.mounts ≡ none
    → ((IsOrderly prog env (session prog env))
        × ((session prog env).ended ≡ returned (some creating)))
      ⊎ IsCutOff prog env (session prog env)
unfolding session host_part
cut_off prog env e = ground arith

-- Behind a `Prepare` that succeeds, which `run` does not come to as it stands, since it panics
-- before. Where every mount is valid, whatever is asked for and whatever fails: `run` returns
-- without running the guest exactly if a file of the host's profiles that are asked for cannot be
-- created; else it runs the guest once. It calls the start of each CPU profile that is asked for
-- before the guest runs, and its stop once, behind the guest, whether the start and the stop
-- succeed or not: of the host's where its file is created, also where `run` then returns early, and
-- of the guest's where the guest runs. Where a mount is invalid, `run` returns early by such a file
-- in the same way, or the process exits: the guest is not run, and each CPU profile asked for is
-- started and never stopped.
pub session-IsOrderly :
    (prog : Program) (env : Surroundings)
    → ((mounts : List Mount)
        → create_fs_config prog.mounts ≡ some mounts
        → IsOrderly prog env (session prog env))
      × (create_fs_config prog.mounts ≡ none
          → ((IsOrderly prog env (session prog env))
              × ((session prog env).ended ≡ returned (some creating)))
            ⊎ IsCutOff prog env (session prog env))
unfolding session
session-IsOrderly prog env = (λ mounts e. orderly prog env mounts e, λ e. cut_off prog env e)

module _ (dwarf_new : DebugSections → Option (List Entry))
    (location_of : Entry → Option LocationAttr) (ranges_of : Entry → Option (List Range)) where
  constructor_panics :
      (host : Bool) (p : Profiling) → p.prepare_called ≡ false → cpu_profiler host p ≡ panic
  constructor_panics host p h = (constructors_protocol p true host true 0 h).0

  -- `run` on a file that can be read and of which `ProfilingFor` makes a `Profiling` panics,
  -- whatever the arguments of the command and whatever the module: it constructs the CPU profiler
  -- before `Prepare`.
  pub run_panics :
      (fuel : ℕ) (prog : Program) (env : Surroundings) (wasm : List ℕ) (p : Profiling)
      → env.file ≡ some wasm
      → profiling_for_binary dwarf_new location_of ranges_of wasm ≡ ok p
      → run dwarf_new location_of ranges_of fuel prog env ≡ panic
  unfolding run
  run_panics fuel prog env wasm p f h = rw (f) (
      rw
        (
          h,
          constructor_panics prog.host_time p
              (profiling_for_binary_fresh dwarf_new location_of ranges_of wasm p h),
        )
        refl)
