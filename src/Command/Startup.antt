-- ===== src/Command/Startup.antt =====
-- cmd/wzprof/main.go: `run`, from the arguments of the command to the end of the guest.
pub mod Runs
use wzprof.Base.{
  ℕ, zero, suc, List, [], ◌∷◌, ◌++◌, map, Bool, true, false, not, ◌&&◌, ◌||◌, Option, none, some,
  if◌then◌else◌, Outcome, ok, ◌>>=◌,
}
use wzprof.Dwarf.{Entry, Range}
use wzprof.Dwarf.Sections.{DebugSections}
use wzprof.Python.Setup.{LocationAttr}
use wzprof.Profiling.{Profiling, cpu_profiler, memory_profiler}
use wzprof.Profiling.Prepare.{Symbolizer, profiling_for_binary, prepare_module}
use wzprof.Command.{split, create_fs_config}

-- `program`. `sampled` is whether the sampling rate is below 1.
pub record Program : Type 0 where
  pub file_path : List ℕ
  pub args : List (List ℕ)
  pub pprof_addr : List ℕ
  pub cpu_profile : List ℕ
  pub mem_profile : List ℕ
  pub sampled : Bool
  pub host_profile : Bool
  pub host_time : Bool
  pub inuse_memory : Bool
  pub mounts : List (List ℕ)

abbrev pub is_set : List ℕ → Bool
is_set [] = false
is_set (c ∷ cs) = true

-- The two profilers, and the factories of listeners that `run` installs: a profiler, sampled or not.
pub data Profiler : Type 0 where
  cpu mem : Profiler

pub record Factory : Type 0 where
  pub profiler : Profiler
  pub through_sample : Bool

pub listeners : Program → List Factory
listeners prog =
    let cpus = if is_set prog.cpu_profile || is_set prog.pprof_addr then cpu ∷ [] else [] in
    let mems = if is_set prog.mem_profile || is_set prog.pprof_addr then mem ∷ [] else [] in
    map (λ (p : Profiler). record { profiler = p; through_sample = prog.sampled }) (cpus ++ mems)

-- What `run` does, in order, behind the constructors: the HTTP server, the profiles of the host and
-- of the guest, and the guest itself. A profile is started, stopped, and written to its file. A
-- call that starts a profile comes with whether it starts one, and `StopProfile` with whether it
-- returns one.
pub data Action : Type 0 where
  serve run_guest stop_host_cpu write_host_heap write_cpu snapshot_mem write_mem : Action
  start_host_cpu start_cpu stop_cpu : Bool → Action

pub data RunError : Type 0 where
  reading compiling preparing creating guest_failed : RunError

-- How `run` ends: it returns, a `Fatalf` exits the process, or it panics.
pub data End : Type 0 where
  returned : Option RunError → End
  exited panicked : End

pub record RunResult : Type 0 where
  pub actions : List Action
  pub ended : End

abbrev pub when : Bool → List Action → List Action
when true actions = actions
when false actions = []

-- The surroundings: the file's bytes, whether it compiles, the sections and the number of imported
-- functions of the compiled module, which files can be created, whether the calls start a profile,
-- and whether `StopProfile` finds one (requests to the HTTP server start and stop profiles too),
-- whether the guest ends by an error other than that of a cancelled context, and the clock.
pub record Surroundings : Type 0 where
  pub file : Option (List ℕ)
  pub compiles : Bool
  pub sections : List (List ℕ × List ℕ)
  pub imported : ℕ
  pub creates_cpu : Bool
  pub creates_mem : Bool
  pub starts_host_cpu : Bool
  pub starts_cpu : Bool
  pub stops_cpu : Bool
  pub guest_fails : Bool
  pub now : ℕ

-- The deferred calls of the guest's profiles: the memory profile's, then the CPU profile's, which
-- panics where it is to write the nil that `StopProfile` returned.
pub guest_deferred : Bool → Bool → Bool → Bool → List Action
guest_deferred host cpus mems stops =
    when mems (snapshot_mem ∷ when (not host) (write_mem ∷ []))
    ++ when cpus (stop_cpu stops ∷ when (not host && stops) (write_cpu ∷ []))

-- The end of `run`, from the profiles of the guest on: what was done before, and the deferred
-- calls, the one that was deferred last in front. Where a mount is invalid, the goroutine of the
-- guest exits the process before it runs the guest, and no deferred call is run. The deferred calls
-- are all run when one of them panics.
pub guest_part : Program → Surroundings → List Action → List Action → RunResult
unfolding guest_deferred
guest_part prog env done deferred =
    let host = prog.host_profile in
    let cpus = is_set prog.cpu_profile in
    let mems = is_set prog.mem_profile in
    let started = done ++ when cpus (start_cpu env.starts_cpu ∷ []) in
    elim (create_fs_config prog.mounts) [
      | none ↦ record { actions = started; ended = exited }
      | some mounts ↦ record {
        actions =
            started ++ (run_guest ∷ (guest_deferred host cpus mems env.stops_cpu ++ deferred));
        ended =
            if cpus && not host && not env.stops_cpu
            then panicked
            else returned (if env.guest_fails then some guest_failed else none);
      }
    ]

-- The profiles of the host, whose files are created first. Where its CPU profile does not start,
-- that is printed.
pub host_part : Program → Surroundings → List Action → RunResult
unfolding guest_part
host_part prog env done =
    let cpus = prog.host_profile && is_set prog.cpu_profile in
    let mems = prog.host_profile && is_set prog.mem_profile in
    let started = done ++ when cpus (start_host_cpu env.starts_host_cpu ∷ []) in
    let deferred = when cpus (stop_host_cpu ∷ []) in
    if cpus && not env.creates_cpu
    then record { actions = done; ended = returned (some creating) }
    else if mems && not env.creates_mem
    then record { actions = started ++ deferred; ended = returned (some creating) }
    else guest_part prog env started (when mems (write_host_heap ∷ []) ++ deferred)

pub session : Program → Surroundings → RunResult
unfolding host_part
session prog env = host_part prog env (when (is_set prog.pprof_addr) (serve ∷ []))

abbrev pub stopped_by : RunError → RunResult
stopped_by e = record { actions = []; ended = returned (some e) }

module _ (dwarf_new : DebugSections → Option (List Entry))
    (location_of : Entry → Option LocationAttr) (ranges_of : Entry → Option (List Range)) where
  -- `run` behind the constructors of the profilers.
  pub run_prepared : ℕ → Program → Surroundings → List ℕ → Profiling → Outcome RunResult
  unfolding session
  run_prepared fuel prog env wasm p =
      let rest : Outcome RunResult =
        prepare_module dwarf_new location_of ranges_of fuel wasm env.sections env.imported p
        >>= (λ (failed, p, symbols).
            ok (if failed then stopped_by preparing else session prog env)) in
      if env.compiles then rest else ok (stopped_by compiling)

  -- `program.run`.
  pub run : ℕ → Program → Surroundings → Outcome RunResult
  unfolding run_prepared
  run fuel prog env = elim env.file [
    | none ↦ ok (stopped_by reading)
    | some wasm ↦ (do
      p ← profiling_for_binary dwarf_new location_of ranges_of wasm
      cpu_prof ← cpu_profiler prog.host_time p
      mem_prof ← memory_profiler prog.inuse_memory env.now p
      run_prepared fuel prog env wasm p)
  ]

-- The flags of the command.
pub record Flags : Type 0 where
  pub pprof_addr : List ℕ
  pub cpu_profile : List ℕ
  pub mem_profile : List ℕ
  pub sampled : Bool
  pub host_profile : Bool
  pub host_time : Bool
  pub inuse_memory : Bool
  pub mounts : List ℕ
  pub print_version : Bool

-- What the command comes to: the version is printed, the usage is, or a program is run.
pub data Command : Type 0 where
  version usage : Command
  runs : Program → Command

-- `run` of the command, on its arguments behind the flags.
unfoldable pub command : Flags → List (List ℕ) → Command
command flags [] = if flags.print_version then version else usage
command flags (file_path ∷ args) =
    if flags.print_version
    then version
    else runs (record {
      file_path = file_path;
      args = args;
      pprof_addr = flags.pprof_addr;
      cpu_profile = flags.cpu_profile;
      mem_profile = flags.mem_profile;
      sampled = flags.sampled;
      host_profile = flags.host_profile;
      host_time = flags.host_time;
      inuse_memory = flags.inuse_memory;
      mounts = split flags.mounts;
    })
