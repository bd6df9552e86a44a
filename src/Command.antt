-- ===== src/Command.antt =====
-- cmd/wzprof/main.go: the command line. A string is the list of its bytes. What the command asks of its
-- surroundings is an argument: files, the compiler of wazero, and how the guest ends.
pub mod Mounts
pub mod Startup
mod Tests
use wzprof.Base.{
  ℕ, zero, suc, List, [], ◌∷◌, ◌++◌, Bool, true, false, not, ◌&&◌, ◌||◌, Option, none, some, ◌==◌,
  if◌then◌else◌, Outcome, ok, ◌>>=◌, ◌>>◌,
}
use wzprof.WasmBin.{bytes_eq}
use wzprof.Cpu.{CpuProfiler}
use wzprof.Mem.{MemoryProfiler}
use wzprof.Profiling.{Profiling, cpu_profiler, memory_profiler}

-- `strings.Split` at one byte.
pub cons_first : ℕ → List (List ℕ) → List (List ℕ)
cons_first c [] = (c ∷ []) ∷ []
cons_first c (part ∷ parts) = (c ∷ part) ∷ parts

pub split_at : ℕ → List ℕ → List (List ℕ)
unfolding cons_first
split_at sep [] = [] ∷ []
split_at sep (c ∷ cs) =
    let rest = split_at sep cs in if c == sep then [] ∷ rest else cons_first c rest

abbrev pub comma : ℕ
comma = 44

abbrev pub colon : ℕ
colon = 58

-- `split`.
pub split : List ℕ → List (List ℕ)
unfolding split_at
split [] = []
split (c ∷ cs) = split_at comma (c ∷ cs)

-- A call of `WithDirMount`, or of `WithReadOnlyDirMount`.
pub record Mount : Type 0 where
  pub dir : List ℕ
  pub guest : List ℕ
  pub read_only : Bool

abbrev pub ro : List ℕ
ro = 114 ∷ 111 ∷ []

-- A round of the loop of `createFSConfig`, on the parts of a mount. `none` is the fatal error.
pub mount_of : List (List ℕ) → Option Mount
mount_of [] = none
mount_of (dir ∷ []) = none
mount_of (dir ∷ guest ∷ []) = some (record { dir = dir; guest = guest; read_only = false })
mount_of (dir ∷ guest ∷ mode ∷ []) =
    some (record { dir = dir; guest = guest; read_only = bytes_eq mode ro })
mount_of (dir ∷ guest ∷ mode ∷ more ∷ rest) =
    some (record { dir = dir; guest = guest; read_only = false })

pub add_mount : Option Mount → Option (List Mount) → Option (List Mount)
add_mount none mounts = none
add_mount (some m) none = none
add_mount (some m) (some mounts) = some (m ∷ mounts)

-- `createFSConfig`: the mounts that are added, in order.
pub create_fs_config : List (List ℕ) → Option (List Mount)
unfolding add_mount
create_fs_config [] = some []
create_fs_config (m ∷ mounts) = add_mount (mount_of (split_at colon m)) (create_fs_config mounts)
