-- ===== src/Mem.antt =====
-- mem.go: the memory profiler, its listeners on the allocation functions, and its snapshot.
pub mod Hooks
pub mod Snapshot
pub mod Stacks
pub mod Totals
pub mod Inuse
mod Tests
use wzprof.Base.{
  ℕ, ◌+◌, ◌*◌, ◌%◌, ◌^◌, List, [], ◌∷◌, Bool, true, false, Option, none, some, ◌==◌, if◌then◌else◌,
  Outcome, ok, panic, ◌>>=◌, length,
}
use wzprof.Base.Words.{add64}
use wzprof.Trace.{StackTrace, StackCounter, Counts, observe}

-- `memoryAllocation`: the counter that it points to, named by its key, and the size.
pub record MemoryAllocation : Type 0 where
  pub counter : ℕ
  pub size : ℕ

-- The map of the objects in use, under their addresses.
abbrev pub Inuse : Type 0
Inuse = List (ℕ × MemoryAllocation)

pub find_addr : ℕ → Inuse → Option MemoryAllocation
find_addr a [] = none
find_addr a ((b, x) ∷ m) = if b == a then some x else find_addr a m

pub put_addr : ℕ → MemoryAllocation → Inuse → Inuse
put_addr a x [] = (a, x) ∷ []
put_addr a x ((b, y) ∷ m) = if b == a then (a, x) ∷ m else (b, y) ∷ put_addr a x m

-- `delete`. An address stands once in the map.
pub delete_addr : ℕ → Inuse → Inuse
delete_addr a [] = []
delete_addr a ((b, y) ∷ m) = if b == a then delete_addr a m else (b, y) ∷ delete_addr a m

-- `MemoryProfiler`. `inuse` is nil unless the option `InuseMemory` is set.
pub record MemoryProfiler : Type 0 where
  pub alloc : Counts
  pub inuse : Option Inuse
  pub start : ℕ

-- `newMemoryProfiler`, with the option `InuseMemory`.
pub new_memory_profiler : Bool → ℕ → MemoryProfiler
new_memory_profiler enable now = record {
  alloc = [];
  inuse = if enable then some [] else none;
  start = now;
}

pub observe_alloc : ℕ → ℕ → StackTrace → MemoryProfiler → MemoryProfiler
observe_alloc addr size stack p =
    let alloc = observe p.alloc stack size in
    elim p.inuse [
      | none ↦ record p { alloc = alloc }
      | some m ↦ record p {
        alloc = alloc;
        inuse = some (put_addr addr (record { counter = stack.key; size = size }) m);
      }
    ]

pub observe_free : ℕ → MemoryProfiler → MemoryProfiler
observe_free addr p = elim p.inuse [
  | none ↦ p
  | some m ↦ record p { inuse = some (delete_addr addr m) }
]

-- `Count`.
unfoldable pub count : MemoryProfiler → ℕ
count p = length p.alloc

-- `memorySample`: `value[0]` to `value[3]`, as `int64` patterns.
pub record MemorySample : Type 0 where
  pub stack : StackTrace
  pub alloc_count : ℕ
  pub alloc_bytes : ℕ
  pub inuse_count : ℕ
  pub inuse_bytes : ℕ

abbrev pub Samples : Type 0
Samples = List (ℕ × MemorySample)

pub with_alloc : StackCounter → MemorySample → MemorySample
with_alloc sc s = record s {
  alloc_count = add64 s.alloc_count sc.count;
  alloc_bytes = add64 s.alloc_bytes sc.total;
}

pub with_inuse : MemoryAllocation → MemorySample → MemorySample
with_inuse x s = record s {
  inuse_count = add64 s.inuse_count 1;
  inuse_bytes = add64 s.inuse_bytes x.size;
}

abbrev pub empty_sample : StackTrace → MemorySample
empty_sample st = record {
  stack = st;
  alloc_count = 0;
  alloc_bytes = 0;
  inuse_count = 0;
  inuse_bytes = 0;
}

-- The body of the first loop of `snapshot`: the counter's sample is made when it is missing.
pub add_alloc : StackCounter → Samples → Samples
unfolding with_alloc
add_alloc sc [] = (sc.stack.key, with_alloc sc (empty_sample sc.stack)) ∷ []
add_alloc sc ((k, s) ∷ m) =
    if k == sc.stack.key then (k, with_alloc sc s) ∷ m else (k, s) ∷ add_alloc sc m

-- The body of the second loop: a missing sample is a nil pointer.
pub add_inuse : MemoryAllocation → Samples → Outcome Samples
unfolding with_inuse
add_inuse x [] = panic
add_inuse x ((k, s) ∷ m) =
    let rest = add_inuse x m >>= (λ m'. ok ((k, s) ∷ m')) in
    if k == x.counter then ok ((k, with_inuse x s) ∷ m) else rest

pub alloc_samples : Counts → Samples → Samples
alloc_samples [] m = m
alloc_samples ((k, sc) ∷ cs) m = alloc_samples cs (add_alloc sc m)

pub inuse_samples : Inuse → Samples → Outcome Samples
inuse_samples [] m = ok m
inuse_samples ((a, x) ∷ xs) m = add_inuse x m >>= inuse_samples xs

-- A range over a nil map makes no round.
abbrev pub entries : Option Inuse → Inuse
entries none = []
entries (some m) = m

-- `snapshot`. The lists stand for the maps in the order in which the loops range over them.
pub snapshot : MemoryProfiler → Outcome Samples
unfolding alloc_samples inuse_samples
snapshot p = inuse_samples (entries p.inuse) (alloc_samples p.alloc [])
