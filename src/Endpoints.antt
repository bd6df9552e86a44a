-- ===== src/Endpoints.antt =====
-- pprof.go: the HTTP handler of the profilers. A string is the list of its
-- bytes. What the code takes from net/http and runtime/pprof is an argument: the request, the host's
-- profiles, and the sort. How an answer is written is not modelled.
pub mod Routes
mod Tests
use Prim.Native.String.{String}
use Prim.Native.Char.{code}
use wzprof.Base.{
  ℕ, zero, suc, ◌+◌, ◌*◌, ◌%◌, ◌^◌, List, [], ◌∷◌, ◌++◌, map, Bool, true, false, ◌&&◌, Option, none,
  some, ltb, ◌==◌, if◌then◌else◌,
}
use wzprof.WasmBin.{bytes_eq}

-- The bytes of a text in ASCII.
abbrev pub text : String → List ℕ
text String.[] = []
text (String.◌∷◌ c s) = code c ∷ text s

-- `Profiler`: what the handler asks of one.
pub record Profiler : Type 0 where
  pub name : List ℕ
  pub desc : List ℕ
  pub count : ℕ

-- The handler of an entry: that of the guest's profiler of a name, or one of the host.
pub data EntryHandler : Type 0 where
  guest_profile : List ℕ → EntryHandler
  host_cmdline host_cpu host_trace : EntryHandler
  host_profile : List ℕ → EntryHandler

-- `profileEntry`.
pub record ProfileEntry : Type 0 where
  pub name : List ℕ
  pub href : List ℕ
  pub desc : List ℕ
  pub debug : ℕ
  pub count : ℕ
  pub handler : EntryHandler

-- `profileDescriptions`, which has an empty text for the other names.
pub described : List ℕ → List (String × String) → List ℕ
described name [] = []
described name ((k, d) ∷ descs) = if bytes_eq name (text k) then text d else described name descs

pub profile_descriptions : List ℕ → List ℕ
unfolding described
profile_descriptions name = described name (
    ("allocs", "A sampling of all past memory allocations")
    ∷ ("block", "Stack traces that led to blocking on synchronization primitives")
    ∷ ("cmdline", "The command line invocation of the current program")
    ∷ (
      "goroutine",
      "Stack traces of all current goroutines. Use debug=2 as a query parameter to export in the same format as an unrecovered panic.",
    )
    ∷ (
      "heap",
      "A sampling of memory allocations of live objects. You can specify the gc GET parameter to run GC before taking the heap sample.",
    )
    ∷ ("mutex", "Stack traces of holders of contended mutexes")
    ∷ (
      "profile",
      "CPU profile. You can specify the duration in the seconds GET parameter. After you get the profile file, use the go tool pprof command to investigate the profile.",
    )
    ∷ ("threadcreate", "Stack traces that led to the creation of new OS threads")
    ∷ (
      "trace",
      "A trace of execution of the current program. You can specify the duration in the seconds GET parameter. After you get the trace file, use the go tool trace command to investigate the trace.",
    )
    ∷ [])

-- An entry for a profiler of the guest.
pub guest_entry : Profiler → ProfileEntry
guest_entry p = record {
  name = p.name;
  href = p.name;
  desc = p.desc;
  debug = 0;
  count = p.count;
  handler = guest_profile p.name;
}

pub fixed_entry : String → EntryHandler → ProfileEntry
unfolding profile_descriptions
fixed_entry name handler = record {
  name = text name;
  href = text name;
  desc = profile_descriptions (text name);
  debug = 1;
  count = 0;
  handler = handler;
}

-- An entry for one of `pprof.Profiles()`, by its name and count.
pub host_entry : List ℕ × ℕ → ProfileEntry
unfolding profile_descriptions
host_entry (name, count) = record {
  name = name;
  href = name;
  desc = profile_descriptions name;
  debug = 1;
  count = count;
  handler = host_profile name;
}

-- The last entry, of `pprof.Lookup("goroutine")` with its count.
pub goroutine_entry : ℕ → ProfileEntry
goroutine_entry count = record {
  name = text "full goroutine stack dump";
  href = text "goroutine";
  desc = [];
  debug = 2;
  count = count;
  handler = host_profile (text "goroutine");
}

pub host_entries : List (List ℕ × ℕ) → ℕ → List ProfileEntry
unfolding fixed_entry host_entry goroutine_entry
host_entries profiles goroutines =
    fixed_entry "cmdline" host_cmdline
    ∷ fixed_entry "profile" host_cpu
    ∷ fixed_entry "trace" host_trace
    ∷ (map host_entry profiles ++ (goroutine_entry goroutines ∷ []))

-- A request: the path of its URL, and whether its query has `host`.
pub record Request : Type 0 where
  pub path : List ℕ
  pub host : Bool

-- `strings.CutPrefix`.
pub cut_prefix : List ℕ → List ℕ → Option (List ℕ)
cut_prefix [] path = some path
cut_prefix (c ∷ cs) [] = none
cut_prefix (c ∷ cs) (d ∷ ds) = let rest = cut_prefix cs ds in if c == d then rest else none

abbrev pub debug_pprof : List ℕ
debug_pprof = text "/debug/pprof/"

-- The loop over the entries.
pub entry_of : List ℕ → List ProfileEntry → Option ProfileEntry
entry_of href [] = none
entry_of href (e ∷ entries) = if bytes_eq e.href href then some e else entry_of href entries

-- The answer: an entry's handler serves it, or the page that lists the entries of the guest and the host.
pub data Answer : Type 0 where
  served : ProfileEntry → Answer
  index : List ProfileEntry → List ProfileEntry → Answer

pub answer : Answer → Option ProfileEntry → Answer
answer page none = page
answer page (some e) = served e

pub look_up : Answer → List ProfileEntry → Option (List ℕ) → Answer
unfolding answer
look_up page entries none = page
look_up page entries (some href) = answer page (entry_of href entries)

-- `Handler`. `sort` is `sortProfiles`.
pub handler :
    (List ProfileEntry → List ProfileEntry)
    → List Profiler
    → List (List ℕ × ℕ)
    → ℕ
    → Request
    → Answer
unfolding look_up cut_prefix guest_entry host_entries
handler sort profilers profiles goroutines r =
    let guest = map guest_entry profilers in
    let host = host_entries profiles goroutines in
    look_up (index (sort guest) (sort host)) (if r.host then host else guest)
      (cut_prefix debug_pprof r.path)

-- The descriptions of the index page, by name: an entry without one is passed over, and a later one
-- replaces an earlier.
pub describe : List ℕ → List ℕ → List (List ℕ × List ℕ) → List (List ℕ × List ℕ)
describe name desc [] = (name, desc) ∷ []
describe name desc ((k, d) ∷ descs) =
    if bytes_eq k name then (k, desc) ∷ descs else (k, d) ∷ describe name desc descs

pub descriptions_by_name : List ProfileEntry → List (List ℕ × List ℕ) → List (List ℕ × List ℕ)
unfolding describe
descriptions_by_name [] descs = descs
descriptions_by_name (e ∷ entries) descs =
    descriptions_by_name entries
      (if bytes_eq e.desc [] then descs else describe e.name e.desc descs)
