-- ===== src/Trace.antt =====
-- wzprof.go: stack traces, and the map of counters that the profilers record them in.
pub mod Counts
pub mod Paired
pub mod Slices
pub mod Store
use Prim.Native.String.{String}
use wzprof.Base.{
  ℕ, zero, suc, ◌+◌, ◌*◌, ◌/◌, ◌%◌, ◌^◌, List, [], ◌∷◌, ◌++◌, map, Bool, true, false, Option, none,
  some, ◌==◌, if◌then◌else◌,
}
use wzprof.Base.Words.{add64}
use mathlib.Core.List.{flat_map}

-- A guest function, as far as the code asks `experimental.InternalFunction` and its definition.
-- `is_host` says that `GoFunction()` is not nil.
pub record Function : Type 0 where
  pub module_name : String
  pub index : ℕ
  pub name : String
  pub is_host : Bool

-- `stackFrame`: what a stack iterator yields at one position.
pub record StackFrame : Type 0 where
  pub fn : Function
  pub pc : ℕ

-- `stackTrace`. The two slices have one length.
pub record StackTrace : Type 0 where
  pub fns : List Function
  pub pcs : List ℕ
  pub key : ℕ

abbrev pub no_trace : StackTrace
no_trace = record { fns = []; pcs = []; key = 0 }

-- The eight bytes of a `uint64` in memory, on a little-endian host.
unfoldable pub le_bytes : ℕ → ℕ → List ℕ
le_bytes zero v = []
le_bytes (suc n) v = v % 256 ∷ le_bytes n (v / 256)

-- `stackTrace.bytes`.
pub trace_bytes : List ℕ → List ℕ
trace_bytes = flat_map (le_bytes 8)

-- `host`: the innermost function is the host's.
pub host_stack : List Function → Bool
host_stack [] = false
host_stack (fn ∷ fns) = fn.is_host

unfoldable pub host : StackTrace → Bool
unfolding host_stack
host st = host_stack st.fns

-- `maphash.Bytes` under the seed of the process is a parameter.
module _ (hash : List ℕ → ℕ) where
  -- `makeStackTrace`, on the frames that the iterator yields. It keeps nothing of the trace whose
  -- slices it takes over.
  unfoldable pub make_stack_trace : StackTrace → List StackFrame → StackTrace
  unfolding trace_bytes
  make_stack_trace st frames =
      let pcs = map (λ (f : StackFrame). f.pc) frames in
      record st {
        fns = map (λ (f : StackFrame). f.fn) frames;
        pcs = pcs;
        key = hash (trace_bytes pcs);
      }

-- `stackTrace.clone`: the same values in slices of their own.
abbrev pub clone : StackTrace → StackTrace
clone st = record { fns = st.fns; pcs = st.pcs; key = st.key }

-- `stackCounter`. `value[0]` and `value[1]` are `int64` patterns.
pub record StackCounter : Type 0 where
  pub stack : StackTrace
  pub count : ℕ
  pub total : ℕ

abbrev pub fresh_counter : StackTrace → StackCounter
fresh_counter st = record { stack = clone st; count = 0; total = 0 }

-- `stackCounter.observe`.
unfoldable pub observe_value : StackCounter → ℕ → StackCounter
observe_value sc value = record sc { count = add64 sc.count 1; total = add64 sc.total value }

-- `stackCounterMap`: its entries, each under its key.
abbrev pub Counts : Type 0
Counts = List (ℕ × StackCounter)

pub find : ℕ → Counts → Option StackCounter
find k [] = none
find k ((j, sc) ∷ m) = if j == k then some sc else find k m

-- `stackCounterMap.lookup`, which adds a counter for a new key. It returns a pointer, which the
-- model names by the key.
unfoldable pub lookup : Counts → StackTrace → Counts
lookup [] st = (st.key, fresh_counter st) ∷ []
lookup ((j, sc) ∷ m) st = if j == st.key then (j, sc) ∷ m else (j, sc) ∷ lookup m st

-- A write through the pointer to the counter under a key.
unfoldable pub observe_at : ℕ → ℕ → Counts → Counts
unfolding observe_value
observe_at k value [] = []
observe_at k value ((j, sc) ∷ m) =
    if j == k then (j, observe_value sc value) ∷ m else (j, sc) ∷ observe_at k value m

-- `stackCounterMap.observe`.
unfoldable pub observe : Counts → StackTrace → ℕ → Counts
observe m st value = observe_at st.key value (lookup m st)
