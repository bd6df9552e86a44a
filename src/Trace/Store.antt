-- ===== src/Trace/Store.antt =====
-- wzprof.go: stack traces as they lie in memory. `makeStackTrace` writes the frames into the slices of
-- the trace that it is given, and a new counter has a clone of its trace.
pub mod Keeps
pub mod Owned
use wzprof.Base.{ℕ, ◌≡◌, List, [], ◌∷◌, if◌then◌else◌, ◌==◌}
use wzprof.Trace.{
  Function, StackFrame, StackTrace, StackCounter, Counts, trace_bytes, observe_value,
}
use wzprof.Trace.Slices.Clones.{IsCloning}
use wzprof.Trace.Slices.{Slicing, Slice, Arrays, nil_slice, read, append, emptied}
use wzprof.Base.Words.{add64}

-- The arrays of all traces.
pub record Store : Type 0 where
  pub fns : Arrays Function
  pub pcs : Arrays ℕ

-- `stackTrace`, `stackCounter` and `stackCounterMap`.
pub record SharedTrace : Type 0 where
  pub fns : Slice
  pub pcs : Slice
  pub key : ℕ

abbrev pub no_shared_trace : SharedTrace
no_shared_trace = record { fns = nil_slice; pcs = nil_slice; key = 0 }

pub record SharedCounter : Type 0 where
  pub stack : SharedTrace
  pub count : ℕ
  pub total : ℕ

abbrev pub SharedCounts : Type 0
SharedCounts = List (ℕ × SharedCounter)

-- What they hold.
unfoldable pub view : Store → SharedTrace → StackTrace
view st t = record { fns = read st.fns t.fns; pcs = read st.pcs t.pcs; key = t.key }

unfoldable pub view_counts : Store → SharedCounts → Counts
unfolding view
view_counts st [] = []
view_counts st ((k, sc) ∷ m) =
    (k, record { stack = view st sc.stack; count = sc.count; total = sc.total }) ∷ view_counts st m

-- A counter to which a value is added.
pub add_value : SharedCounter → ℕ → SharedCounter
add_value sc value = record sc { count = add64 sc.count 1; total = add64 sc.total value }

pub value_at : ℕ → ℕ → SharedCounts → SharedCounts
unfolding add_value
value_at k value [] = []
value_at k value ((j, sc) ∷ m) =
    if j == k then (j, add_value sc value) ∷ m else (j, sc) ∷ value_at k value m

-- What the code takes from outside for the slices of functions, and of PCs; and `maphash.Bytes`.
module _ (of_fns : Slicing Function) (of_pcs : Slicing ℕ) (hash : List ℕ → ℕ) where
  -- The loop of `makeStackTrace`, and a round of it.
  pub extend : Store → SharedTrace → StackFrame → Store × SharedTrace
  extend st t f =
      let (fns, fn_slice) = append of_fns.spare st.fns t.fns f.fn in
      let (pcs, pc_slice) = append of_pcs.spare st.pcs t.pcs f.pc in
      (record { fns = fns; pcs = pcs }, record { fns = fn_slice; pcs = pc_slice; key = t.key })

  pub collect : Store → SharedTrace → List StackFrame → Store × SharedTrace
  unfolding extend
  collect st t [] = (st, t)
  collect st t (f ∷ frames) = collect (extend st t f).0 (extend st t f).1 frames

  -- `makeStackTrace`.
  pub make : Store → SharedTrace → List StackFrame → Store × SharedTrace
  unfolding collect
  make st t frames =
      let (after, full) =
        collect st (record t { fns = emptied t.fns; pcs = emptied t.pcs }) frames in
      (after, record full { key = hash (trace_bytes (read after.pcs full.pcs)) })

  -- `stackTrace.clone`.
  pub clone_trace : Store → SharedTrace → Store × SharedTrace
  clone_trace st t =
      let (fns, fn_slice) = of_fns.clone_slice st.fns t.fns in
      let (pcs, pc_slice) = of_pcs.clone_slice st.pcs t.pcs in
      (record { fns = fns; pcs = pcs }, record { fns = fn_slice; pcs = pc_slice; key = t.key })

  -- `stackCounterMap.lookup`, which adds a counter with a clone of the trace for a new key.
  pub shared_lookup : Store → SharedCounts → SharedTrace → Store × SharedCounts
  unfolding clone_trace
  shared_lookup st [] t =
      let (after, copied) = clone_trace st t in
      (after, (t.key, record { stack = copied; count = 0; total = 0 }) ∷ [])
  shared_lookup st ((j, sc) ∷ m) t =
      let (after, found) = shared_lookup st m t in
      if j == t.key then (st, (j, sc) ∷ m) else (after, (j, sc) ∷ found)

  -- `stackCounterMap.observe`.
  pub shared_observe : Store → SharedCounts → SharedTrace → ℕ → Store × SharedCounts
  unfolding shared_lookup value_at
  shared_observe st m t value =
      let (after, found) = shared_lookup st m t in (after, value_at t.key value found)
