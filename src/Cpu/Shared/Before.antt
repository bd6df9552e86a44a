-- ===== src/Cpu/Shared/Before.antt =====
-- cpu.go: `Before` on stored traces.
use wzprof.Base.{ℕ, ◌≡◌, refl, List, [], ◌∷◌, ◌++◌, map, Option, none, some, arith}
use wzprof.Trace.{Function, StackFrame, StackTrace, no_trace, make_stack_trace}
use wzprof.Trace.Slices.Moves.{owns-nil_slice, read-emptied}
use wzprof.Trace.Slices.{Slicing}
use wzprof.Trace.Store.{Store, SharedTrace, SharedCounts, no_shared_trace, view, view_counts, make}
use wzprof.Trace.Store.Keeps.{IsOldTrace, make-TraceMoves, view-make}
use wzprof.Trace.Store.Owned.{owned, Beside, Same, Beside-Same, stacks, Same-counts}
use wzprof.Cpu.{reuse_trace, before}
use wzprof.Cpu.Shared.{Machine, take_trace, shared_before, view_frame, view_profiler, view_handed}
use wzprof.Cpu.Shared.Traces.{
  Alone, Alone-le, Alone-AreOld, Alone-Beside, Alone-TraceMoves, owned_parts, frame_traces,
  count_traces, handed_traces, owners, Same-append, Same-frames, Same-traces, Same-handed,
}

nil_view : (st : Store) → view st no_shared_trace ≡ record { fns = []; pcs = []; key = 0 }
unfolding view
nil_view st =
    rw (read-emptied st.fns no_shared_trace.fns, read-emptied st.pcs no_shared_trace.pcs) refl

-- `Before`.
module _ (of_fns : Slicing Function) (of_pcs : Slicing ℕ) (hash : List ℕ → ℕ) (now : ℕ)
    (stack : List StackFrame) where
  abbrev pushed : Machine → Machine
  pushed = shared_before of_fns of_pcs hash now stack

  abbrev made : Machine → SharedTrace → Store × SharedTrace
  made p t = make of_fns of_pcs hash p.store t stack

  -- The traces beside the one that is reused.
  abbrev beside : Machine → SharedCounts → List SharedTrace → List SharedTrace
  beside p m ts = stacks m ++ (frame_traces p.frames ++ (ts ++ handed_traces p.handed))

  -- The machine with the new trace in a frame.
  abbrev framed : Machine → SharedCounts → SharedTrace → List SharedTrace → Machine
  framed p m t ts = record p {
    store = (made p t).0;
    counts = some m;
    frames = record { start = now; sub = 0; trace = (made p t).1 } ∷ p.frames;
    traces = ts;
  }

  module _ (p : Machine) (m : SharedCounts) (t : SharedTrace) (ts : List SharedTrace)
      (old : IsOldTrace p.store t) (b : Beside p.store t (beside p m ts)) where
    framed-Alone : Alone (framed p m t ts).store (owners (framed p m t ts))
    unfolding count_traces owned
    framed-Alone =
        Alone-le (made p t).0 ((made p t).1 ∷ beside p m ts) (owners (framed p m t ts))
          (λ part nil a. omega (
            arith,
            owned_parts part a (stacks m) (frame_traces p.frames) ts (handed_traces p.handed),
            owned_parts part a (stacks m) ((made p t).1 ∷ frame_traces p.frames) ts
                (handed_traces p.handed),
          ))
          (Alone-TraceMoves p.store t (made p t).0 (made p t).1 (beside p m ts)
            (make-TraceMoves of_fns of_pcs hash p.store t stack old) b)

    same : Same p.store (made p t).0 (beside p m ts)
    same =
        Beside-Same p.store t (made p t).0 (made p t).1 (beside p m ts)
          (make-TraceMoves of_fns of_pcs hash p.store t stack old) b

    framed-view :
        (reused : StackTrace)
        → view_profiler (framed p m t ts) ≡ record {
          counts = some (view_counts p.store m);
          frames =
              record { start = now; sub = 0; trace = make_stack_trace hash reused stack }
              ∷ map (view_frame p.store) p.frames;
          traces = map (view p.store) ts;
          start = p.start;
          host = p.host;
        }
    unfolding view_profiler
    framed-view reused =
        let (counts, others) = Same-append p.store (made p t).0 (stacks m) _ same in
        let (frames, more) = Same-append p.store (made p t).0 (frame_traces p.frames) _ others in
        let (traces, handed) = Same-append p.store (made p t).0 ts (handed_traces p.handed) more in
        rw
          (
            Same-counts p.store (made p t).0 m counts,
            Same-frames p.store (made p t).0 p.frames frames,
            Same-traces p.store (made p t).0 ts traces,
            view-make of_fns of_pcs hash p.store t reused stack,
          )
          refl

    framed-handed : view_handed (framed p m t ts) ≡ view_handed p
    unfolding view_handed
    framed-handed =
        let (counts, others) = Same-append p.store (made p t).0 (stacks m) _ same in
        let (frames, more) = Same-append p.store (made p t).0 (frame_traces p.frames) _ others in
        let (traces, handed) = Same-append p.store (made p t).0 ts (handed_traces p.handed) more in
        Same-handed p.store (made p t).0 p.handed handed

  -- The traces of a profile beside the one that is reused.
  abbrev live : Machine → SharedCounts → List SharedTrace → Machine
  live p m ts = record p { counts = some m; traces = ts }

  nil_old : (p : Machine) → IsOldTrace p.store no_shared_trace
  nil_old p = record { fns = λ a l. owns-nil_slice a; pcs = λ a l. owns-nil_slice a }

  nil_beside :
      (p : Machine) (m : SharedCounts)
      → Alone p.store (owners (live p m []))
      → Beside p.store no_shared_trace (beside p m [])
  unfolding count_traces owned
  nil_beside p m h = Alone-Beside p.store no_shared_trace (beside p m []) (
      Alone-le p.store (owners (live p m [])) (no_shared_trace ∷ beside p m [])
        (λ part nil a. omega (arith, nil a)) h)

  -- The trace that is reused in front.
  front :
      (p : Machine) (m : SharedCounts) (t : SharedTrace) (ts : List SharedTrace)
      → Alone p.store (owners (live p m (t ∷ ts)))
      → Alone p.store (t ∷ beside p m ts)
  unfolding count_traces owned
  front p m t ts h =
      Alone-le p.store (owners (live p m (t ∷ ts))) (t ∷ beside p m ts)
        (λ part nil a. omega (
          arith,
          owned_parts part a (stacks m) (frame_traces p.frames) ts (handed_traces p.handed),
          owned_parts part a (stacks m) (frame_traces p.frames) (t ∷ ts) (handed_traces p.handed),
        ))
        h

  front_beside :
      (p : Machine) (m : SharedCounts) (t : SharedTrace) (ts : List SharedTrace)
      → Alone p.store (owners (live p m (t ∷ ts)))
      → Beside p.store t (beside p m ts)
  front_beside p m t ts h = Alone-Beside p.store t (beside p m ts) (front p m t ts h)

  front_old :
      (p : Machine) (m : SharedCounts) (t : SharedTrace) (ts : List SharedTrace)
      → Alone p.store (owners (live p m (t ∷ ts)))
      → IsOldTrace p.store t
  front_old p m t ts h = (Alone-AreOld p.store (t ∷ beside p m ts) (front p m t ts h)).0

  abbrev rest : Machine → Option SharedCounts → List SharedTrace → Machine
  rest p o ts = record p { counts = o; traces = ts }

  pub before-Alone :
      (p : Machine) (o : Option SharedCounts) (ts : List SharedTrace)
      → Alone p.store (owners (rest p o ts))
      → Alone (pushed (rest p o ts)).store (owners (pushed (rest p o ts)))
  unfolding shared_before take_trace count_traces owned
  before-Alone p none ts h =
      Alone-le p.store (owners (rest p none ts)) (owners (pushed (rest p none ts)))
        (λ part nil a. omega (arith, nil a)) h
  before-Alone p (some m) [] h =
      framed-Alone (rest p (some m) []) m no_shared_trace [] (nil_old p) (nil_beside p m h)
  before-Alone p (some m) (t ∷ ts) h =
      framed-Alone (rest p (some m) ts) m t ts (front_old p m t ts h) (front_beside p m t ts h)

  pub before-view :
      (p : Machine) (o : Option SharedCounts) (ts : List SharedTrace)
      → Alone p.store (owners (rest p o ts))
      → view_profiler (pushed (rest p o ts)) ≡ before hash now stack (view_profiler (rest p o ts))
  unfolding shared_before take_trace view_profiler before reuse_trace
  before-view p none ts h = rw (nil_view p.store) refl
  before-view p (some m) [] h =
      framed-view (rest p (some m) []) m no_shared_trace [] (nil_old p) (nil_beside p m h) no_trace
  before-view p (some m) (t ∷ ts) h =
      framed-view (rest p (some m) ts) m t ts (front_old p m t ts h) (front_beside p m t ts h)
        (view p.store t)

  pub before-handed :
      (p : Machine) (o : Option SharedCounts) (ts : List SharedTrace)
      → Alone p.store (owners (rest p o ts))
      → view_handed (pushed (rest p o ts)) ≡ view_handed p
  unfolding shared_before take_trace view_handed
  before-handed p none ts h = refl
  before-handed p (some m) [] h =
      framed-handed (rest p (some m) []) m no_shared_trace [] (nil_old p) (nil_beside p m h)
  before-handed p (some m) (t ∷ ts) h =
      framed-handed (rest p (some m) ts) m t ts (front_old p m t ts h) (front_beside p m t ts h)
