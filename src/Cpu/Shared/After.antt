-- ===== src/Cpu/Shared/After.antt =====
-- cpu.go: `After` on stored traces.
use wzprof.Base.{
  ℕ, ◌≡◌, refl, ap, ◌∙◌, inl, inr, List, [], ◌∷◌, map, true, false, Option, none, some, ◌==◌,
  Bool-cases,
}
use wzprof.Base.Words.{sub64}
use wzprof.Trace.{Function, observe}
use wzprof.Trace.Slices.Clones.{IsCloning}
use wzprof.Trace.Slices.{Slicing}
use wzprof.Trace.Store.{Store, SharedCounts, view, view_counts, shared_observe}
use wzprof.Trace.Store.Owned.{
  Same, stacks, FreshTraces, Fresh-Same, observe-FreshTraces, view-observe,
}
use wzprof.Cpu.{finish_frame, record_sample, credit}
use wzprof.Cpu.Shared.{
  SharedFrame, Machine, shared_credit, shared_finish, view_frame, view_profiler, view_handed,
}
use wzprof.Cpu.Shared.Credit.{AreOld-append, view-credit, parts, skipped-Alone, moved-Alone}
use wzprof.Cpu.Shared.Traces.{
  Alone, Alone-AreOld, Alone-FreshTraces, frame_traces, count_traces, handed_traces, owners,
  Same-append, Same-frames, Same-traces, Same-handed,
}

module _ (of_fns : Slicing Function) (of_pcs : Slicing ℕ) (hash : List ℕ → ℕ)
    (fns_cloning : IsCloning of_fns) (pcs_cloning : IsCloning of_pcs) (now : ℕ) (f : SharedFrame)
    (rest : List SharedFrame) where
  -- A machine with the call under way, and after it.
  abbrev under : Machine → Option SharedCounts → Machine
  under p o = record p { counts = o; frames = f ∷ rest }

  abbrev finished : Machine → Option SharedCounts → Machine
  finished p o = shared_finish of_fns of_pcs hash now f rest (under p o)

  abbrev time : ℕ
  time = sub64 (sub64 now f.start) f.sub

  abbrev booked : Machine → SharedCounts → Store × SharedCounts
  booked p m = shared_observe of_fns of_pcs hash p.store m f.trace time

  -- The machine with the value of the call in a counter.
  abbrev counted : Machine → SharedCounts → Machine
  counted p m = record p {
    store = (booked p m).0;
    counts = some (booked p m).1;
    frames = shared_credit (sub64 now f.start) rest;
    traces = f.trace ∷ p.traces;
  }

  module _ (p : Machine) (m : SharedCounts) (h : Alone p.store (owners (under p (some m)))) where
    fresh : FreshTraces p.store (booked p m).0 (stacks m) (stacks (booked p m).1)
    fresh = observe-FreshTraces of_fns of_pcs hash fns_cloning pcs_cloning p.store m f.trace time

    counted-Alone : Alone (booked p m).0 (owners (counted p m))
    unfolding count_traces
    counted-Alone =
        moved-Alone f rest (sub64 now f.start) p (booked p m).0 (stacks (booked p m).1) (
          Alone-FreshTraces p.store (booked p m).0 (stacks m) (stacks (booked p m).1)
            (parts f rest p) fresh h)

    -- Every trace of the machine is as it was.
    same : Same p.store (booked p m).0 (owners (under p (some m)))
    same =
        Fresh-Same p.store (booked p m).0 (stacks m) (stacks (booked p m).1)
          (owners (under p (some m))) fresh (Alone-AreOld p.store (owners (under p (some m))) h)

    counted-view : view_profiler (counted p m) ≡ record {
      counts = some (observe (view_counts p.store m) (view p.store f.trace) time);
      frames = credit (sub64 now f.start) (map (view_frame p.store) rest);
      traces = view p.store f.trace ∷ map (view p.store) p.traces;
      start = p.start;
      host = p.host;
    }
    unfolding view_profiler count_traces
    counted-view =
        let (counts, others) =
          Same-append p.store (booked p m).0 (stacks m) (parts f rest p) same in
        let (frames, more) = Same-append p.store (booked p m).0 (frame_traces rest) _ others.1 in
        let (traces, handed) =
          Same-append p.store (booked p m).0 p.traces (handed_traces p.handed) more in
        let old =
          AreOld-append p.store (stacks m) (parts f rest p)
            (Alone-AreOld p.store (owners (under p (some m))) h) in
        rw
          (
            view-observe of_fns of_pcs hash fns_cloning pcs_cloning p.store m f.trace time old,
            view-credit (booked p m).0 (sub64 now f.start) rest,
            Same-frames p.store (booked p m).0 rest frames,
            Same-traces p.store (booked p m).0 p.traces traces,
            others.0,
          )
          refl

    counted-handed : view_handed (counted p m) ≡ view_handed p
    unfolding view_handed count_traces
    counted-handed =
        let (counts, others) =
          Same-append p.store (booked p m).0 (stacks m) (parts f rest p) same in
        let (frames, more) = Same-append p.store (booked p m).0 (frame_traces rest) _ others.1 in
        let (traces, handed) =
          Same-append p.store (booked p m).0 p.traces (handed_traces p.handed) more in
        Same-handed p.store (booked p m).0 p.handed handed

  -- What `After` leaves of a machine whose call began under a profile.
  abbrev ended : Machine → Option SharedCounts → Machine
  ended p none = record p {
    counts = none;
    frames = shared_credit (sub64 now f.start) rest;
    traces = f.trace ∷ p.traces;
  }
  ended p (some m) = counted p m

  finish_ended :
      (p : Machine) (o : Option SharedCounts) → (f.start == 0) ≡ false → finished p o ≡ ended p o
  unfolding shared_finish
  finish_ended p none e = rw e refl
  finish_ended p (some m) e = rw e refl

  abbrev skipped : Machine → Option SharedCounts → Machine
  skipped p o = record p { counts = o; frames = rest }

  finish_skipped :
      (p : Machine) (o : Option SharedCounts) → (f.start == 0) ≡ true → finished p o ≡ skipped p o
  unfolding shared_finish
  finish_skipped p o e = rw e refl

  ended-Alone :
      (p : Machine) (o : Option SharedCounts)
      → Alone p.store (owners (under p o))
      → Alone (ended p o).store (owners (ended p o))
  unfolding count_traces
  ended-Alone p none h = moved-Alone f rest (sub64 now f.start) p p.store [] h
  ended-Alone p (some m) h = counted-Alone p m h

  pub finish-Alone :
      (p : Machine) (o : Option SharedCounts)
      → Alone p.store (owners (under p o))
      → Alone (finished p o).store (owners (finished p o))
  finish-Alone p o h = elim (Bool-cases (f.start == 0)) [
    | inl e ↦ rw (finish_skipped p o e) (skipped-Alone f rest p o h)
    | inr e ↦ rw (finish_ended p o e) (ended-Alone p o h)
  ]

  ended-view :
      (p : Machine) (o : Option SharedCounts)
      → Alone p.store (owners (under p o))
      → (f.start == 0) ≡ false
      → view_profiler (ended p o)
        ≡ finish_frame now
            (view_frame p.store f)
            (map (view_frame p.store) rest)
            (view_profiler (under p o))
  unfolding finish_frame record_sample view_profiler
  ended-view p none h e = rw (e, view-credit p.store (sub64 now f.start) rest) refl
  ended-view p (some m) h e = counted-view p m h ∙ (rw e refl)

  skipped-view :
      (p : Machine) (o : Option SharedCounts)
      → (f.start == 0) ≡ true
      → view_profiler (skipped p o)
        ≡ finish_frame now
            (view_frame p.store f)
            (map (view_frame p.store) rest)
            (view_profiler (under p o))
  unfolding finish_frame view_profiler
  skipped-view p o e = rw e refl

  pub finish-view :
      (p : Machine) (o : Option SharedCounts)
      → Alone p.store (owners (under p o))
      → view_profiler (finished p o)
        ≡ finish_frame now
            (view_frame p.store f)
            (map (view_frame p.store) rest)
            (view_profiler (under p o))
  finish-view p o h = elim (Bool-cases (f.start == 0)) [
    | inl e ↦ ap view_profiler (finish_skipped p o e) ∙ skipped-view p o e
    | inr e ↦ ap view_profiler (finish_ended p o e) ∙ ended-view p o h e
  ]

  ended-handed :
      (p : Machine) (o : Option SharedCounts)
      → Alone p.store (owners (under p o))
      → view_handed (ended p o) ≡ view_handed p
  unfolding view_handed
  ended-handed p none h = refl
  ended-handed p (some m) h = counted-handed p m h

  pub finish-handed :
      (p : Machine) (o : Option SharedCounts)
      → Alone p.store (owners (under p o))
      → view_handed (finished p o) ≡ view_handed p
  unfolding view_handed
  finish-handed p o h = elim (Bool-cases (f.start == 0)) [
    | inl e ↦ rw (finish_skipped p o e) refl
    | inr e ↦ rw (finish_ended p o e) (ended-handed p o h)
  ]
