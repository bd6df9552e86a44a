-- ===== src/Cpu/Shared/Refines.antt =====
-- cpu.go: a run of the profiler on stored traces, beside one on separate traces.
use wzprof.Base.{
  ℕ, suc, ◌≡◌, refl, sym, ap, ap₂, ◌∙◌, inl, inr, List, [], ◌∷◌, Option, none, some, length, ◌==◌,
  Bool-cases, Outcome, ok, ◌>>=◌, arith,
}
use wzprof.Base.Words.{sub64}
use wzprof.Trace.{Function, StackFrame, Counts}
use wzprof.Trace.Slices.Clones.{IsCloning}
use wzprof.Trace.Slices.{Slicing}
use wzprof.Trace.Store.{SharedCounts}
use wzprof.Cpu.{CpuProfiler, after, after_frames}
use wzprof.Cpu.Sessions.{Run, done, call, starts, stops, run}
use wzprof.Cpu.Shared.{
  SharedFrame, Machine, shared_start, shared_stop, shared_credit, shared_before, shared_finish,
  shared_after_frames, shared_run, view_profiler, view_handed, run_handing,
}
use wzprof.Cpu.Shared.Traces.{Alone, owners}
use wzprof.Cpu.Shared.Profiles.{
  start-Alone, start-view, start-handed, start_frames, stop_frames, stop-Alone, stop-view,
  stop-handed,
}
use wzprof.Cpu.Shared.Before.{before-Alone, before-view, before-handed}
use wzprof.Cpu.Shared.After.{finish-Alone, finish-view, finish-handed}

-- No two traces of a machine have an array in common, neither those in use nor those that have been handed over.
unfoldable pub IsApart : Machine → Type 0
IsApart p = Alone p.store (owners p)

module _ (of_fns : Slicing Function) (of_pcs : Slicing ℕ) (hash : List ℕ → ℕ)
    (fns_cloning : IsCloning of_fns) (pcs_cloning : IsCloning of_pcs) where
  length-before :
      (now : ℕ) (stack : List StackFrame) (p : Machine) (o : Option SharedCounts)
      → length (shared_before of_fns of_pcs hash now stack (record p { counts = o })).frames
        ≡ suc (length p.frames)
  unfolding shared_before
  length-before now stack p none = refl
  length-before now stack p (some m) = refl

  length-credit : (d : ℕ) (fs : List SharedFrame) → length (shared_credit d fs) ≡ length fs
  unfolding shared_credit
  length-credit d [] = refl
  length-credit d (f ∷ fs) = refl

  length-finish :
      (now : ℕ) (f : SharedFrame) (rest : List SharedFrame) (p : Machine)
      → length (shared_finish of_fns of_pcs hash now f rest p).frames ≡ length rest
  unfolding shared_finish
  length-finish now f rest p = elim (Bool-cases (f.start == 0)) [
    | inl e ↦ rw e refl
    | inr e ↦ rw e (length-credit (sub64 now f.start) rest)
  ]

  -- `After` on a machine with a frame.
  after_step :
      (now : ℕ) (p : Machine) (fs : List SharedFrame) (n : ℕ)
      → Alone p.store (owners (record p { frames = fs }))
      → length fs ≡ suc n
      → (q : Machine) × (shared_after_frames of_fns of_pcs hash now fs (record p { frames = fs })
          ≡ ok q)
        × (after now (view_profiler (record p { frames = fs })) ≡ ok (view_profiler q))
        × (view_handed q ≡ view_handed p)
        × IsApart q
        × (length q.frames ≡ n)
  unfolding shared_after_frames after after_frames IsApart view_profiler
  after_step now p [] n h l = absurd (omega arith)
  after_step now p (f ∷ rest) n h l = (
    shared_finish of_fns of_pcs hash now f rest (record p { frames = f ∷ rest }),
    refl,
    ap ok (sym (finish-view of_fns of_pcs hash fns_cloning pcs_cloning now f rest p p.counts h)),
    finish-handed of_fns of_pcs hash fns_cloning pcs_cloning now f rest p p.counts h,
    finish-Alone of_fns of_pcs hash fns_cloning pcs_cloning now f rest p p.counts h,
    length-finish now f rest (record p { frames = f ∷ rest }) ∙ omega arith,
  )

  abbrev shared : Run → Machine → Outcome Machine
  shared = shared_run of_fns of_pcs hash

  -- From a machine in which no two traces have an array in common, a run of the guest ends, whatever the
  -- runtime adds to the capacities of the slices: it leaves the profiler, and the samples handed over, that
  -- the run on separate values leaves, and again no two traces have an array in common. A clone
  -- holds the elements of its slice in an array that is new, and changes no old slice.
  pub shared_run-run_handing :
      (r : Run) (p : Machine)
      → IsApart p
      → (q : Machine) × (shared_run of_fns of_pcs hash r p ≡ ok q)
        × (run_handing hash r (view_profiler p) (view_handed p)
            ≡ ok (view_profiler q, view_handed q))
        × (run hash r (view_profiler p) ≡ ok (view_profiler q))
        × IsApart q
        × (length q.frames ≡ length p.frames)
  unfolding shared_run run_handing run IsApart
  shared_run-run_handing done p h = (p, refl, refl, refl, h, refl)
  shared_run-run_handing (call start stack finish inside later) p h =
      let b = shared_before of_fns of_pcs hash start stack p in
      let b_alone = before-Alone of_fns of_pcs hash start stack p p.counts p.traces h in
      let b_view = before-view of_fns of_pcs hash start stack p p.counts p.traces h in
      let b_handed = before-handed of_fns of_pcs hash start stack p p.counts p.traces h in
      let (p₂, ran, handed, plain, apart, framed) = shared_run-run_handing inside b b_alone in
      let (p₃, ended, ended_view, ended_handed, apart₃, taken) =
        after_step finish p₂ p₂.frames (length p.frames) apart
          (framed ∙ length-before start stack p p.counts) in
      let (q, ran₃, handed₃, plain₃, apart₄, framed₃) = shared_run-run_handing later p₃ apart₃ in
      let inside_handed = ap₂ (run_handing hash inside) (sym b_view) (sym b_handed) ∙ handed in
      let later_handed =
        ap (run_handing hash later (view_profiler p₃)) (sym ended_handed) ∙ handed₃ in
      (
        q,
        ap
              (λ (o : Outcome Machine). o >>= λ x.
                shared_after_frames of_fns of_pcs hash finish x.frames x >>= shared later)
              ran
            ∙ ap (λ (o : Outcome Machine). o >>= shared later) ended
            ∙ ran₃,
        ap
              (λ (o : Outcome (CpuProfiler × List Counts)).
                o >>= λ x. after finish x.0 >>= λ y. run_handing hash later y x.1)
              inside_handed
            ∙ ap (λ (o : Outcome CpuProfiler). o >>= λ y. run_handing hash later y (view_handed p₂))
                ended_view
            ∙ later_handed,
        ap (λ (o : Outcome CpuProfiler). o >>= λ x. after finish x >>= run hash later)
              (ap (run hash inside) (sym b_view) ∙ plain)
            ∙ ap (λ (o : Outcome CpuProfiler). o >>= run hash later) ended_view
            ∙ plain₃,
        apart₄,
        framed₃ ∙ taken,
      )
  shared_run-run_handing (starts now rest) p h =
      let (q, ran, handed, plain, apart, framed) =
        shared_run-run_handing rest (shared_start now p) (start-Alone now p p.counts h) in
      let begun =
        ap₂ (run_handing hash rest) (sym (start-view now p p.counts))
          (sym (start-handed now p p.counts)) in
      (
        q,
        ran,
        begun ∙ handed,
        ap (run hash rest) (sym (start-view now p p.counts)) ∙ plain,
        apart,
        framed ∙ ap length (start_frames now p),
      )
  shared_run-run_handing (stops rest) p h =
      let (q, ran, handed, plain, apart, framed) =
        shared_run-run_handing rest (shared_stop p) (stop-Alone p p.counts h) in
      let stopped =
        ap₂ (run_handing hash rest) (sym (stop-view p p.counts)) (sym (stop-handed p p.counts)) in
      (
        q,
        ran,
        stopped ∙ handed,
        ap (run hash rest) (sym (stop-view p p.counts)) ∙ plain,
        apart,
        framed ∙ ap length (stop_frames p),
      )
