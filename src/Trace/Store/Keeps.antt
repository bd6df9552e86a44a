-- ===== src/Trace/Store/Keeps.antt =====
-- What the operations on stored traces do to the other traces.
use wzprof.Base.{
  ℕ, ◌≡◌, refl, sym, ap, ◌∙◌, List, [], ◌∷◌, ◌++◌, map, append-nil, append_assoc, arith,
}
use wzprof.Trace.{Function, StackFrame, StackTrace, make_stack_trace}
use wzprof.Trace.Slices.Clones.{IsCloning}
use wzprof.Trace.Slices.{Slicing, Slice, Arrays, read, emptied}
use wzprof.Trace.Slices.Moves.{
  owns_once, owns-emptied, IsOld, Moves, append-Moves, read-append, read-emptied, Moves-trans,
}
use wzprof.Trace.Store.{
  Store, SharedTrace, no_shared_trace, view, extend, collect, make, clone_trace,
}

-- The operation on a trace is one on both of its slices.
pub record TraceMoves (st : Store) (t : SharedTrace) (st' : Store) (t' : SharedTrace) : Type 0 where
  pub fns : Moves st.fns t.fns st'.fns t'.fns
  pub pcs : Moves st.pcs t.pcs st'.pcs t'.pcs

pub record IsOldTrace (st : Store) (t : SharedTrace) : Type 0 where
  pub fns : IsOld st.fns t.fns
  pub pcs : IsOld st.pcs t.pcs

module _ {A : Type 0} where
  Moves-refl : (h : Arrays A) (s : Slice) → IsOld h s → Moves h s h s
  Moves-refl h s o = record {
    grows = omega arith;
    keeps = λ t a p. refl;
    from = λ a l. omega arith;
    below = o;
    once = λ a. owns_once a s;
  }

  Moves-emptied : (h h' : Arrays A) (s s' : Slice) → Moves h (emptied s) h' s' → Moves h s h' s'
  Moves-emptied h h' s s' m = record {
    grows = m.grows;
    keeps = λ t apart o. m.keeps t (λ a. omega (arith, apart a, owns-emptied a s)) o;
    from = λ a l. omega (arith, m.from a l, owns-emptied a s);
    below = m.below;
    once = m.once;
  }

  IsOld-emptied : (h : Arrays A) (s : Slice) → IsOld h s → IsOld h (emptied s)
  IsOld-emptied h s o a l = omega (arith, o a l, owns-emptied a s)

module _ (of_fns : Slicing Function) (of_pcs : Slicing ℕ) (hash : List ℕ → ℕ) where
  abbrev gather : Store → SharedTrace → List StackFrame → Store × SharedTrace
  gather = collect of_fns of_pcs hash

  abbrev extended : Store → SharedTrace → StackFrame → Store × SharedTrace
  extended = extend of_fns of_pcs hash

  collect-TraceMoves :
      (st : Store) (t : SharedTrace) (frames : List StackFrame)
      → IsOldTrace st t
      → TraceMoves st t (gather st t frames).0 (gather st t frames).1
  unfolding collect
  collect-TraceMoves st t [] o = record {
    fns = Moves-refl st.fns t.fns o.fns;
    pcs = Moves-refl st.pcs t.pcs o.pcs;
  }
  collect-TraceMoves st t (f ∷ frames) o =
      let m = append-Moves of_fns.spare st.fns t.fns f.fn o.fns in
      let n = append-Moves of_pcs.spare st.pcs t.pcs f.pc o.pcs in
      let rest =
        collect-TraceMoves (extended st t f).0 (extended st t f).1 frames
          (record { fns = m.below; pcs = n.below }) in
      record { fns = Moves-trans _ _ _ _ _ _ m rest.fns; pcs = Moves-trans _ _ _ _ _ _ n rest.pcs }

  collect-fns :
      (st : Store) (t : SharedTrace) (frames : List StackFrame)
      → read (gather st t frames).0.fns (gather st t frames).1.fns
        ≡ read st.fns t.fns ++ map (λ (f : StackFrame). f.fn) frames
  unfolding collect
  collect-fns st t [] = sym (append-nil _)
  collect-fns st t (f ∷ frames) =
      collect-fns (extended st t f).0 (extended st t f).1 frames
      ∙ ap (λ (xs : List Function). xs ++ map (λ (f : StackFrame). f.fn) frames)
          (read-append of_fns.spare st.fns t.fns f.fn)
      ∙ append_assoc (read st.fns t.fns) (f.fn ∷ []) (map (λ (f : StackFrame). f.fn) frames)

  collect-pcs :
      (st : Store) (t : SharedTrace) (frames : List StackFrame)
      → read (gather st t frames).0.pcs (gather st t frames).1.pcs
        ≡ read st.pcs t.pcs ++ map (λ (f : StackFrame). f.pc) frames
  unfolding collect
  collect-pcs st t [] = sym (append-nil _)
  collect-pcs st t (f ∷ frames) =
      collect-pcs (extended st t f).0 (extended st t f).1 frames
      ∙ ap (λ (xs : List ℕ). xs ++ map (λ (f : StackFrame). f.pc) frames)
          (read-append of_pcs.spare st.pcs t.pcs f.pc)
      ∙ append_assoc (read st.pcs t.pcs) (f.pc ∷ []) (map (λ (f : StackFrame). f.pc) frames)

  -- `makeStackTrace` leaves the trace of the frames, whatever was in the slices.
  pub make-TraceMoves :
      (st : Store) (t : SharedTrace) (frames : List StackFrame)
      → IsOldTrace st t
      → TraceMoves st t
          (make of_fns of_pcs hash st t frames).0
          (make of_fns of_pcs hash st t frames).1
  unfolding make
  make-TraceMoves st t frames o =
      let m =
        collect-TraceMoves st (record t { fns = emptied t.fns; pcs = emptied t.pcs }) frames
          (record {
            fns = IsOld-emptied st.fns t.fns o.fns;
            pcs = IsOld-emptied st.pcs t.pcs o.pcs;
          }) in
      record { fns = Moves-emptied _ _ _ _ m.fns; pcs = Moves-emptied _ _ _ _ m.pcs }

  pub view-make :
      (st : Store) (t : SharedTrace) (old : StackTrace) (frames : List StackFrame)
      → view (make of_fns of_pcs hash st t frames).0 (make of_fns of_pcs hash st t frames).1
        ≡ make_stack_trace hash old frames
  unfolding make view make_stack_trace
  view-make st t old frames =
      let empty = record t { fns = emptied t.fns; pcs = emptied t.pcs } in
      let f =
        collect-fns st empty frames
        ∙ ap (λ (xs : List Function). xs ++ map (λ (f : StackFrame). f.fn) frames)
            (read-emptied st.fns t.fns) in
      let p =
        collect-pcs st empty frames
        ∙ ap (λ (xs : List ℕ). xs ++ map (λ (f : StackFrame). f.pc) frames)
            (read-emptied st.pcs t.pcs) in
      rw (f, p) refl

  module _ (fns_cloning : IsCloning of_fns) (pcs_cloning : IsCloning of_pcs) where
    pub clone-TraceMoves :
        (st : Store) (t : SharedTrace)
        → TraceMoves st no_shared_trace
            (clone_trace of_fns of_pcs hash st t).0
            (clone_trace of_fns of_pcs hash st t).1
    unfolding clone_trace
    clone-TraceMoves st t = record {
      fns = fns_cloning.moves st.fns t.fns;
      pcs = pcs_cloning.moves st.pcs t.pcs;
    }

    pub view-clone_trace :
        (st : Store) (t : SharedTrace)
        → view (clone_trace of_fns of_pcs hash st t).0 (clone_trace of_fns of_pcs hash st t).1
          ≡ view st t
    unfolding clone_trace view
    view-clone_trace st t = rw (fns_cloning.reads st.fns t.fns, pcs_cloning.reads st.pcs t.pcs) refl
