-- ===== src/Cpu/Shared/Traces.antt =====
-- The traces that a machine has, and whether two of them have an array in common.
use wzprof.Base.{
  ℕ, ◌+◌, ◌≤◌, ◌≡◌, refl, inl, inr, List, [], ◌∷◌, ◌++◌, map, Option, none, some, ltb, ltb→lt,
  ltb→ge, Bool-cases, arith,
}
use wzprof.Trace.Slices.{Slice, Arrays, owns}
use wzprof.Trace.Slices.Moves.{Moves, owns-nil_slice}
use wzprof.Trace.Store.{Store, SharedTrace, no_shared_trace, SharedCounts, view, view_counts}
use wzprof.Trace.Store.Keeps.{TraceMoves}
use wzprof.Trace.Store.Owned.{
  fns_of, pcs_of, owned, BesideIn, Beside, Same, Fresh, stacks, Same-counts, FreshTraces, AreOld,
}
use wzprof.Cpu.Shared.{SharedFrame, Machine, view_frame}

pub owned-append :
    (part : SharedTrace → Slice) (a : ℕ) (xs ys : List SharedTrace)
    → owned part a (xs ++ ys) ≡ owned part a xs + owned part a ys
unfolding owned
owned-append part a [] ys = omega arith
owned-append part a (x ∷ xs) ys = omega (arith, owned-append part a xs ys)

-- Four lists one after another.
pub owned_parts :
    (part : SharedTrace → Slice) (a : ℕ) (ws xs ys zs : List SharedTrace)
    → owned part a (ws ++ (xs ++ (ys ++ zs)))
      ≡ owned part a ws + owned part a xs + owned part a ys + owned part a zs
owned_parts part a ws xs ys zs = omega (
  arith,
  owned-append part a ws (xs ++ (ys ++ zs)),
  owned-append part a xs (ys ++ zs),
  owned-append part a ys zs,
)

-- No two of the traces have an array in common, and none has one that is not allocated.
pub record AloneIn (part : SharedTrace → Slice) (next : ℕ) (ts : List SharedTrace) : Type 0 where
  pub once : (a : ℕ) → owned part a ts ≤ 1
  pub old : (a : ℕ) → next ≤ a → owned part a ts ≡ 0

pub record Alone (st : Store) (ts : List SharedTrace) : Type 0 where
  pub fns : AloneIn fns_of st.fns.next ts
  pub pcs : AloneIn pcs_of st.pcs.next ts

-- A trace of nil slices has no array.
abbrev pub IsPart : (SharedTrace → Slice) → Type 0
IsPart part = (a : ℕ) → owns a (part no_shared_trace) ≡ 0

-- Traces with no more arrays.
pub Alone-le :
    (st : Store) (ts ts' : List SharedTrace)
    → ((part : SharedTrace → Slice) → IsPart part → (a : ℕ) → owned part a ts' ≤ owned part a ts)
    → Alone st ts
    → Alone st ts'
Alone-le st ts ts' le h = record {
  fns = record {
    once = λ a. omega (arith, h.fns.once a, le fns_of owns-nil_slice a);
    old = λ a l. omega (arith, h.fns.old a l, le fns_of owns-nil_slice a);
  };
  pcs = record {
    once = λ a. omega (arith, h.pcs.once a, le pcs_of owns-nil_slice a);
    old = λ a l. omega (arith, h.pcs.old a l, le pcs_of owns-nil_slice a);
  };
}

AloneIn-head :
    (part : SharedTrace → Slice) (next : ℕ) (t : SharedTrace) (ts : List SharedTrace)
    → AloneIn part next (t ∷ ts)
    → (a : ℕ) → next ≤ a
    → owns a (part t) ≡ 0
unfolding owned
AloneIn-head part next t ts h a l = omega (arith, h.old a l)

pub Alone-AreOld : (st : Store) (ts : List SharedTrace) → Alone st ts → AreOld st ts
unfolding owned
Alone-AreOld st [] h = tt
Alone-AreOld st (t ∷ ts) h = (
  record {
    fns = AloneIn-head fns_of st.fns.next t ts h.fns;
    pcs = AloneIn-head pcs_of st.pcs.next t ts h.pcs;
  },
  Alone-AreOld st ts (Alone-le st (t ∷ ts) ts (λ part nil a. omega arith) h),
)

AloneIn-BesideIn :
    (part : SharedTrace → Slice) (next : ℕ) (t : SharedTrace) (ts : List SharedTrace)
    → AloneIn part next (t ∷ ts)
    → BesideIn part next t ts
unfolding owned
AloneIn-BesideIn part next t ts h = record {
  once = λ a. h.once a;
  old = λ a l. omega (arith, h.old a l);
}

pub Alone-Beside :
    (st : Store) (t : SharedTrace) (ts : List SharedTrace) → Alone st (t ∷ ts) → Beside st t ts
Alone-Beside st t ts h = record {
  fns = AloneIn-BesideIn fns_of st.fns.next t ts h.fns;
  pcs = AloneIn-BesideIn pcs_of st.pcs.next t ts h.pcs;
}

module _ {A : Type 0} (part : SharedTrace → Slice) (h h' : Arrays A) where
  AloneIn-Moves :
      (t t' : SharedTrace) (ts : List SharedTrace)
      → Moves h (part t) h' (part t')
      → BesideIn part h.next t ts
      → AloneIn part h'.next (t' ∷ ts)
  unfolding owned
  AloneIn-Moves t t' ts m b = record {
    once = λ a. elim (Bool-cases (ltb a h.next)) [
      | inl l ↦ omega (arith, b.once a, m.from a (ltb→lt a h.next l))
      | inr g ↦ omega (arith, b.old a (ltb→ge a h.next g), m.once a)
    ];
    old = λ a l. omega (arith, b.old a (omega (arith, m.grows)), m.below a l);
  }

  AloneIn-Fresh :
      (before after others : List SharedTrace)
      → Fresh h h' (λ a. owned part a before) (λ a. owned part a after)
      → AloneIn part h.next (before ++ others)
      → AloneIn part h'.next (after ++ others)
  AloneIn-Fresh before after others f s =
      let sum_before = λ (a : ℕ). owned-append part a before others in
      let sum_after = λ (a : ℕ). owned-append part a after others in
      record {
        once = λ a. elim (Bool-cases (ltb a h.next)) [
          | inl l ↦ omega (arith, sum_before a, sum_after a, s.once a, f.from a (ltb→lt a h.next l))
          | inr g ↦ omega (arith, sum_before a, sum_after a, s.old a (ltb→ge a h.next g), f.once a)
        ];
        old = λ a l.
            omega (arith, sum_before a, sum_after a, s.old a (omega (arith, f.grows)), f.below a l);
      }

-- After a move of one trace, and after new arrays for some.
pub Alone-TraceMoves :
    (st : Store) (t : SharedTrace) (st' : Store) (t' : SharedTrace) (ts : List SharedTrace)
    → TraceMoves st t st' t'
    → Beside st t ts
    → Alone st' (t' ∷ ts)
Alone-TraceMoves st t st' t' ts m b = record {
  fns = AloneIn-Moves fns_of st.fns st'.fns t t' ts m.fns b.fns;
  pcs = AloneIn-Moves pcs_of st.pcs st'.pcs t t' ts m.pcs b.pcs;
}

pub Alone-FreshTraces :
    (st st' : Store) (before after others : List SharedTrace)
    → FreshTraces st st' before after
    → Alone st (before ++ others)
    → Alone st' (after ++ others)
Alone-FreshTraces st st' before after others f h = record {
  fns = AloneIn-Fresh fns_of st.fns st'.fns before after others f.fns h.fns;
  pcs = AloneIn-Fresh pcs_of st.pcs st'.pcs before after others f.pcs h.pcs;
}

-- The traces of the frames, of the counters, and of what has been handed over.
abbrev pub frame_traces : List SharedFrame → List SharedTrace
frame_traces [] = []
frame_traces (f ∷ fs) = f.trace ∷ frame_traces fs

unfoldable pub count_traces : Option SharedCounts → List SharedTrace
unfolding stacks
count_traces none = []
count_traces (some m) = stacks m

unfoldable pub handed_traces : List SharedCounts → List SharedTrace
unfolding stacks
handed_traces [] = []
handed_traces (m ∷ ms) = stacks m ++ handed_traces ms

abbrev pub owners : Machine → List SharedTrace
owners p = count_traces p.counts ++ (frame_traces p.frames ++ (p.traces ++ handed_traces p.handed))

-- Traces of one machine that are the same in two stores leave its view alone.
pub Same-append :
    (st st' : Store) (xs ys : List SharedTrace)
    → Same st st' (xs ++ ys)
    → Same st st' xs × Same st st' ys
Same-append st st' [] ys s = (tt, s)
Same-append st st' (x ∷ xs) ys s = let (a, b) = Same-append st st' xs ys s.1 in ((s.0, a), b)

pub Same-frames :
    (st st' : Store) (fs : List SharedFrame)
    → Same st st' (frame_traces fs)
    → map (view_frame st') fs ≡ map (view_frame st) fs
Same-frames st st' [] s = refl
Same-frames st st' (f ∷ fs) s = rw (s.0, Same-frames st st' fs s.1) refl

pub Same-traces :
    (st st' : Store) (ts : List SharedTrace) → Same st st' ts → map (view st') ts ≡ map (view st) ts
Same-traces st st' [] s = refl
Same-traces st st' (t ∷ ts) s = rw (s.0, Same-traces st st' ts s.1) refl

pub Same-handed :
    (st st' : Store) (ms : List SharedCounts)
    → Same st st' (handed_traces ms)
    → map (view_counts st') ms ≡ map (view_counts st) ms
unfolding handed_traces
Same-handed st st' [] s = refl
Same-handed st st' (m ∷ ms) s =
    let (a, b) = Same-append st st' (stacks m) (handed_traces ms) s in
    rw (Same-counts st st' m a, Same-handed st st' ms b) refl
