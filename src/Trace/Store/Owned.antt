-- ===== src/Trace/Store/Owned.antt =====
-- Which arrays the traces of a list have, and the arrays of the counters' traces.
use wzprof.Base.{
  ℕ, ◌+◌, ◌<◌, ◌≤◌, ◌≡◌, refl, sym, ap, subst, ◌∙◌, inl, inr, List, [], ◌∷◌, ◌==◌, Bool-cases,
  arith,
}
use wzprof.Trace.{Function, lookup, observe, observe_at}
use wzprof.Trace.Slices.Clones.{IsCloning}
use wzprof.Trace.Slices.{Slicing, Slice, Arrays, nil_slice, read, owns}
use wzprof.Trace.Slices.Moves.{owns_once, owns-nil_slice, IsOld, Moves}
use wzprof.Trace.Store.{
  Store, SharedTrace, SharedCounts, view, view_counts, value_at, shared_lookup, shared_observe,
}
use wzprof.Trace.Store.Keeps.{TraceMoves, IsOldTrace, clone-TraceMoves, view-clone_trace}

-- The slices of a trace.
abbrev pub fns_of : SharedTrace → Slice
fns_of t = t.fns

abbrev pub pcs_of : SharedTrace → Slice
pcs_of t = t.pcs

-- How many of the traces have an array, in one of their slices.
unfoldable pub owned : (SharedTrace → Slice) → ℕ → List SharedTrace → ℕ
owned part a [] = 0
owned part a (t ∷ ts) = owns a (part t) + owned part a ts

-- Traces apart from one, which have no array that is not allocated.
pub record BesideIn (part : SharedTrace → Slice) (next : ℕ) (t : SharedTrace)
    (ts : List SharedTrace) : Type 0 where
  pub once : (a : ℕ) → owns a (part t) + owned part a ts ≤ 1
  pub old : (a : ℕ) → next ≤ a → owned part a ts ≡ 0

pub record Beside (st : Store) (t : SharedTrace) (ts : List SharedTrace) : Type 0 where
  pub fns : BesideIn fns_of st.fns.next t ts
  pub pcs : BesideIn pcs_of st.pcs.next t ts

BesideIn-head :
    {A : Type 0} (part : SharedTrace → Slice) (h h' : Arrays A) (t t' x : SharedTrace)
    (ts : List SharedTrace)
    → Moves h (part t) h' (part t')
    → BesideIn part h.next t (x ∷ ts)
    → read h' (part x) ≡ read h (part x)
unfolding owned
BesideIn-head part h h' t t' x ts m b =
    m.keeps (part x) (λ a. omega (arith, b.once a)) (λ a l. omega (arith, b.old a l))

BesideIn-tail :
    (part : SharedTrace → Slice) (next : ℕ) (t x : SharedTrace) (ts : List SharedTrace)
    → BesideIn part next t (x ∷ ts)
    → BesideIn part next t ts
unfolding owned
BesideIn-tail part next t x ts b = record {
  once = λ a. omega (arith, b.once a);
  old = λ a l. omega (arith, b.old a l);
}

-- The traces hold in a store what they held in another.
abbrev pub Same : Store → Store → List SharedTrace → Type 0
Same st st' [] = Unit {0}
Same st st' (t ∷ ts) = (view st' t ≡ view st t) × Same st st' ts

pub Beside-Same :
    (st : Store) (t : SharedTrace) (st' : Store) (t' : SharedTrace) (ts : List SharedTrace)
    → TraceMoves st t st' t'
    → Beside st t ts
    → Same st st' ts
unfolding view
Beside-Same st t st' t' [] m b = tt
Beside-Same st t st' t' (x ∷ ts) m b = (
  rw
      (
        BesideIn-head fns_of st.fns st'.fns t t' x ts m.fns b.fns,
        BesideIn-head pcs_of st.pcs st'.pcs t t' x ts m.pcs b.pcs,
      )
      refl,
  Beside-Same st t st' t' ts m (record {
    fns = BesideIn-tail fns_of st.fns.next t x ts b.fns;
    pcs = BesideIn-tail pcs_of st.pcs.next t x ts b.pcs;
  }),
)

-- The traces of counters.
unfoldable pub stacks : SharedCounts → List SharedTrace
stacks [] = []
stacks ((k, sc) ∷ m) = sc.stack ∷ stacks m

pub Same-counts :
    (st st' : Store) (m : SharedCounts)
    → Same st st' (stacks m)
    → view_counts st' m ≡ view_counts st m
unfolding stacks view_counts
Same-counts st st' [] s = refl
Same-counts st st' ((k, sc) ∷ m) s = rw (s.0, Same-counts st st' m s.1) refl

-- An operation that leaves old slices alone, and gives to the owners new arrays at most.
pub record Fresh {A : Type 0} (h h' : Arrays A) (before after : ℕ → ℕ) : Type 0 where
  pub grows : h.next ≤ h'.next
  pub keeps : (t : Slice) → IsOld h t → read h' t ≡ read h t
  pub from : (a : ℕ) → a < h.next → after a ≤ before a
  pub once : (a : ℕ) → after a ≤ before a + 1
  pub below : (a : ℕ) → h'.next ≤ a → after a ≤ before a

Fresh-refl : {A : Type 0} (h : Arrays A) (n : ℕ → ℕ) → Fresh h h n n
Fresh-refl h n = record {
  grows = omega arith;
  keeps = λ t o. refl;
  from = λ a l. omega arith;
  once = λ a. omega arith;
  below = λ a l. omega arith;
}

Fresh-plus :
    {A : Type 0} (h h' : Arrays A) (n n' k : ℕ → ℕ)
    → Fresh h h' n n'
    → Fresh h h' (λ a. k a + n a) (λ a. k a + n' a)
Fresh-plus h h' n n' k f = record {
  grows = f.grows;
  keeps = f.keeps;
  from = λ a l. omega (arith, f.from a l);
  once = λ a. omega (arith, f.once a);
  below = λ a l. omega (arith, f.below a l);
}

Fresh-Moves :
    {A : Type 0} (h h' : Arrays A) (s : Slice)
    → Moves h nil_slice h' s
    → Fresh h h' (λ a. 0) (λ a. owns a s + 0)
Fresh-Moves h h' s m = record {
  grows = m.grows;
  keeps = λ t o. m.keeps t (λ a. omega (arith, owns-nil_slice a, owns_once a t)) o;
  from = λ a l. omega (arith, m.from a l, owns-nil_slice a);
  once = λ a. omega (arith, m.once a);
  below = λ a l. omega (arith, m.below a l);
}

-- A store in which old traces hold what they held, and the owners that it has gained.
pub record FreshTraces (st st' : Store) (ts ts' : List SharedTrace) : Type 0 where
  pub fns : Fresh st.fns st'.fns (λ a. owned fns_of a ts) (λ a. owned fns_of a ts')
  pub pcs : Fresh st.pcs st'.pcs (λ a. owned pcs_of a ts) (λ a. owned pcs_of a ts')

abbrev pub AreOld : Store → List SharedTrace → Type 0
AreOld st [] = Unit {0}
AreOld st (t ∷ ts) = IsOldTrace st t × AreOld st ts

pub Fresh-Same :
    (st st' : Store) (before after ts : List SharedTrace)
    → FreshTraces st st' before after
    → AreOld st ts
    → Same st st' ts
unfolding view
Fresh-Same st st' before after [] f o = tt
Fresh-Same st st' before after (t ∷ ts) f o = (
  rw (f.fns.keeps t.fns o.0.fns, f.pcs.keeps t.pcs o.0.pcs) refl,
  Fresh-Same st st' before after ts f o.1,
)

module _ (of_fns : Slicing Function) (of_pcs : Slicing ℕ) (hash : List ℕ → ℕ)
    (fns_cloning : IsCloning of_fns) (pcs_cloning : IsCloning of_pcs) where
  abbrev found : Store → SharedCounts → SharedTrace → Store × SharedCounts
  found = shared_lookup of_fns of_pcs hash

  lookup-FreshTraces :
      (st : Store) (m : SharedCounts) (t : SharedTrace)
      → FreshTraces st (found st m t).0 (stacks m) (stacks (found st m t).1)
  unfolding shared_lookup owned stacks
  lookup-FreshTraces st [] t =
      let c = clone-TraceMoves of_fns of_pcs hash fns_cloning pcs_cloning st t in
      record { fns = Fresh-Moves _ _ _ c.fns; pcs = Fresh-Moves _ _ _ c.pcs }
  lookup-FreshTraces st ((j, sc) ∷ m) t = elim (Bool-cases (j == t.key)) [
    | inl e ↦ rw e (record { fns = Fresh-refl _ _; pcs = Fresh-refl _ _ })
    | inr e ↦
        let r = lookup-FreshTraces st m t in
        rw e (record {
          fns = Fresh-plus _ _ _ _ (λ a. owns a sc.stack.fns) r.fns;
          pcs = Fresh-plus _ _ _ _ (λ a. owns a sc.stack.pcs) r.pcs;
        })
  ]

  view-lookup :
      (st : Store) (m : SharedCounts) (t : SharedTrace)
      → AreOld st (stacks m)
      → view_counts (found st m t).0 (found st m t).1 ≡ lookup (view_counts st m) (view st t)
  unfolding shared_lookup view_counts lookup stacks
  view-lookup st [] t o = rw (view-clone_trace of_fns of_pcs hash fns_cloning pcs_cloning st t) refl
  view-lookup st ((j, sc) ∷ m) t o = elim (Bool-cases (j == t.key)) [
    | inl e ↦ rw e refl
    | inr e ↦
        let f = lookup-FreshTraces st m t in
        let kept =
          Fresh-Same st (found st m t).0 (stacks m) (stacks (found st m t).1) (sc.stack ∷ []) f
            (o.0, tt) in
        rw (e, kept.0, view-lookup st m t o.1) refl
  ]

  stacks-value_at : (k value : ℕ) (m : SharedCounts) → stacks (value_at k value m) ≡ stacks m
  unfolding stacks value_at
  stacks-value_at k value [] = refl
  stacks-value_at k value ((j, sc) ∷ m) = elim (Bool-cases (j == k)) [
    | inl e ↦ rw e refl
    | inr e ↦ rw (e, stacks-value_at k value m) refl
  ]

  view-value_at :
      (st : Store) (k value : ℕ) (m : SharedCounts)
      → view_counts st (value_at k value m) ≡ observe_at k value (view_counts st m)
  unfolding view_counts value_at observe_at
  view-value_at st k value [] = refl
  view-value_at st k value ((j, sc) ∷ m) = elim (Bool-cases (j == k)) [
    | inl e ↦ rw e refl
    | inr e ↦ rw (e, view-value_at st k value m) refl
  ]

  abbrev booked : Store → SharedCounts → SharedTrace → ℕ → Store × SharedCounts
  booked = shared_observe of_fns of_pcs hash

  -- `observe` books the value as on separate traces, and gains arrays for a clone at most.
  pub observe-FreshTraces :
      (st : Store) (m : SharedCounts) (t : SharedTrace) (value : ℕ)
      → FreshTraces st (booked st m t value).0 (stacks m) (stacks (booked st m t value).1)
  unfolding shared_observe
  observe-FreshTraces st m t value =
      subst (FreshTraces st (found st m t).0 (stacks m))
        (sym (stacks-value_at t.key value (found st m t).1)) (lookup-FreshTraces st m t)

  pub view-observe :
      (st : Store) (m : SharedCounts) (t : SharedTrace) (value : ℕ)
      → AreOld st (stacks m)
      → view_counts (booked st m t value).0 (booked st m t value).1
        ≡ observe (view_counts st m) (view st t) value
  unfolding shared_observe observe view
  view-observe st m t value o =
      view-value_at (found st m t).0 t.key value (found st m t).1
      ∙ ap (observe_at t.key value) (view-lookup st m t o)
