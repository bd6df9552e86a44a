-- ===== src/Mem/Stacks.antt =====
-- The stacks in the books of the memory profiler and in its samples have a PC for each function.
use wzprof.Base.{
  ℕ, ◌≡◌, sym, subst, inl, inr, List, [], ◌∷◌, Bool, ◌==◌, Bool-cases, All, ok, >>=-eq-ok, arith,
}
use wzprof.Trace.{StackTrace, StackCounter, Counts, observe}
use wzprof.Trace.Paired.{IsPaired, PairedCounts, observe-Paired}
use wzprof.Mem.{
  MemoryAllocation, Inuse, MemoryProfiler, new_memory_profiler, observe_alloc, observe_free,
  Samples, add_alloc, add_inuse, alloc_samples, inuse_samples, entries, snapshot,
}
use wzprof.Mem.Hooks.{
  Hook, malloc, calloc, realloc, free, go_runtime_mallocgc, HookState, after, abort,
}
use wzprof.Mem.Inuse.{Told, returned, aborted, tell, tell_all}

-- Samples whose stacks have a PC for each function.
abbrev pub PairedSamples : Samples → Type 0
PairedSamples [] = Unit {0}
PairedSamples ((k, s) ∷ m) = IsPaired s.stack × PairedSamples m

-- The listeners that are told of the end of a call hold such a stack.
abbrev pub hook_of : Told → HookState
hook_of (returned hook results h) = h
hook_of (aborted hook h) = h

-- The samples.
add_alloc-Paired :
    (sc : StackCounter) (m : Samples)
    → IsPaired sc.stack
    → PairedSamples m
    → PairedSamples (add_alloc sc m)
unfolding add_alloc wzprof.Mem.with_alloc
add_alloc-Paired sc [] h a = (h, tt)
add_alloc-Paired sc ((k, s) ∷ m) h a = elim (Bool-cases (k == sc.stack.key)) [
  | inl e ↦ rw e a
  | inr e ↦ rw e (a.0, add_alloc-Paired sc m h a.1)
]

alloc_samples-Paired :
    (cs : Counts) (m : Samples)
    → PairedCounts cs
    → PairedSamples m
    → PairedSamples (alloc_samples cs m)
unfolding alloc_samples
alloc_samples-Paired [] m c a = a
alloc_samples-Paired ((k, sc) ∷ cs) m c a =
    alloc_samples-Paired cs (add_alloc sc m) c.1 (add_alloc-Paired sc m c.0 a)

samples_inj : {m n : Samples} → ok m ≡ ok n → m ≡ n
samples_inj e = cc

profiler_inj : {p q : MemoryProfiler} → ok p ≡ ok q → p ≡ q
profiler_inj e = cc

add_inuse-Paired :
    (x : MemoryAllocation) (m n : Samples)
    → PairedSamples m
    → add_inuse x m ≡ ok n
    → PairedSamples n
unfolding add_inuse wzprof.Mem.with_inuse
add_inuse-Paired x [] n a e = cc
add_inuse-Paired x ((k, s) ∷ m) n a e = elim (Bool-cases (k == x.counter)) [
  | inl f ↦ subst PairedSamples (samples_inj (rw f at e)) a
  | inr f ↦
      let (m', added, rest) = >>=-eq-ok (add_inuse x m) _ (rw f at e) in
      subst PairedSamples (samples_inj rest) (a.0, add_inuse-Paired x m m' a.1 added)
]

inuse_samples-Paired :
    (xs : Inuse) (m n : Samples) → PairedSamples m → inuse_samples xs m ≡ ok n → PairedSamples n
unfolding inuse_samples
inuse_samples-Paired [] m n a e = subst PairedSamples (samples_inj e) a
inuse_samples-Paired ((k, x) ∷ xs) m n a e =
    let (m', added, rest) = >>=-eq-ok (add_inuse x m) (inuse_samples xs) e in
    inuse_samples-Paired xs m' n (add_inuse-Paired x m m' a added) rest

-- The books.
alloc_of-observe_alloc :
    (a n : ℕ) (st : StackTrace) (p : MemoryProfiler)
    → (observe_alloc a n st p).alloc ≡ observe p.alloc st n
unfolding observe_alloc
alloc_of-observe_alloc a n st p = ground arith

free_keeps : (a : ℕ) (p : MemoryProfiler) → (observe_free a p).alloc ≡ p.alloc
unfolding observe_free
free_keeps a p = ground arith

alloc-Paired :
    (a n : ℕ) (st : StackTrace) (p : MemoryProfiler)
    → IsPaired st
    → PairedCounts p.alloc
    → PairedCounts (observe_alloc a n st p).alloc
alloc-Paired a n st p h c =
    subst PairedCounts (sym (alloc_of-observe_alloc a n st p)) (observe-Paired p.alloc st n h c)

abbrev Books : MemoryProfiler → Type 0
Books p = PairedCounts p.alloc

after-Paired :
    (hook : Hook) (results : List ℕ) (h : HookState) (p q : MemoryProfiler)
    → IsPaired h.stack
    → Books p
    → after hook results h p ≡ ok q
    → Books q
unfolding after
after-Paired malloc [] h p q s c e = cc
after-Paired malloc (a ∷ r) h p q s c e = subst Books (profiler_inj e) (alloc-Paired _ _ _ p s c)
after-Paired calloc [] h p q s c e = cc
after-Paired calloc (a ∷ r) h p q s c e = subst Books (profiler_inj e) (alloc-Paired _ _ _ p s c)
after-Paired realloc [] h p q s c e = cc
after-Paired realloc (a ∷ r) h p q s c e =
    subst Books (profiler_inj e)
      (alloc-Paired _ _ _ _ s (subst PairedCounts (sym (free_keeps h.addr p)) c))
after-Paired free results h p q s c e =
    subst Books (profiler_inj e) (subst PairedCounts (sym (free_keeps h.addr p)) c)
after-Paired go_runtime_mallocgc results h p q s c e =
    subst Books (profiler_inj e) (elim (Bool-cases (h.size == 0)) [
      | inl z ↦ rw z c
      | inr z ↦ rw z (alloc-Paired 0 h.size h.stack p s c)
    ])

abort-Paired :
    (hook : Hook) (h : HookState) (p q : MemoryProfiler)
    → IsPaired h.stack
    → Books p
    → abort hook h p ≡ ok q
    → Books q
unfolding abort after
abort-Paired malloc h p q s c e = subst Books (profiler_inj e) c
abort-Paired calloc h p q s c e = subst Books (profiler_inj e) c
abort-Paired realloc h p q s c e = subst Books (profiler_inj e) c
abort-Paired free h p q s c e = after-Paired free [] h p q s c e
abort-Paired go_runtime_mallocgc h p q s c e = after-Paired go_runtime_mallocgc [] h p q s c e

tell-Paired :
    (t : Told) (p q : MemoryProfiler)
    → IsPaired (hook_of t).stack
    → Books p
    → tell t p ≡ ok q
    → Books q
tell-Paired (returned hook results h) p q s c e = after-Paired hook results h p q s c e
tell-Paired (aborted hook h) p q s c e = abort-Paired hook h p q s c e

tell_all-Paired :
    (ts : List Told) (p q : MemoryProfiler)
    → All (λ (t : Told). IsPaired (hook_of t).stack) ts
    → Books p
    → tell_all ts p ≡ ok q
    → Books q
unfolding tell_all
tell_all-Paired [] p q s c e = subst Books (profiler_inj e) c
tell_all-Paired (t ∷ ts) p q s c e =
    let (p', told, rest) = >>=-eq-ok (tell t p) (tell_all ts) e in
    tell_all-Paired ts p' q s.1 (tell-Paired t p p' s.0 c told) rest

new-Books : (enable : Bool) (now : ℕ) → Books (new_memory_profiler enable now)
unfolding new_memory_profiler
new-Books enable now = tt

-- Every sample of a snapshot has such a stack.
pub snapshot-Paired :
    (enable : Bool) (now : ℕ) (ts : List Told) (p : MemoryProfiler) (m : Samples)
    → All (λ (t : Told). IsPaired (hook_of t).stack) ts
    → tell_all ts (new_memory_profiler enable now) ≡ ok p
    → snapshot p ≡ ok m
    → PairedSamples m
unfolding snapshot
snapshot-Paired enable now ts p m s e taken =
    let books = tell_all-Paired ts (new_memory_profiler enable now) p s (new-Books enable now) e in
    inuse_samples-Paired (entries p.inuse) (alloc_samples p.alloc []) m
      (alloc_samples-Paired p.alloc [] books tt) taken
