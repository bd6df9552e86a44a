-- ===== src/Mem/Inuse.antt =====
-- Runs of the listeners of mem.go: what the profiler holds after any calls, and which objects it
-- takes to be in use after calls that allocate and free.
use wzprof.Base.{
  ℕ, ◌*◌, ◌%◌, ◌^◌, ◌<◌, ◌≡◌, refl, sym, subst, All, ap, ◌∙◌, inl, inr, List, [], ◌∷◌, Bool, Option,
  none, some, ◌==◌, ne→==, ==_refl, if◌then◌else◌, Bool-cases, Outcome, ok, ◌>>=◌, >>=-eq-ok, arith,
}
use mathlib.Core.Option
use mathlib.Core.Path.{fun_ext}
use wzprof.Base.Words.{mul32}
use wzprof.Trace.{StackTrace, StackFrame}
use wzprof.Mem.{
  MemoryAllocation, Inuse, find_addr, put_addr, delete_addr, MemoryProfiler, new_memory_profiler,
  observe_alloc, observe_free, Samples, snapshot,
}
use wzprof.Mem.Hooks.{
  Hook, malloc, calloc, realloc, free, go_runtime_mallocgc, HookState, Guest, before, after, abort,
}
use wzprof.Mem.Snapshot.{Inv, new-Inv, observe_alloc-Inv, observe_free-Inv}
use wzprof.Mem.Totals.{Totals, snapshot-Totals}

-- An end of a call that a listener is told of, in whatever state the listener is.
pub data Told : Type 0 where
  returned : Hook → List ℕ → HookState → Told
  aborted : Hook → HookState → Told

abbrev pub tell : Told → MemoryProfiler → Outcome MemoryProfiler
tell (returned hook results h) p = after hook results h p
tell (aborted hook h) p = abort hook h p

unfoldable pub tell_all : List Told → MemoryProfiler → Outcome MemoryProfiler
tell_all [] p = ok p
tell_all (t ∷ ts) p = tell t p >>= tell_all ts

ok_inj : {p q : MemoryProfiler} → ok p ≡ ok q → p ≡ q
ok_inj e = cc

after-Inv :
    (hook : Hook) (results : List ℕ) (h : HookState) (p q : MemoryProfiler)
    → Inv p
    → after hook results h p ≡ ok q
    → Inv q
unfolding after
after-Inv malloc [] h p q v e = cc
after-Inv malloc (a ∷ r) h p q v e = subst Inv (ok_inj e) (observe_alloc-Inv _ _ _ p v)
after-Inv calloc [] h p q v e = cc
after-Inv calloc (a ∷ r) h p q v e = subst Inv (ok_inj e) (observe_alloc-Inv _ _ _ p v)
after-Inv realloc [] h p q v e = cc
after-Inv realloc (a ∷ r) h p q v e =
    subst Inv (ok_inj e) (observe_alloc-Inv _ _ _ _ (observe_free-Inv h.addr p v))
after-Inv free results h p q v e = subst Inv (ok_inj e) (observe_free-Inv h.addr p v)
after-Inv go_runtime_mallocgc results h p q v e =
    subst Inv (ok_inj e) (elim (Bool-cases (h.size == 0)) [
      | inl z ↦ rw z v
      | inr z ↦ rw z (observe_alloc-Inv 0 h.size h.stack p v)
    ])

abort-Inv :
    (hook : Hook) (h : HookState) (p q : MemoryProfiler) → Inv p → abort hook h p ≡ ok q → Inv q
unfolding abort after
abort-Inv malloc h p q v e = subst Inv (ok_inj e) v
abort-Inv calloc h p q v e = subst Inv (ok_inj e) v
abort-Inv realloc h p q v e = subst Inv (ok_inj e) v
abort-Inv free h p q v e = after-Inv free [] h p q v e
abort-Inv go_runtime_mallocgc h p q v e = after-Inv go_runtime_mallocgc [] h p q v e

tell-Inv : (t : Told) (p q : MemoryProfiler) → Inv p → tell t p ≡ ok q → Inv q
tell-Inv (returned hook results h) p q v e = after-Inv hook results h p q v e
tell-Inv (aborted hook h) p q v e = abort-Inv hook h p q v e

tell_all-Inv : (ts : List Told) (p q : MemoryProfiler) → Inv p → tell_all ts p ≡ ok q → Inv q
unfolding tell_all
tell_all-Inv [] p q v e = subst Inv (ok_inj e) v
tell_all-Inv (t ∷ ts) p q v e =
    let (p', told, rest) = >>=-eq-ok (tell t p) (tell_all ts) e in
    tell_all-Inv ts p' q (tell-Inv t p p' v told) rest

-- After any ends of calls that the listeners are told of, returns or aborts, in any order and any
-- state of the listeners, `snapshot` finds a sample for every object in use and returns; and its four
-- columns add up to the allocations and bytes that the counters hold and to the objects and bytes in
-- use, as `int64`s. The premise is that no listener met a missing result.
pub told-snapshot :
    (enable : Bool) (now : ℕ) (ts : List Told) (p : MemoryProfiler)
    → tell_all ts (new_memory_profiler enable now) ≡ ok p
    → (m : Samples) × (snapshot p ≡ ok m) × Totals p m
told-snapshot enable now ts p e = snapshot-Totals p (tell_all-Inv ts _ p (new-Inv enable now) e)

-- The address that a sequence of operations leaves in use is the one the last of them put there.
pub find_addr-put_addr :
    (a b : ℕ) (x : MemoryAllocation) (m : Inuse)
    → find_addr b (put_addr a x m) ≡ (if a == b then some x else find_addr b m)
unfolding find_addr put_addr
find_addr-put_addr a b x [] = refl
find_addr-put_addr a b x ((c, y) ∷ m) = ground (arith, find_addr-put_addr a b x m)

pub find_addr-delete_addr :
    (a b : ℕ) (m : Inuse) → find_addr b (delete_addr a m) ≡ (if a == b then none else find_addr b m)
unfolding find_addr delete_addr
find_addr-delete_addr a b [] = ground arith
find_addr-delete_addr a b ((c, y) ∷ m) = ground (arith, find_addr-delete_addr a b m)

-- A call of an allocation function with its arguments and its result.
pub data Use : Type 0 where
  mallocs : ℕ → ℕ → Use
  callocs : ℕ → ℕ → ℕ → Use
  reallocs : ℕ → ℕ → ℕ → Use
  frees : ℕ → Use

-- The sizes of the objects in use, by address.
abbrev pub Live : Type 0
Live = ℕ → Option ℕ

abbrev pub view : Inuse → Live
view m b = Option.map (λ (x : MemoryAllocation). x.size) (find_addr b m)

abbrev pub gone : ℕ → Live → Live
gone a f b = if a == b then none else f b

abbrev pub held : ℕ → ℕ → Live → Live
held a n f b = if a == b then some n else f b

-- What a C allocator's calls mean for the objects in use; arguments and results are `uint32`s. A call
-- that returns the null pointer allocates nothing, and a `realloc` that does leaves the old object
-- where it is; `calloc` allocates the product of its arguments, which need not be a `uint32`.
abbrev pub live : Use → Live → Live
live (mallocs n a) f = if a % 2 ^ 32 == 0 then f else held (a % 2 ^ 32) (n % 2 ^ 32) f
live (callocs c n a) f =
    if a % 2 ^ 32 == 0 then f else held (a % 2 ^ 32) ((c % 2 ^ 32) * (n % 2 ^ 32)) f
live (reallocs old n a) f =
    if a % 2 ^ 32 == 0 then f else held (a % 2 ^ 32) (n % 2 ^ 32) (gone (old % 2 ^ 32) f)
live (frees a) f = gone (a % 2 ^ 32) f

abbrev pub live_all : List Use → Live → Live
live_all [] f = f
live_all (u ∷ us) f = live_all us (live u f)

-- An allocation succeeds: its result is not null, and what `calloc` allocates is below 4 GiB.
abbrev pub Succeeds : Use → Type 0
Succeeds (mallocs n a) = 0 < a % 2 ^ 32
Succeeds (callocs c n a) = (0 < a % 2 ^ 32) × ((c % 2 ^ 32) * (n % 2 ^ 32) < 2 ^ 32)
Succeeds (reallocs old n a) = 0 < a % 2 ^ 32
Succeeds (frees a) = Unit {0}

-- What the listeners make of a call, failed or not.
abbrev booked : Use → Live → Live
booked (mallocs n a) f = held (a % 2 ^ 32) (n % 2 ^ 32) f
booked (callocs c n a) f = held (a % 2 ^ 32) (mul32 (c % 2 ^ 32) (n % 2 ^ 32)) f
booked (reallocs old n a) f = held (a % 2 ^ 32) (n % 2 ^ 32) (gone (old % 2 ^ 32) f)
booked (frees a) f = gone (a % 2 ^ 32) f

not_null : (a : ℕ) (f g : Live) → 0 < a % 2 ^ 32 → (if a % 2 ^ 32 == 0 then f else g) ≡ g
not_null a f g h = rw (ne→== (a % 2 ^ 32) 0 (omega arith)) refl

booked-live : (u : Use) (f : Live) → Succeeds u → booked u f ≡ live u f
booked-live (mallocs n a) f h = sym (not_null a _ _ h)
booked-live (callocs c n a) f (h, l) =
    ap (λ (size : ℕ). held (a % 2 ^ 32) size f) (small ((c % 2 ^ 32) * (n % 2 ^ 32)) l)
    ∙ sym (not_null a _ _ h)
  where
    small : (x : ℕ) → x < 2 ^ 32 → x % 2 ^ 32 ≡ x
    small x l = omega arith
booked-live (reallocs old n a) f h = sym (not_null a _ _ h)
booked-live (frees a) f h = refl

abbrev entry : StackTrace → ℕ → MemoryAllocation
entry st n = record { counter = st.key; size = n }

view-put :
    (a : ℕ) (x : MemoryAllocation) (m : Inuse) → view (put_addr a x m) ≡ held a x.size (view m)
view-put a x m = fun_ext λ b.
    rw (find_addr-put_addr a b x m) (elim (Bool-cases (a == b)) [ inl e ↦ rw e | inr e ↦ rw e ])

view-delete : (a : ℕ) (m : Inuse) → view (delete_addr a m) ≡ gone a (view m)
view-delete a m = fun_ext λ b.
    rw (find_addr-delete_addr a b m) (elim (Bool-cases (a == b)) [ inl e ↦ rw e | inr e ↦ rw e ])

inuse-alloc :
    (a n : ℕ) (st : StackTrace) (p : MemoryProfiler) (m : Inuse)
    → p.inuse ≡ some m
    → (observe_alloc a n st p).inuse ≡ some (put_addr a (entry st n) m)
unfolding observe_alloc
inuse-alloc a n st p m e = ground arith

inuse-free :
    (a : ℕ) (p : MemoryProfiler) (m : Inuse)
    → p.inuse ≡ some m
    → (observe_free a p).inuse ≡ some (delete_addr a m)
unfolding observe_free
inuse-free a p m e = ground arith

module _ (hash : List ℕ → ℕ) (guest : Guest) (frames : List StackFrame) (h : HookState) where
  -- A call between its listener's `Before` and `After`, the listener's state being what it may.
  abbrev pub around : Hook → List ℕ → List ℕ → MemoryProfiler → Outcome MemoryProfiler
  around hook params results p = do
    h' ← before hash hook guest params frames h
    after hook results h' p

  abbrev pub perform : Use → MemoryProfiler → Outcome MemoryProfiler
  perform (mallocs n a) p = around malloc (n ∷ []) (a ∷ []) p
  perform (callocs c n a) p = around calloc (c ∷ n ∷ []) (a ∷ []) p
  perform (reallocs old n a) p = around realloc (old ∷ n ∷ []) (a ∷ []) p
  perform (frees a) p = around free (a ∷ []) [] p

  pub perform_all : List Use → MemoryProfiler → Outcome MemoryProfiler
  perform_all [] p = ok p
  perform_all (u ∷ us) p = perform u p >>= perform_all us

  alloc-live :
      (a n : ℕ) (st : StackTrace) (p : MemoryProfiler) (m : Inuse)
      → p.inuse ≡ some m
      → (q : MemoryProfiler) × (m' : Inuse) × (ok (observe_alloc a n st p) ≡ ok q)
        × (q.inuse ≡ some m')
        × (view m' ≡ held a n (view m))
  alloc-live a n st p m e = (
    observe_alloc a n st p,
    put_addr a (entry st n) m,
    refl,
    inuse-alloc a n st p m e,
    view-put a (entry st n) m,
  )

  perform-live :
      (u : Use) (p : MemoryProfiler) (m : Inuse)
      → p.inuse ≡ some m
      → (q : MemoryProfiler) × (m' : Inuse) × (perform u p ≡ ok q)
        × (q.inuse ≡ some m')
        × (view m' ≡ booked u (view m))
  unfolding before after
  perform-live (mallocs n a) p m e = alloc-live _ _ _ p m e
  perform-live (callocs c n a) p m e = alloc-live _ _ _ p m e
  perform-live (reallocs old n a) p m e =
      let w = old % 2 ^ 32 in
      let (q, m', ran, held_by, seen) =
        alloc-live _ _ _ (observe_free w p) (delete_addr w m) (inuse-free w p m e) in
      (q, m', ran, held_by, seen ∙ ap (held (a % 2 ^ 32) (n % 2 ^ 32)) (view-delete w m))
  perform-live (frees a) p m e = (
    observe_free (a % 2 ^ 32) p,
    delete_addr (a % 2 ^ 32) m,
    refl,
    inuse-free _ p m e,
    view-delete _ m,
  )

  -- With `InuseMemory`, after any calls of the allocation functions of which each allocation
  -- succeeds (no result is null, and the product of `calloc` is below 2 ^ 32), the objects in use
  -- and their sizes are those that the calls left: an allocation puts its object at its result,
  -- `calloc` with the product of its arguments, and `free` and `realloc` take away the object at
  -- their argument. Each call ends before the next begins, and its listener may be in any state.
  pub perform_all-live :
      (us : List Use) (p : MemoryProfiler) (m : Inuse)
      → All Succeeds us
      → p.inuse ≡ some m
      → (q : MemoryProfiler) × (m' : Inuse) × (perform_all us p ≡ ok q)
        × (q.inuse ≡ some m')
        × (view m' ≡ live_all us (view m))
  unfolding perform_all
  perform_all-live [] p m d e = (p, m, refl, e, refl)
  perform_all-live (u ∷ us) p m d e =
      let (p₁, m₁, ran, held_by, seen) = perform-live u p m e in
      let (q, m₂, ran₂, held_by₂, seen₂) = perform_all-live us p₁ m₁ d.1 held_by in
      (q, m₂, rw ran ran₂, held_by₂, seen₂ ∙ ap (live_all us) (seen ∙ booked-live u _ d.0))

  -- A `realloc` that fails returns 0 and leaves the old object in use; the profiler takes the old
  -- object away all the same and puts one of the requested size at address 0. The old object is not
  -- at address 0.
  pub realloc_fails :
      (old n : ℕ) (p : MemoryProfiler) (m : Inuse)
      → p.inuse ≡ some m
      → 0 < old % 2 ^ 32
      → (q : MemoryProfiler) × (m' : Inuse) × (perform (reallocs old n 0) p ≡ ok q)
        × (q.inuse ≡ some m')
        × (view m' (old % 2 ^ 32) ≡ none)
        × (view m' 0 ≡ some (n % 2 ^ 32))
  realloc_fails old n p m e h =
      let (q, m', ran, held_by, seen) = perform-live (reallocs old n 0) p m e in
      (
        q,
        m',
        ran,
        held_by,
        ap (λ (f : Live). f (old % 2 ^ 32)) seen
            ∙ rw (ne→== 0 (old % 2 ^ 32) (omega arith), ==_refl (old % 2 ^ 32)) refl,
        ap (λ (f : Live). f 0) seen,
      )
