-- ===== src/Mem/Snapshot.antt =====
-- The snapshot of mem.go: it finds a sample for every object in use, and loses nothing.
use wzprof.Base.{
  ℕ, ◌≡◌, refl, ◌⊎◌, inl, inr, List, [], ◌∷◌, Bool, true, false, Option, none, some, ◌==◌,
  Bool-cases, arith,
}
use wzprof.Trace.{StackTrace, Counts, observe, lookup, observe_at}
use wzprof.Trace.Counts.{IsMap, observe-IsMap}
use wzprof.Mem.{
  MemoryAllocation, Inuse, put_addr, delete_addr, MemoryProfiler, new_memory_profiler,
  observe_alloc, observe_free, entries,
}

-- The key has an entry.
abbrev pub Has {ℓ} : {V : Type ℓ} → ℕ → List (ℕ × V) → Type 0
Has k [] = ⊥
Has k ((j, v) ∷ m) = (j ≡ k) ⊎ Has k m

-- Every object in use points to a counter of the map.
abbrev pub Points : Counts → Inuse → Type 0
Points cs [] = Unit {0}
Points cs ((a, x) ∷ xs) = Has x.counter cs × Points cs xs

pub record Inv (p : MemoryProfiler) : Type 0 where
  pub is_map : IsMap p.alloc
  pub points : Points p.alloc (entries p.inuse)

Has-observe : (k : ℕ) (cs : Counts) (st : StackTrace) (v : ℕ) → Has k cs → Has k (observe cs st v)
unfolding observe lookup observe_at
Has-observe k [] st v h = elim h [ ]
Has-observe k ((j, sc) ∷ cs) st v h = ground (arith, Has-observe k cs st v)

Has-observe_self : (cs : Counts) (st : StackTrace) (v : ℕ) → Has st.key (observe cs st v)
unfolding observe lookup observe_at
Has-observe_self [] st v = ground arith
Has-observe_self ((j, sc) ∷ cs) st v = ground (arith, Has-observe_self cs st v)

Points-observe :
    (cs : Counts) (st : StackTrace) (v : ℕ) (xs : Inuse)
    → Points cs xs
    → Points (observe cs st v) xs
Points-observe cs st v [] h = tt
Points-observe cs st v ((a, x) ∷ xs) h =
    (Has-observe x.counter cs st v h.0, Points-observe cs st v xs h.1)

Points-put :
    (cs : Counts) (a : ℕ) (x : MemoryAllocation) (xs : Inuse)
    → Has x.counter cs
    → Points cs xs
    → Points cs (put_addr a x xs)
unfolding put_addr
Points-put cs a x [] h ps = (h, tt)
Points-put cs a x ((b, y) ∷ xs) h ps = elim (Bool-cases (b == a)) [
  | inl e ↦ rw e (h, ps.1)
  | inr e ↦ rw e (ps.0, Points-put cs a x xs h ps.1)
]

Points-delete : (cs : Counts) (a : ℕ) (xs : Inuse) → Points cs xs → Points cs (delete_addr a xs)
unfolding delete_addr
Points-delete cs a [] ps = tt
Points-delete cs a ((b, y) ∷ xs) ps = elim (Bool-cases (b == a)) [
  | inl e ↦ rw e (Points-delete cs a xs ps.1)
  | inr e ↦ rw e (ps.0, Points-delete cs a xs ps.1)
]

pub new-Inv : (enable : Bool) (now : ℕ) → Inv (new_memory_profiler enable now)
unfolding new_memory_profiler
new-Inv true now = record { is_map = tt; points = tt }
new-Inv false now = record { is_map = tt; points = tt }

alloc-Inv_at :
    (o : Option Inuse) (a n : ℕ) (st : StackTrace) (p : MemoryProfiler)
    → p.inuse ≡ o
    → Inv p
    → Inv (observe_alloc a n st p)
unfolding observe_alloc
alloc-Inv_at none a n st p e v =
    rw (e, observe_alloc)
      (record { is_map = observe-IsMap p.alloc st n v.is_map; points = rw e tt })
alloc-Inv_at (some m) a n st p e v =
    rw (e, observe_alloc)
      (record {
        is_map = observe-IsMap p.alloc st n v.is_map;
        points =
            Points-put (observe p.alloc st n) a (record { counter = st.key; size = n }) m
              (Has-observe_self p.alloc st n) (Points-observe p.alloc st n m (rw e at v.points));
      })

pub observe_alloc-Inv :
    (a n : ℕ) (st : StackTrace) (p : MemoryProfiler) → Inv p → Inv (observe_alloc a n st p)
observe_alloc-Inv a n st p v = alloc-Inv_at p.inuse a n st p refl v

free-Inv_at :
    (o : Option Inuse) (a : ℕ) (p : MemoryProfiler) → p.inuse ≡ o → Inv p → Inv (observe_free a p)
unfolding observe_free
free-Inv_at none a p e v = rw (e, observe_free) v
free-Inv_at (some m) a p e v =
    rw (e, observe_free)
      (record { is_map = v.is_map; points = Points-delete p.alloc a m (rw e at v.points) })

pub observe_free-Inv : (a : ℕ) (p : MemoryProfiler) → Inv p → Inv (observe_free a p)
observe_free-Inv a p v = free-Inv_at p.inuse a p refl v
