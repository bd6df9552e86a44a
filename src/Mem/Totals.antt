-- ===== src/Mem/Totals.antt =====
-- What the snapshot of mem.go adds up to.
use wzprof.Base.{
  ℕ, ◌+◌, ◌%◌, ◌^◌, ◌≡◌, refl, inl, inr, [], ◌∷◌, false, ◌==◌, ==→ne, Bool-cases, length, Outcome,
  ok, arith,
}
use wzprof.Trace.{StackCounter, Counts}
use wzprof.Trace.Counts.{IsMap, sum_count, sum_total}
use wzprof.Mem.{
  MemoryAllocation, Inuse, MemoryProfiler, Samples, MemorySample, with_inuse, add_alloc, add_inuse,
  alloc_samples, inuse_samples, entries, snapshot,
}
use wzprof.Mem.Snapshot.{Has, Points, Inv}

-- The four columns, summed over the samples.
abbrev pub sum_of : (MemorySample → ℕ) → Samples → ℕ
sum_of f [] = 0
sum_of f ((k, s) ∷ m) = f s + sum_of f m

abbrev pub sum_size : Inuse → ℕ
sum_size [] = 0
sum_size ((a, x) ∷ xs) = x.size + sum_size xs

-- A column moved by an amount, up to the wrap of its 64 bits, the other columns as they were.
abbrev Moved : (MemorySample → ℕ) → ℕ → Samples → Samples → Type 0
Moved f n m m' = sum_of f m' % 2 ^ 64 ≡ (sum_of f m + n) % 2 ^ 64

abbrev pub alloc_count : MemorySample → ℕ
alloc_count s = s.alloc_count

abbrev pub alloc_bytes : MemorySample → ℕ
alloc_bytes s = s.alloc_bytes

abbrev pub inuse_count : MemorySample → ℕ
inuse_count s = s.inuse_count

abbrev pub inuse_bytes : MemorySample → ℕ
inuse_bytes s = s.inuse_bytes

abbrev Moves : ℕ → ℕ → ℕ → ℕ → Samples → Samples → Type 0
Moves a b c d m m' =
    Moved alloc_count a m m'
    × Moved alloc_bytes b m m'
    × Moved inuse_count c m m'
    × Moved inuse_bytes d m m'

add_alloc-Moves : (sc : StackCounter) (m : Samples) → Moves sc.count sc.total 0 0 m (add_alloc sc m)
unfolding add_alloc
add_alloc-Moves sc [] = ground arith
add_alloc-Moves sc ((k, s) ∷ m) = ground (arith, add_alloc-Moves sc m)

add_alloc-Has : (k : ℕ) (sc : StackCounter) (m : Samples) → Has k m → Has k (add_alloc sc m)
unfolding add_alloc
add_alloc-Has k sc [] h = elim h [ ]
add_alloc-Has k sc ((j, s) ∷ m) h = ground (arith, add_alloc-Has k sc m)

add_alloc-Has_self : (sc : StackCounter) (m : Samples) → Has sc.stack.key (add_alloc sc m)
unfolding add_alloc
add_alloc-Has_self sc [] = inl refl
add_alloc-Has_self sc ((j, s) ∷ m) = ground (arith, add_alloc-Has_self sc m)

alloc_samples-Moves :
    (cs : Counts) (m : Samples) → Moves (sum_count cs) (sum_total cs) 0 0 m (alloc_samples cs m)
unfolding alloc_samples
alloc_samples-Moves [] m = omega arith
alloc_samples-Moves ((k, sc) ∷ cs) m =
    omega (arith, add_alloc-Moves sc m, alloc_samples-Moves cs (add_alloc sc m))

alloc_samples-Has : (k : ℕ) (cs : Counts) (m : Samples) → Has k m → Has k (alloc_samples cs m)
unfolding alloc_samples
alloc_samples-Has k [] m h = h
alloc_samples-Has k ((j, sc) ∷ cs) m h =
    alloc_samples-Has k cs (add_alloc sc m) (add_alloc-Has k sc m h)

-- Every counter gets a sample.
alloc_samples_complete :
    (k : ℕ) (cs : Counts) (m : Samples) → IsMap cs → Has k cs → Has k (alloc_samples cs m)
unfolding alloc_samples
alloc_samples_complete k [] m v h = elim h [ ]
alloc_samples_complete k ((j, sc) ∷ cs) m v (inl e) =
    alloc_samples-Has k cs (add_alloc sc m) (rw (← e, ← v.0) (add_alloc-Has_self sc m))
alloc_samples_complete k ((j, sc) ∷ cs) m v (inr h) =
    alloc_samples_complete k cs (add_alloc sc m) v.2 h

-- An object in use adds itself to its sample.
abbrev Added : MemoryAllocation → Samples → Outcome Samples → Type 0
Added x m out =
    (m' : Samples) × (out ≡ ok m') × Moves 0 0 1 x.size m m' × ((k : ℕ) → Has k m → Has k m')

add_inuse-Added : (x : MemoryAllocation) (m : Samples) → Has x.counter m → Added x m (add_inuse x m)
unfolding add_inuse
add_inuse-Added x [] h = elim h [ ]
add_inuse-Added x ((j, s) ∷ m) h = elim (Bool-cases (j == x.counter)) [
  | inl e ↦ rw e ((j, with_inuse x s) ∷ m, refl, ground arith, λ k z. z)
  | inr e ↦
      let (m', ran, moved, kept) = add_inuse-Added x m (later e h) in
      rw (e, ran) ((j, s) ∷ m', refl, omega (arith, moved), λ k z. grow k m' kept z)
]
  where
    later : (j == x.counter) ≡ false → Has x.counter ((j, s) ∷ m) → Has x.counter m
    later e (inl p) = absurd (==→ne j x.counter e p)
    later e (inr p) = p

    grow :
        (k : ℕ) (m' : Samples)
        → ((k : ℕ) → Has k m → Has k m')
        → Has k ((j, s) ∷ m)
        → Has k ((j, s) ∷ m')
    grow k m' kept (inl p) = inl p
    grow k m' kept (inr p) = inr (kept k p)

-- Every object in use has its sample.
abbrev Sampled : Inuse → Samples → Type 0
Sampled [] m = Unit {0}
Sampled ((a, x) ∷ xs) m = Has x.counter m × Sampled xs m

Sampled-mono :
    (xs : Inuse) (m m' : Samples) → ((k : ℕ) → Has k m → Has k m') → Sampled xs m → Sampled xs m'
Sampled-mono [] m m' kept h = tt
Sampled-mono ((a, x) ∷ xs) m m' kept h = (kept x.counter h.0, Sampled-mono xs m m' kept h.1)

inuse_samples-Moves :
    (xs : Inuse) (m : Samples)
    → Sampled xs m
    → (m' : Samples) × (inuse_samples xs m ≡ ok m') × Moves 0 0 (length xs) (sum_size xs) m m'
unfolding inuse_samples
inuse_samples-Moves [] m h = (m, refl, omega arith)
inuse_samples-Moves ((a, x) ∷ xs) m h =
    let (m₁, ran, moved, kept) = add_inuse-Added x m h.0 in
    let (m₂, ran₂, moved₂) = inuse_samples-Moves xs m₁ (Sampled-mono xs m m₁ kept h.1) in
    (m₂, rw ran ran₂, omega (arith, moved, moved₂))

Points-Sampled :
    (cs : Counts) (xs : Inuse) → IsMap cs → Points cs xs → Sampled xs (alloc_samples cs [])
Points-Sampled cs [] v h = tt
Points-Sampled cs ((a, x) ∷ xs) v h =
    (alloc_samples_complete x.counter cs [] v h.0, Points-Sampled cs xs v h.1)

-- The columns of the snapshot add up to what the profiler holds, each up to the wrap of an `int64`.
abbrev pub Totals : MemoryProfiler → Samples → Type 0
Totals p m =
    (sum_of alloc_count m % 2 ^ 64 ≡ sum_count p.alloc % 2 ^ 64)
    × (sum_of alloc_bytes m % 2 ^ 64 ≡ sum_total p.alloc % 2 ^ 64)
    × (sum_of inuse_count m % 2 ^ 64 ≡ length (entries p.inuse) % 2 ^ 64)
    × (sum_of inuse_bytes m % 2 ^ 64 ≡ sum_size (entries p.inuse) % 2 ^ 64)

pub snapshot-Totals :
    (p : MemoryProfiler) → Inv p → (m : Samples) × (snapshot p ≡ ok m) × Totals p m
unfolding snapshot
snapshot-Totals p v =
    let (m, ran, moved) =
      inuse_samples-Moves (entries p.inuse) (alloc_samples p.alloc [])
        (Points-Sampled p.alloc (entries p.inuse) v.is_map v.points) in
    (m, ran, omega (arith, moved, alloc_samples-Moves p.alloc []))
