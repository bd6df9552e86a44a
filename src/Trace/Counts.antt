-- ===== src/Trace/Counts.antt =====
-- The counter map of wzprof.go: what one observation changes, and the sums over the map.
use wzprof.Base.{
  ℕ, ◌+◌, ◌%◌, ◌^◌, ◌≡◌, ◌≢◌, [], ◌∷◌, Option, none, some, ◌==◌, if◌then◌else◌, arith,
}
use wzprof.Trace.{
  StackTrace, StackCounter, Counts, fresh_counter, observe_value, find, lookup, observe_at, observe,
}

-- The counter that an observation of a stack starts from.
abbrev pub or_fresh : StackTrace → Option StackCounter → StackCounter
or_fresh st none = fresh_counter st
or_fresh st (some sc) = sc

-- Every entry stands under the key of its stack, and no key stands twice.
abbrev pub Absent : ℕ → Counts → Type 0
Absent k [] = Unit {0}
Absent k ((j, sc) ∷ m) = (j ≢ k) × Absent k m

abbrev pub IsMap : Counts → Type 0
IsMap [] = Unit {0}
IsMap ((j, sc) ∷ m) = (sc.stack.key ≡ j) × Absent j m × IsMap m

-- An observation changes the counter of its stack's key alone, which it adds when it is missing: one
-- more observation, and the value on the total.
pub find-observe :
    (m : Counts) (st : StackTrace) (value k : ℕ)
    → find k (observe m st value)
      ≡ (if st.key == k then some (observe_value (or_fresh st (find st.key m)) value) else find k m)
unfolding observe lookup observe_at find
find-observe [] st value k = ground arith
find-observe ((j, sc) ∷ m) st value k = ground (arith, find-observe m st value k)

Absent-observe :
    (m : Counts) (st : StackTrace) (value j : ℕ)
    → j ≢ st.key
    → Absent j m
    → Absent j (observe m st value)
unfolding observe lookup observe_at
Absent-observe [] st value j ne a = ground arith
Absent-observe ((i, sc) ∷ m) st value j ne a = ground (arith, Absent-observe m st value j ne a.1)

-- A map stays one.
pub observe-IsMap :
    (m : Counts) (st : StackTrace) (value : ℕ) → IsMap m → IsMap (observe m st value)
unfolding observe lookup observe_at
observe-IsMap [] st value h = ground arith
observe-IsMap ((i, sc) ∷ m) st value h =
    ground (arith, observe-IsMap m st value h.2, Absent-observe m st value i)

abbrev pub sum_count : Counts → ℕ
sum_count [] = 0
sum_count ((j, sc) ∷ m) = sc.count + sum_count m

abbrev pub sum_total : Counts → ℕ
sum_total [] = 0
sum_total ((j, sc) ∷ m) = sc.total + sum_total m

-- The sums over the map, up to the wrap of their 64 bits.
pub sum_count-observe :
    (m : Counts) (st : StackTrace) (value : ℕ)
    → sum_count (observe m st value) % 2 ^ 64 ≡ (sum_count m + 1) % 2 ^ 64
unfolding observe lookup observe_at observe_value
sum_count-observe [] st value = ground (arith)
sum_count-observe ((i, sc) ∷ m) st value = ground (arith, sum_count-observe m st value)

pub sum_total-observe :
    (m : Counts) (st : StackTrace) (value : ℕ)
    → sum_total (observe m st value) % 2 ^ 64 ≡ (sum_total m + value) % 2 ^ 64
unfolding observe lookup observe_at observe_value
sum_total-observe [] st value = ground (arith)
sum_total-observe ((i, sc) ∷ m) st value = ground (arith, sum_total-observe m st value)
