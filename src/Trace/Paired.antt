-- ===== src/Trace/Paired.antt =====
-- Stacks that have a PC for each function, as traces and in counters.
use wzprof.Base.{refl, ℕ, ◌≤◌, ◌≡◌, inl, inr, List, [], ◌∷◌, map, ◌==◌, Bool-cases, length, arith}
use wzprof.Trace.{
  StackFrame, StackTrace, Counts, make_stack_trace, observe, lookup, observe_at, observe_value,
}

-- A stack has a PC for each function; and so have those of counters.
abbrev pub IsPaired : StackTrace → Type 0
IsPaired st = length st.fns ≤ length st.pcs

abbrev pub PairedCounts : Counts → Type 0
PairedCounts [] = Unit {0}
PairedCounts ((k, sc) ∷ cs) = IsPaired sc.stack × PairedCounts cs

lookup-Paired :
    (cs : Counts) (st : StackTrace) → IsPaired st → PairedCounts cs → PairedCounts (lookup cs st)
unfolding lookup
lookup-Paired [] st h a = (h, tt)
lookup-Paired ((j, sc) ∷ cs) st h a = elim (Bool-cases (j == st.key)) [
  | inl e ↦ rw e a
  | inr e ↦ rw e (a.0, lookup-Paired cs st h a.1)
]

observe_at-Paired : (k v : ℕ) (cs : Counts) → PairedCounts cs → PairedCounts (observe_at k v cs)
unfolding observe_at observe_value
observe_at-Paired k v [] a = tt
observe_at-Paired k v ((j, sc) ∷ cs) a = elim (Bool-cases (j == k)) [
  | inl e ↦ rw e a
  | inr e ↦ rw e (a.0, observe_at-Paired k v cs a.1)
]

pub observe-Paired :
    (cs : Counts) (st : StackTrace) (v : ℕ)
    → IsPaired st
    → PairedCounts cs
    → PairedCounts (observe cs st v)
unfolding observe
observe-Paired cs st v h a = observe_at-Paired st.key v (lookup cs st) (lookup-Paired cs st h a)

length-maps :
    (fs : List StackFrame)
    → length (map (λ (f : StackFrame). f.fn) fs) ≡ length (map (λ (f : StackFrame). f.pc) fs)
length-maps [] = refl
length-maps (f ∷ fs) = omega (arith, length-maps fs)

pub make_stack_trace-IsPaired :
    (hash : List ℕ → ℕ) (st : StackTrace) (fs : List StackFrame)
    → IsPaired (make_stack_trace hash st fs)
unfolding make_stack_trace
make_stack_trace-IsPaired hash st fs = omega (arith, length-maps fs)
