-- ===== src/Python/Frames.antt =====
-- The frames that the stack iterator of CPython visits.
use wzprof.Base.{
  ℕ, zero, suc, ◌+◌, ◌<◌, ◌≡◌, ◌≢◌, ◌⊎◌, inl, inr, refl, ap, ◌∙◌, List, [], ◌∷◌, Bool, true, false,
  ==_refl, ne→==, if◌then◌else◌, length, Outcome, ok, stuck, ◌>>=◌, arith,
}
use wzprof.Base.Words.{add32}
use wzprof.Pclntab.{Vmem}
use wzprof.Python.{
  deref_u32, PyStackIter, stackiter, next, pad_previous_in_frame, pad_tstate_current_in_rt,
  pad_cframe_in_thread_state, pad_current_frame_in_cframe,
}

abbrev at : Bool → ℕ → PyStackIter
at started framep = record { started = started; framep = framep }

-- The frame from which a frame was called, as the memory has it.
abbrev pub previous : Vmem → ℕ → Outcome ℕ
previous mem framep = deref_u32 mem (add32 framep pad_previous_in_frame)

-- The frames behind one: the last has no caller, or is its own.
abbrev pub AreCallers : Vmem → ℕ → List ℕ → Type 0
AreCallers mem f [] = (previous mem f ≡ ok 0) ⊎ (previous mem f ≡ ok f)
AreCallers mem f (g ∷ fs) = (previous mem f ≡ ok g) × (f ≢ g) × (g ≢ 0) × AreCallers mem g fs

-- `for it.Next() { ... }`, as the unwinding code does it: the frames in order.
abbrev pub walk : ℕ → Vmem → PyStackIter → Outcome (List ℕ)
walk zero mem p = stuck
walk (suc fuel) mem p = do
  (more, p) ← next mem p
  if more then walk fuel mem p >>= (λ fs. ok (p.framep ∷ fs)) else ok []

next_first : (mem : Vmem) (f : ℕ) → f ≢ 0 → next mem (at false f) ≡ ok (true, at true f)
unfolding next
next_first mem f z = rw (ne→== f 0 z) refl

next_link :
    (mem : Vmem) (f g : ℕ)
    → previous mem f ≡ ok g
    → f ≢ g
    → g ≢ 0
    → next mem (at true f) ≡ ok (true, at true g)
unfolding next
next_link mem f g l n z = rw (l, ne→== f g n, ne→== g 0 z) refl

next_own :
    (mem : Vmem) (f : ℕ) → previous mem f ≡ ok f → next mem (at true f) ≡ ok (false, at true 0)
unfolding next
next_own mem f l = rw (l, ==_refl f) refl

next_none :
    (mem : Vmem) (f : ℕ)
    → f ≢ 0
    → previous mem f ≡ ok 0
    → next mem (at true f) ≡ ok (false, at true 0)
unfolding next
next_none mem f z l = rw (l, ne→== f 0 z) refl

walk_more :
    (fuel : ℕ) (mem : Vmem) (p q : PyStackIter)
    → next mem p ≡ ok (true, q)
    → walk (suc fuel) mem p ≡ (walk fuel mem q >>= (λ fs. ok (q.framep ∷ fs)))
walk_more fuel mem p q h = rw (h) refl

walk_end :
    (fuel : ℕ) (mem : Vmem) (p q : PyStackIter)
    → next mem p ≡ ok (false, q)
    → walk (suc fuel) mem p ≡ ok []
walk_end fuel mem p q h = rw (h) refl

walk-callers :
    (fs : List ℕ) (fuel : ℕ) (mem : Vmem) (f : ℕ)
    → f ≢ 0
    → AreCallers mem f fs
    → length fs < fuel
    → walk fuel mem (at true f) ≡ ok fs
walk-callers fs zero mem f z a l = absurd (omega arith)
walk-callers [] (suc fuel) mem f z (inl e) l =
    walk_end fuel mem (at true f) (at true 0) (next_none mem f z e)
walk-callers [] (suc fuel) mem f z (inr e) l =
    walk_end fuel mem (at true f) (at true 0) (next_own mem f e)
walk-callers (g ∷ fs) (suc fuel) mem f z (e, n, y, a) l =
    walk_more fuel mem (at true f) (at true g) (next_link mem f g e n y)
    ∙ ap (λ (o : Outcome (List ℕ)). o >>= (λ rest. ok (g ∷ rest)))
        (walk-callers fs fuel mem g y a (omega arith))

stackiter-at :
    (mem : Vmem) (rt tsp cframep f : ℕ)
    → deref_u32 mem (add32 rt pad_tstate_current_in_rt) ≡ ok tsp
    → deref_u32 mem (add32 tsp pad_cframe_in_thread_state) ≡ ok cframep
    → deref_u32 mem (add32 cframep pad_current_frame_in_cframe) ≡ ok f
    → stackiter mem rt ≡ ok (at false f)
unfolding stackiter
stackiter-at mem rt tsp cframep f a b c = rw (a, b, c) refl

-- If the runtime points at its thread, this at its C frame, and this at a frame, behind which the frames
-- are linked, none of them null or its own caller, up to one that has no caller or is its own, then a
-- loop over the stack iterator visits exactly these frames, from the first on, and ends.
pub walk-stackiter :
    (fs : List ℕ) (fuel : ℕ) (mem : Vmem) (rt tsp cframep f : ℕ)
    → deref_u32 mem (add32 rt pad_tstate_current_in_rt) ≡ ok tsp
    → deref_u32 mem (add32 tsp pad_cframe_in_thread_state) ≡ ok cframep
    → deref_u32 mem (add32 cframep pad_current_frame_in_cframe) ≡ ok f
    → f ≢ 0
    → AreCallers mem f fs
    → length fs + 1 < fuel
    → (stackiter mem rt >>= walk fuel mem) ≡ ok (f ∷ fs)
walk-stackiter fs zero mem rt tsp cframep f a b c z w l = absurd (omega arith)
walk-stackiter fs (suc fuel) mem rt tsp cframep f a b c z w l =
    ap (λ (o : Outcome PyStackIter). o >>= walk (suc fuel) mem)
      (stackiter-at mem rt tsp cframep f a b c)
    ∙ walk_more fuel mem (at false f) (at true f) (next_first mem f z)
    ∙ ap (λ (o : Outcome (List ℕ)). o >>= (λ rest. ok (f ∷ rest)))
        (walk-callers fs fuel mem f z w (omega arith))
