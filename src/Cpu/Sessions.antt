-- ===== src/Cpu/Sessions.antt =====
-- Profiles that start and stop at any time while the guest runs.
use wzprof.Base.{
  ℕ, zero, suc, ◌+◌, ◌≡◌, refl, subst, ◌∙◌, List, [], ◌∷◌, Bool, true, false, Option, none, some,
  Option-cases, inl, inr, Bool-cases, if◌then◌else◌, ◌==◌, length, All, Outcome, ok, ◌>>=◌, arith,
}
use wzprof.Trace.{StackFrame, StackCounter, Counts, host}
use wzprof.Cpu.{
  CpuTimeFrame, CpuProfiler, start_profile, stop_profile, drop_host, before, after, after_frames,
  finish_frame, credit,
}

-- A run of the guest in which another goroutine starts and stops profiles, between any two of the
-- listener's calls.
pub data Run : Type 0 where
  done : Run
  call : ℕ → List StackFrame → ℕ → Run → Run → Run
  starts : ℕ → Run → Run
  stops : Run → Run

module _ (hash : List ℕ → ℕ) where
  unfoldable pub run : Run → CpuProfiler → Outcome CpuProfiler
  run done p = ok p
  run (call start stack finish inside later) p = do
    inside_done ← run inside (before hash start stack p)
    call_done ← after finish inside_done
    run later call_done
  run (starts now rest) p = run rest (start_profile now p).1
  run (stops rest) p = run rest (stop_profile p).1

  length-before :
      (now : ℕ) (stack : List StackFrame) (p : CpuProfiler)
      → length (before hash now stack p).frames ≡ suc (length p.frames)
  unfolding before
  length-before now stack p = ground arith

length-credit : (d : ℕ) (fs : List CpuTimeFrame) → length (credit d fs) ≡ length fs
unfolding credit
length-credit d [] = refl
length-credit d (f ∷ fs) = refl

after_ok :
    (now : ℕ) (p : CpuProfiler) (fs : List CpuTimeFrame) (n : ℕ)
    → p.frames ≡ fs
    → length fs ≡ suc n
    → (q : CpuProfiler) × (after now p ≡ ok q) × (length q.frames ≡ n)
unfolding after
after_ok now p [] n e h = absurd (omega arith)
after_ok now p (f ∷ rest) n e h = (finish_frame now f rest p, rw (e, after_frames), finished)
  where
    finished : length (finish_frame now f rest p).frames ≡ n
    finished = ground (arith, length-credit (wzprof.Base.Words.sub64 now f.start) rest)

length-start_profile :
    (now : ℕ) (p : CpuProfiler) → length (start_profile now p).1.frames ≡ length p.frames
unfolding start_profile
length-start_profile now p = ground arith

length-stop_profile : (p : CpuProfiler) → length (stop_profile p).1.frames ≡ length p.frames
unfolding stop_profile
length-stop_profile p = ground arith

-- However profiles start and stop while the guest runs, no call of the listener panics, and each
-- call takes off the frame that it put on.
run-total :
    (hash : List ℕ → ℕ) (r : Run) (p : CpuProfiler)
    → (q : CpuProfiler) × (run hash r p ≡ ok q) × (length q.frames ≡ length p.frames)
unfolding run
run-total hash done p = (p, refl, refl)
run-total hash (call start stack finish inside later) p =
    let (p₂, ran, framed) = run-total hash inside (before hash start stack p) in
    let (p₃, ended, taken) =
      after_ok finish p₂ p₂.frames (length p.frames) refl
        (framed ∙ length-before hash start stack p) in
    let (q, ran₃, framed₃) = run-total hash later p₃ in (q, rw (ran, ended) ran₃, framed₃ ∙ taken)
run-total hash (starts now rest) p =
    let (q, ran, framed) = run-total hash rest (start_profile now p).1 in
    (q, ran, framed ∙ length-start_profile now p)
run-total hash (stops rest) p =
    let (q, ran, framed) = run-total hash rest (stop_profile p).1 in
    (q, ran, framed ∙ length-stop_profile p)

-- The samples that are left without those of the host, in their order.
pub data Guests : Counts → Counts → Type 0 where
  none_left : Guests [] []
  left :
      (k : ℕ) (sc : StackCounter) (m out : Counts)
      → host sc.stack ≡ false
      → Guests m out
      → Guests ((k, sc) ∷ m) ((k, sc) ∷ out)
  dropped :
      (k : ℕ) (sc : StackCounter) (m out : Counts)
      → host sc.stack ≡ true
      → Guests m out
      → Guests ((k, sc) ∷ m) out

drop_host-Guests : (m : Counts) → Guests m (drop_host m)
unfolding drop_host
drop_host-Guests [] = none_left
drop_host-Guests ((k, sc) ∷ m) = elim (Bool-cases (host sc.stack)) [
  | inl e ↦ rw e (dropped k sc m _ e (drop_host-Guests m))
  | inr e ↦ rw e (left k sc m _ e (drop_host-Guests m))
]

-- The protocol of `StartProfile` and `StopProfile`. Where no profile is recorded, a start returns
-- true and records one from now on, without samples, and a stop hands over nothing. Where one is
-- recorded, a start returns false and changes nothing, and a stop hands over its samples: all of
-- them with `HostTime`, else exactly those whose stack was not taken in a host function, in their
-- order. No profile is recorded behind a stop, and a stop changes nothing else: a second stop hands
-- over nothing, and a start behind it begins a new profile.
pub start-stop_protocol :
    (p : CpuProfiler) (now : ℕ)
    → (p.counts ≡ none
        → (start_profile now p ≡ (true, record p { counts = some []; start = now }))
          × ((stop_profile p).0 ≡ none))
      × ((m : Counts)
          → p.counts ≡ some m
          → (start_profile now p ≡ (false, p))
            × (out : Counts) × ((stop_profile p).0 ≡ some out)
            × (p.host ≡ true → out ≡ m)
            × (p.host ≡ false → Guests m out))
      × ((stop_profile p).1 ≡ record p { counts = none })
      × ((stop_profile (stop_profile p).1).0 ≡ none)
      × (start_profile now (stop_profile p).1 ≡ (true, record p { counts = some []; start = now }))
unfolding start_profile stop_profile
start-stop_protocol p now = (idle, recorded, stopped, rw stopped refl, rw stopped refl)
  where
    stopped : (stop_profile p).1 ≡ record p { counts = none }
    stopped = elim (Option-cases p.counts) [ inl e ↦ rw e refl | inr (m, e) ↦ rw e refl ]

    idle :
        p.counts ≡ none
        → (start_profile now p ≡ (true, record p { counts = some []; start = now }))
          × ((stop_profile p).0 ≡ none)
    idle e = (rw e refl, rw e refl)

    recorded :
        (m : Counts)
        → p.counts ≡ some m
        → (start_profile now p ≡ (false, p))
          × (out : Counts) × ((stop_profile p).0 ≡ some out)
          × (p.host ≡ true → out ≡ m)
          × (p.host ≡ false → Guests m out)
    recorded m e = (
      rw e refl,
      if p.host then m else drop_host m,
      rw e refl,
      (λ h. rw h refl),
      (λ h. rw h (drop_host-Guests m)),
    )
