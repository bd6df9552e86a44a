-- ===== src/Cpu/Shared/Credit.antt =====
-- cpu.go: the frames and traces of a call that `After` takes off.
use wzprof.Base.{ℕ, ◌≡◌, refl, List, [], ◌∷◌, ◌++◌, map, Option, arith}
use wzprof.Trace.Store.{Store, SharedTrace, SharedCounts}
use wzprof.Trace.Store.Owned.{owned, AreOld}
use wzprof.Cpu.{credit}
use wzprof.Cpu.Shared.{SharedFrame, Machine, shared_credit, view_frame}
use wzprof.Cpu.Shared.Traces.{
  Alone, Alone-le, owned_parts, frame_traces, count_traces, handed_traces, owners,
}

pub AreOld-append : (st : Store) (xs ys : List SharedTrace) → AreOld st (xs ++ ys) → AreOld st xs
AreOld-append st [] ys o = tt
AreOld-append st (x ∷ xs) ys o = (o.0, AreOld-append st xs ys o.1)

pub frames-credit :
    (d : ℕ) (fs : List SharedFrame) → frame_traces (shared_credit d fs) ≡ frame_traces fs
unfolding shared_credit
frames-credit d [] = refl
frames-credit d (f ∷ fs) = refl

pub view-credit :
    (st : Store) (d : ℕ) (fs : List SharedFrame)
    → map (view_frame st) (shared_credit d fs) ≡ credit d (map (view_frame st) fs)
unfolding shared_credit credit
view-credit st d [] = refl
view-credit st d (f ∷ fs) = refl

module _ (f : SharedFrame) (rest : List SharedFrame) where
  abbrev pub parts : Machine → List SharedTrace
  parts p = frame_traces (f ∷ rest) ++ (p.traces ++ handed_traces p.handed)

  -- A call that began while no profile was recorded, and one that ends after the profile.
  pub skipped-Alone :
      (p : Machine) (o : Option SharedCounts)
      → Alone p.store (owners (record p { counts = o; frames = f ∷ rest }))
      → Alone p.store (owners (record p { counts = o; frames = rest }))
  unfolding owned
  skipped-Alone p o h =
      Alone-le p.store (owners (record p { counts = o; frames = f ∷ rest }))
        (owners (record p { counts = o; frames = rest }))
        (λ part nil a. omega (
          arith,
          owned_parts part a (count_traces o) (frame_traces (f ∷ rest)) p.traces
              (handed_traces p.handed),
          owned_parts part a (count_traces o) (frame_traces rest) p.traces (handed_traces p.handed),
        ))
        h

  -- The trace of the call goes from its frame to the traces that can be reused.
  abbrev pub moved : ℕ → Machine → Store → List SharedTrace → List SharedTrace
  moved d p st ts =
      ts
      ++ (frame_traces (shared_credit d rest) ++ ((f.trace ∷ p.traces) ++ handed_traces p.handed))

  pub moved-Alone :
      (d : ℕ) (p : Machine) (st : Store) (ts : List SharedTrace)
      → Alone st (ts ++ parts p)
      → Alone st (moved d p st ts)
  unfolding owned
  moved-Alone d p st ts h = rw (frames-credit d rest) (
      Alone-le st (ts ++ parts p)
        (ts ++ (frame_traces rest ++ ((f.trace ∷ p.traces) ++ handed_traces p.handed)))
        (λ part nil a. omega (
          arith,
          owned_parts part a ts (frame_traces (f ∷ rest)) p.traces (handed_traces p.handed),
          owned_parts part a ts (frame_traces rest) (f.trace ∷ p.traces) (handed_traces p.handed),
        ))
        h)
