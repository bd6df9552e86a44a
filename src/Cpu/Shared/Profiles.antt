-- ===== src/Cpu/Shared/Profiles.antt =====
-- cpu.go: `StartProfile` and `StopProfile` on stored traces.
use wzprof.Base.{
  ℕ, ◌≤◌, ◌≡◌, refl, inl, inr, [], ◌∷◌, Option, none, some, if◌then◌else◌, Bool-cases, arith,
}
use wzprof.Trace.{host}
use wzprof.Trace.Slices.{Slice}
use wzprof.Trace.Store.{Store, SharedTrace, SharedCounts, view, view_counts}
use wzprof.Trace.Store.Owned.{owned, stacks}
use wzprof.Cpu.{start_profile, stop_profile, drop_host}
use wzprof.Cpu.Shared.{
  Machine, shared_start, shared_stop, shared_drop_host, view_profiler, view_handed, with_samples,
}
use wzprof.Cpu.Shared.Traces.{
  Alone, Alone-le, owned_parts, frame_traces, count_traces, handed_traces, owners,
}

-- `StartProfile`, and `StopProfile`.
pub start-Alone :
    (now : ℕ) (p : Machine) (o : Option SharedCounts)
    → Alone p.store (owners (record p { counts = o }))
    → Alone
        (shared_start now (record p { counts = o })).store
        (owners (shared_start now (record p { counts = o })))
unfolding shared_start count_traces stacks
start-Alone now p none h = h
start-Alone now p (some m) h = h

pub start-view :
    (now : ℕ) (p : Machine) (o : Option SharedCounts)
    → view_profiler (shared_start now (record p { counts = o }))
      ≡ (start_profile now (view_profiler (record p { counts = o }))).1
unfolding shared_start view_profiler start_profile
start-view now p none = refl
start-view now p (some m) = refl

pub start-handed :
    (now : ℕ) (p : Machine) (o : Option SharedCounts)
    → view_handed (shared_start now (record p { counts = o })) ≡ view_handed p
unfolding shared_start view_handed
start-handed now p none = refl
start-handed now p (some m) = refl

pub start_frames : (now : ℕ) (p : Machine) → (shared_start now p).frames ≡ p.frames
unfolding shared_start
start_frames now p = ground arith

pub stop_frames : (p : Machine) → (shared_stop p).frames ≡ p.frames
unfolding shared_stop
stop_frames p = ground arith

module _ (st : Store) where
  view-drop_host :
      (m : SharedCounts) → view_counts st (shared_drop_host st m) ≡ drop_host (view_counts st m)
  unfolding view_counts shared_drop_host drop_host
  view-drop_host [] = refl
  view-drop_host ((k, sc) ∷ m) = elim (Bool-cases (host (view st sc.stack))) [
    | inl e ↦ rw (e, view-drop_host m) refl
    | inr e ↦ rw (e, view-drop_host m) refl
  ]

  owned-drop_host :
      (part : SharedTrace → Slice) (a : ℕ) (m : SharedCounts)
      → owned part a (stacks (shared_drop_host st m)) ≤ owned part a (stacks m)
  unfolding shared_drop_host stacks owned
  owned-drop_host part a [] = omega arith
  owned-drop_host part a ((k, sc) ∷ m) = elim (Bool-cases (host (view st sc.stack))) [
    | inl e ↦ rw e (omega (arith, owned-drop_host part a m))
    | inr e ↦ rw e (omega (arith, owned-drop_host part a m))
  ]

-- The samples that `StopProfile` hands over.
abbrev kept : Machine → SharedCounts → SharedCounts
kept p m = if p.host then m else shared_drop_host p.store m

owned-kept :
    (part : SharedTrace → Slice) (p : Machine) (a : ℕ) (m : SharedCounts)
    → owned part a (stacks (kept p m)) ≤ owned part a (stacks m)
owned-kept part p a m = elim (Bool-cases p.host) [
  | inl e ↦ rw e (omega arith)
  | inr e ↦ rw e (owned-drop_host p.store part a m)
]

pub stop-Alone :
    (p : Machine) (o : Option SharedCounts)
    → Alone p.store (owners (record p { counts = o }))
    → Alone
        (shared_stop (record p { counts = o })).store
        (owners (shared_stop (record p { counts = o })))
unfolding shared_stop count_traces handed_traces
stop-Alone p none h = h
stop-Alone p (some m) h =
    Alone-le p.store _ _
      (λ part nil a. omega (
        arith,
        owned-kept part p a m,
        owned_parts part a (stacks m) (frame_traces p.frames) p.traces (handed_traces p.handed),
        owned_parts part a (frame_traces p.frames) p.traces (stacks (kept p m))
            (handed_traces p.handed),
      ))
      h

view-kept :
    (p : Machine) (m : SharedCounts)
    → view_counts p.store (kept p m)
      ≡ (if p.host then view_counts p.store m else drop_host (view_counts p.store m))
view-kept p m = elim (Bool-cases p.host) [
  | inl e ↦ rw e refl
  | inr e ↦ rw e (view-drop_host p.store m)
]

pub stop-view :
    (p : Machine) (o : Option SharedCounts)
    → view_profiler (shared_stop (record p { counts = o }))
      ≡ (stop_profile (view_profiler (record p { counts = o }))).1
unfolding shared_stop view_profiler stop_profile
stop-view p none = refl
stop-view p (some m) = refl

pub stop-handed :
    (p : Machine) (o : Option SharedCounts)
    → view_handed (shared_stop (record p { counts = o }))
      ≡ with_samples (stop_profile (view_profiler (record p { counts = o }))).0 (view_handed p)
unfolding shared_stop view_profiler view_handed stop_profile
stop-handed p none = refl
stop-handed p (some m) = rw (view-kept p m) refl
