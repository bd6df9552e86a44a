-- ===== src/Profile/Places.antt =====
-- What `buildProfile` makes of each sample: its values, and the locations of its frames.
use text.Mathlib.TextPositions.{eq_refl}
use wzprof.Base.{
  ℕ, ◌≡◌, refl, subst, List, [], ◌∷◌, ◌++◌, true, none, some, ok, panic, Option-cases, Bool-cases,
  inl, inr, length, take, ltb, ==_refl, >>=-eq-ok,
}
use wzprof.Trace.{Function}
use wzprof.Profile.{
  Location, PprofLocation, LocationKey, make_location_key, key_eq, Locations, find_location, Caches,
  PprofSample, SampleType, frame_location, stack_locations, build_samples,
}

-- The location of a function and a PC is in the cache, with the ID.
abbrev pub IsPlace : Locations → Function → ℕ → ℕ → Type 0
IsPlace locs fn pc i =
    (loc : PprofLocation) × (find_location (make_location_key fn pc) locs ≡ some loc) × (loc.id ≡ i)

-- The IDs of the frames of a stack, one for each function.
abbrev pub ArePlaces : Locations → List Function → List ℕ → List ℕ → Type 0
ArePlaces locs [] pcs [] = Unit {0}
ArePlaces locs [] pcs (i ∷ ids) = ⊥
ArePlaces locs (fn ∷ fns) pcs [] = ⊥
ArePlaces locs (fn ∷ fns) [] (i ∷ ids) = ⊥
ArePlaces locs (fn ∷ fns) (pc ∷ pcs) (i ∷ ids) = IsPlace locs fn pc i × ArePlaces locs fns pcs ids

-- The samples of the profile are those given, in order: each with its values, cut to the number of
-- types, and with the locations of its frames.
abbrev pub AreBuilt : ℕ → Locations → List SampleType → List PprofSample → Type 0
AreBuilt types locs [] [] = Unit {0}
AreBuilt types locs [] (o ∷ out) = ⊥
AreBuilt types locs (s ∷ samples) [] = ⊥
AreBuilt types locs (s ∷ samples) (o ∷ out) =
    (o.value ≡ take types s.sample_value)
    × ArePlaces locs s.sample_location.fns s.sample_location.pcs o.location
    × AreBuilt types locs samples out

-- A later cache, which has every location of an earlier one under its key.
abbrev Keeps : Locations → Locations → Type 0
Keeps locs later =
    (key : LocationKey) (loc : PprofLocation)
    → find_location key locs ≡ some loc
    → find_location key later ≡ some loc

key_eq_refl : (k : LocationKey) → key_eq k k ≡ true
unfolding key_eq
key_eq_refl k = rw (eq_refl k.module_name, eq_refl k.name, ==_refl k.index, ==_refl k.pc) refl

Keeps-append :
    (locs : Locations) (k : LocationKey) (x : PprofLocation) → Keeps locs (locs ++ ((k, x) ∷ []))
unfolding find_location
Keeps-append [] k x key loc h = cc
Keeps-append ((j, y) ∷ locs) k x key loc h = elim (Bool-cases (key_eq j key)) [
  | inl e ↦ rw e (rw e at h)
  | inr e ↦ rw e (Keeps-append locs k x key loc (rw e at h))
]

find_location-append :
    (locs : Locations) (k : LocationKey) (x : PprofLocation)
    → find_location k locs ≡ none
    → find_location k (locs ++ ((k, x) ∷ [])) ≡ some x
unfolding find_location
find_location-append [] k x h = rw (key_eq_refl k) refl
find_location-append ((j, y) ∷ locs) k x h = elim (Bool-cases (key_eq j k)) [
  | inl e ↦ absurd (nothing (rw e at h))
  | inr e ↦ rw e (find_location-append locs k x (rw e at h))
]
  where
    nothing : some y ≡ none → ⊥
    nothing e = cc

ok_inj : {A : Type 0} {x y : A} → ok x ≡ ok y → x ≡ y
ok_inj e = cc

panics : {A : Type 0} {x : A} → panic ≡ ok x → ⊥
panics e = cc

module _ (symbols : Function → ℕ → ℕ × List Location) where
  frame_location-IsPlace :
      (fn : Function) (pc : ℕ) (c : Caches)
      → IsPlace
          (frame_location symbols fn pc c).1.locations
          fn
          pc
          (frame_location symbols fn pc c).0
        × Keeps c.locations (frame_location symbols fn pc c).1.locations
  unfolding frame_location
  frame_location-IsPlace fn pc c =
      elim (Option-cases (find_location (make_location_key fn pc) c.locations)) [
        | inl e ↦
            rw (e, frame_location)
              (
                (_, find_location-append c.locations _ _ e, refl),
                Keeps-append c.locations (make_location_key fn pc) _,
              )
        | inr (loc, e) ↦ rw (e, frame_location) ((loc, e, refl), (λ key x h. h))
      ]

  ArePlaces-Keeps :
      (locs later : Locations) (fns : List Function) (pcs ids : List ℕ)
      → Keeps locs later
      → ArePlaces locs fns pcs ids
      → ArePlaces later fns pcs ids
  ArePlaces-Keeps locs later [] pcs [] k h = tt
  ArePlaces-Keeps locs later [] pcs (i ∷ ids) k h = elim h [ ]
  ArePlaces-Keeps locs later (fn ∷ fns) pcs [] k h = elim h [ ]
  ArePlaces-Keeps locs later (fn ∷ fns) [] (i ∷ ids) k h = elim h [ ]
  ArePlaces-Keeps locs later (fn ∷ fns) (pc ∷ pcs) (i ∷ ids) k ((loc, found, e), h) =
      ((loc, k _ loc found, e), ArePlaces-Keeps locs later fns pcs ids k h)

  -- The locations of a stack, and the caches behind them.
  abbrev Placed : List Function → List ℕ → Caches → List ℕ × Caches → Type 0
  Placed fns pcs c r = ArePlaces r.1.locations fns pcs r.0 × Keeps c.locations r.1.locations

  stack_locations-Placed :
      (fns : List Function) (pcs : List ℕ) (c : Caches) (r : List ℕ × Caches)
      → stack_locations symbols fns pcs c ≡ ok r
      → Placed fns pcs c r
  unfolding stack_locations
  stack_locations-Placed [] pcs c r e = subst (Placed [] pcs c) (ok_inj e) (tt, (λ key x h. h))
  stack_locations-Placed (fn ∷ fns) [] c r e = absurd (panics e)
  stack_locations-Placed (fn ∷ fns) (pc ∷ pcs) c r e =
      let first = frame_location symbols fn pc c in
      let ((loc, found, same), keeps) = frame_location-IsPlace fn pc c in
      let (rest, e1, last) = >>=-eq-ok (stack_locations symbols fns pcs first.1) _ e in
      let (places, kept) = stack_locations-Placed fns pcs first.1 rest e1 in
      subst (Placed (fn ∷ fns) (pc ∷ pcs) c) (ok_inj last)
        (((loc, kept _ loc found, same), places), (λ key x h. kept key x (keeps key x h)))

  abbrev Built : ℕ → List SampleType → Caches → List PprofSample × Caches → Type 0
  Built types samples c r =
      AreBuilt types r.1.locations samples r.0 × Keeps c.locations r.1.locations

  build_samples-Built :
      (types : ℕ) (samples : List SampleType) (c : Caches) (r : List PprofSample × Caches)
      → build_samples symbols types samples c ≡ ok r
      → Built types samples c r
  unfolding build_samples
  build_samples-Built types [] c r e = subst (Built types [] c) (ok_inj e) (tt, (λ key x h. h))
  build_samples-Built types (s ∷ samples) c r e =
      let st = s.sample_location in
      let (located, e1, more) = >>=-eq-ok (stack_locations symbols st.fns st.pcs c) _ e in
      let (built, e2, last) = >>=-eq-ok (build_samples symbols types samples located.1) _ more in
      let (places, keeps) = stack_locations-Placed st.fns st.pcs c located e1 in
      let (rest, kept) = build_samples-Built types samples located.1 built e2 in
      elim (Bool-cases (ltb (length s.sample_value) types)) [
        | inl short ↦ absurd (panics (rw short at last))
        | inr fits ↦ subst (Built types (s ∷ samples) c) (ok_inj (rw fits at last)) (
          (refl, ArePlaces-Keeps _ _ st.fns st.pcs located.0 kept places, rest),
          λ key x h. kept key x (keeps key x h),
        )
      ]

  pub build_samples-AreBuilt :
      (types : ℕ) (samples : List SampleType) (c after : Caches) (out : List PprofSample)
      → build_samples symbols types samples c ≡ ok (out, after)
      → AreBuilt types after.locations samples out
  build_samples-AreBuilt types samples c after out e =
      (build_samples-Built types samples c (out, after) e).0
