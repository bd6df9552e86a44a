-- ===== src/Profile/Ids.antt =====
-- The IDs that `buildProfile` gives out: in each cache they count up from 1, and every reference is to
-- one of them.
use Prim.Native.String.{String}
use wzprof.Base.{
  ℕ, suc, ◌+◌, ◌≤◌, ◌<◌, ◌≡◌, refl, ap, List, [], ◌∷◌, ◌++◌, Bool, true, false, some, length, All,
  take, ok, Option-cases, inl, inr, ltb, ge→ltb, arith, if◌then◌else◌, length-append,
}
use wzprof.Trace.{Function}
use wzprof.Profile.{
  Location, PprofFunction, PprofLocation, Line, Functions, find_function, correct, enter_function,
  enter_lines, with_defaults, LocationKey, Locations, find_location, Caches, no_caches, PprofSample,
  SampleType, location_for_call, frame_location, stack_locations, build_samples, make_location_key,
  is_nonempty,
}

-- The elements carry the IDs `n`, `n + 1` and so on.
abbrev pub AreNumbered : {K A : Type 0} → (A → ℕ) → ℕ → List (K × A) → Type 0
AreNumbered id n [] = Unit {0}
AreNumbered id n ((k, x) ∷ xs) = (id x ≡ n) × AreNumbered id (suc n) xs

-- An ID below `n + 1`, but not 0, which pprof reserves.
abbrev pub IsId : ℕ → ℕ → Type 0
IsId n i = (0 < i) × (i ≤ n)

AreNumbered-append :
    {K A : Type 0} (id : A → ℕ) (n : ℕ) (xs : List (K × A)) (k : K) (x : A)
    → AreNumbered id n xs
    → id x ≡ n + length xs
    → AreNumbered id n (xs ++ ((k, x) ∷ []))
AreNumbered-append id n [] k x h e = (omega arith, tt)
AreNumbered-append id n ((j, y) ∷ xs) k x h e =
    (h.0, AreNumbered-append id (suc n) xs k x h.1 (omega arith))

-- Functions.

abbrev function_id : PprofFunction → ℕ
function_id f = f.id

abbrev location_id : PprofLocation → ℕ
location_id l = l.id

find_function_id :
    (name : String) (n : ℕ) (fns : Functions) (f : PprofFunction)
    → AreNumbered function_id n fns
    → find_function name fns ≡ some f
    → (n ≤ f.id) × (f.id < n + length fns)
unfolding find_function
find_function_id name n [] f h e = cc
find_function_id name n ((k, g) ∷ fns) f h e =
    ground (arith, find_function_id name (suc n) fns f h.1)

length-correct :
    (name : String) (loc : Location) (fns : Functions) → length (correct name loc fns) ≡ length fns
unfolding correct
length-correct name loc [] = refl
length-correct name loc ((k, f) ∷ fns) = ground (arith, length-correct name loc fns)

correct-AreNumbered :
    (name : String) (loc : Location) (n : ℕ) (fns : Functions)
    → AreNumbered function_id n fns
    → AreNumbered function_id n (correct name loc fns)
unfolding correct
correct-AreNumbered name loc n [] h = tt
correct-AreNumbered name loc n ((k, f) ∷ fns) h =
    ground (arith, correct-AreNumbered name loc (suc n) fns h.1)

-- The map after a function came in: numbered, no shorter, and with the ID in it.
abbrev HasEntered : Functions → ℕ × Functions → Type 0
HasEntered fns r = AreNumbered function_id 1 r.1 × (length fns ≤ length r.1) × IsId (length r.1) r.0

new_bounds :
    (fns : Functions) (name : String) (f : PprofFunction)
    → (length fns ≤ length (fns ++ ((name, f) ∷ [])))
      × IsId (length (fns ++ ((name, f) ∷ []))) (length fns + 1)
new_bounds fns name f =
    let e = length-append fns ((name, f) ∷ []) in (omega arith, (omega arith, omega arith))

maybe_correct :
    (symbol_found : Bool) (loc : Location) (fns : Functions)
    → AreNumbered function_id 1 fns
    → AreNumbered function_id 1 (if symbol_found then correct loc.stable_name loc fns else fns)
      × (length (if symbol_found then correct loc.stable_name loc fns else fns) ≡ length fns)
maybe_correct true loc fns h =
    (correct-AreNumbered loc.stable_name loc 1 fns h, length-correct loc.stable_name loc fns)
maybe_correct false loc fns h = (h, refl)

enter_function-HasEntered :
    (symbol_found : Bool) (loc : Location) (fns : Functions)
    → AreNumbered function_id 1 fns
    → HasEntered fns (enter_function symbol_found loc fns)
unfolding enter_function
enter_function-HasEntered symbol_found loc fns h =
    elim (Option-cases (find_function loc.stable_name fns)) [
      | inl e ↦
          rw (e, enter_function)
            (
              AreNumbered-append function_id 1 fns _ _ h (omega arith),
              (new_bounds fns loc.stable_name _).0,
              (new_bounds fns loc.stable_name _).1,
            )
      | inr (f, e) ↦
          let same = maybe_correct symbol_found loc fns h in
          let is_id = find_function_id loc.stable_name 1 fns f h e in
          rw (e, enter_function)
            (same.0, omega (arith, same.1), (omega (arith, is_id), omega (arith, same.1, is_id)))
    ]

-- Lines.

abbrev pub LinesIn : ℕ → List Line → Type 0
LinesIn n [] = Unit {0}
LinesIn n (l ∷ lines) = IsId n l.function × LinesIn n lines

LinesIn-weaken : (m n : ℕ) (lines : List Line) → m ≤ n → LinesIn m lines → LinesIn n lines
LinesIn-weaken m n [] le h = tt
LinesIn-weaken m n (l ∷ lines) le h = ((omega arith, omega arith), LinesIn-weaken m n lines le h.1)

enter_lines_lem :
    (symbol_found : Bool) (locs : List Location) (lines : List Line) (fns : Functions)
    → AreNumbered function_id 1 fns
    → LinesIn (length fns) lines
    → (AreNumbered function_id 1 (enter_lines symbol_found locs lines fns).1
        × (length fns ≤ length (enter_lines symbol_found locs lines fns).1)
        × LinesIn
            (length (enter_lines symbol_found locs lines fns).1)
            (enter_lines symbol_found locs lines fns).0)
unfolding enter_lines
enter_lines_lem b [] lines fns h l = (h, omega arith, l)
enter_lines_lem b (loc ∷ locs) lines fns h l =
    let r : ℕ × Functions = enter_function b loc fns in
    let line : Line = record { function = r.0; line = loc.line } in
    let first : HasEntered fns r = enter_function-HasEntered b loc fns h in
    let rest =
      enter_lines_lem b locs (line ∷ lines) r.1 first.0
        (first.2, LinesIn-weaken (length fns) (length r.1) lines first.1 l) in
    (rest.0, omega arith, rest.2)

-- The caches: both numbered, the next ID after the last one, and every line with an ID of a function.

abbrev pub AllLinesIn : ℕ → Locations → Type 0
AllLinesIn n [] = Unit {0}
AllLinesIn n ((k, loc) ∷ locs) = LinesIn n loc.lines × AllLinesIn n locs

AllLinesIn-weaken : (m n : ℕ) (locs : Locations) → m ≤ n → AllLinesIn m locs → AllLinesIn n locs
AllLinesIn-weaken m n [] le h = tt
AllLinesIn-weaken m n ((k, loc) ∷ locs) le h =
    (LinesIn-weaken m n loc.lines le h.0, AllLinesIn-weaken m n locs le h.1)

AllLinesIn-append :
    (n : ℕ) (locs : Locations) (k : LocationKey) (loc : PprofLocation)
    → AllLinesIn n locs
    → LinesIn n loc.lines
    → AllLinesIn n (locs ++ ((k, loc) ∷ []))
AllLinesIn-append n [] k loc h l = (l, tt)
AllLinesIn-append n ((j, x) ∷ locs) k loc h l = (h.0, AllLinesIn-append n locs k loc h.1 l)

pub record IsDense (c : Caches) : Type 0 where
  pub next : c.location_id ≡ 1 + length c.locations
  pub locations : AreNumbered location_id 1 c.locations
  pub functions : AreNumbered function_id 1 c.functions
  pub lines : AllLinesIn (length c.functions) c.locations

find_location_id :
    (key : LocationKey) (n : ℕ) (locs : Locations) (loc : PprofLocation)
    → AreNumbered location_id n locs
    → find_location key locs ≡ some loc
    → (n ≤ loc.id) × (loc.id < n + length locs)
unfolding find_location
find_location_id key n [] loc h e = cc
find_location_id key n ((k, l) ∷ locs) loc h e =
    ground (arith, find_location_id key (suc n) locs loc h.1)

-- The stacks have a PC for each function, and the samples a value for each type.
abbrev pub AreSamples : ℕ → List SampleType → Type 0
AreSamples types [] = Unit {0}
AreSamples types (s ∷ samples) =
    (length s.sample_location.fns ≤ length s.sample_location.pcs)
    × (types ≤ length s.sample_value)
    × AreSamples types samples

-- Every location of the samples has an ID up to `n`.
abbrev pub SamplesIn : ℕ → List PprofSample → Type 0
SamplesIn n = All (λ (s : PprofSample). All (IsId n) s.location)

module _ (symbols : Function → ℕ → ℕ × List Location) where
  location_for_call_lem :
      (fn : Function) (pc : ℕ) (fns : Functions)
      → AreNumbered function_id 1 fns
      → (AreNumbered function_id 1 (location_for_call symbols fn pc fns).1
          × (length fns ≤ length (location_for_call symbols fn pc fns).1)
          × LinesIn
              (length (location_for_call symbols fn pc fns).1)
              ((location_for_call symbols fn pc fns).0).lines)
  unfolding location_for_call
  location_for_call_lem fn pc fns h =
      let found : ℕ × List Location = if ltb 0 pc then symbols fn pc else (0, []) in
      enter_lines_lem (is_nonempty found.1) (with_defaults fn.name found.1) [] fns h tt

  frame_location-IsDense :
      (fn : Function) (pc : ℕ) (c : Caches)
      → IsDense c
      → (IsDense (frame_location symbols fn pc c).1
          × (length c.locations ≤ length ((frame_location symbols fn pc c).1).locations)
          × IsId
              (length ((frame_location symbols fn pc c).1).locations)
              (frame_location symbols fn pc c).0)
  unfolding frame_location
  frame_location-IsDense fn pc c h =
      elim (Option-cases (find_location (make_location_key fn pc) c.locations)) [
        | inl e ↦
            let made = location_for_call_lem fn pc c.functions h.functions in
            let grown = length-append c.locations (
              (
                make_location_key fn pc,
                record ((location_for_call symbols fn pc c.functions).0) { id = c.location_id },
              )
              ∷ []) in
            rw (e, frame_location)
              (
                record {
                  next = omega arith;
                  locations =
                      AreNumbered-append location_id 1 c.locations _ _ h.locations
                        (omega (arith, h.next));
                  functions = made.0;
                  lines =
                      AllLinesIn-append _ c.locations _ _
                        (AllLinesIn-weaken _ _ c.locations made.1 h.lines) made.2;
                },
                omega arith,
                (omega (arith, h.next), omega (arith, h.next)),
              )
        | inr (loc, e) ↦
            let is_id =
              find_location_id (make_location_key fn pc) 1 c.locations loc h.locations e in
            rw (e, frame_location) (h, omega arith, (omega arith, omega arith))
      ]

  IsDense-stack :
      (fns : List Function) (pcs : List ℕ) (c : Caches)
      → IsDense c
      → length fns ≤ length pcs
      → (ids : List ℕ) × (after : Caches) × (stack_locations symbols fns pcs c ≡ ok (ids, after))
        × IsDense after
        × (length c.locations ≤ length after.locations)
        × All (IsId (length after.locations)) ids
  unfolding stack_locations
  IsDense-stack [] pcs c h l = ([], c, refl, h, omega arith, tt)
  IsDense-stack (fn ∷ fns) [] c h l = absurd (omega arith)
  IsDense-stack (fn ∷ fns) (pc ∷ pcs) c h l =
      let first = frame_location-IsDense fn pc c h in
      let (ids, after, e, dense, grown, all) =
        IsDense-stack fns pcs ((frame_location symbols fn pc c).1) first.0 (omega arith) in
      (
        (frame_location symbols fn pc c).0 ∷ ids,
        after,
        rw e refl,
        dense,
        omega (arith, first.1, grown),
        ((omega (arith, first.2), omega (arith, first.2, grown)), all),
      )

  IsId-weaken : (m n : ℕ) (ids : List ℕ) → m ≤ n → All (IsId m) ids → All (IsId n) ids
  IsId-weaken m n [] le h = tt
  IsId-weaken m n (i ∷ ids) le h = ((omega arith, omega arith), IsId-weaken m n ids le h.1)

  pub build_samples_lem :
      (types : ℕ) (samples : List SampleType) (c : Caches)
      → IsDense c
      → AreSamples types samples
      → (out : List PprofSample) × (after : Caches) × (build_samples symbols types samples c
          ≡ ok (out, after))
        × IsDense after
        × (length c.locations ≤ length after.locations)
        × SamplesIn (length after.locations) out
        × (length out ≡ length samples)
  unfolding build_samples
  build_samples_lem types [] c h l = ([], c, refl, h, omega arith, tt, refl)
  build_samples_lem types (s ∷ samples) c h l =
      let (ids, mid, e, dense, grown, all) =
        IsDense-stack s.sample_location.fns s.sample_location.pcs c h l.0 in
      let (out, after, f, dense_after, grown_after, rest, len) =
        build_samples_lem types samples mid dense l.2 in
      (
        record { location = ids; value = take types s.sample_value } ∷ out,
        after,
        rw (e, f, ge→ltb (length s.sample_value) types l.1) refl,
        dense_after,
        omega (arith, grown, grown_after),
        (IsId-weaken _ _ ids grown_after all, rest),
        ap suc len,
      )

pub no_caches-IsDense : IsDense no_caches
no_caches-IsDense = record { next = refl; locations = tt; functions = tt; lines = tt }
