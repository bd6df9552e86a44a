-- ===== src/Profile.antt =====
-- wzprof.go: building a pprof profile from the samples of a profiler.
pub mod Ids
pub mod Slots
pub mod Places
pub mod Values
mod Tests
use Prim.Native.String.{String}
use text.Mathlib.Text.{◌==◌ as str_eq}
use wzprof.Base.{
  ℕ, zero, suc, ◌+◌, ◌-◌, ◌*◌, List, [], ◌∷◌, ◌++◌, map, Bool, true, false, ◌&&◌, Option, none,
  some, ◌==◌, ltb, leb, if◌then◌else◌, length, take, set, replicate, Outcome, ok, panic, ◌>>=◌,
}
use wzprof.Trace.{Function, StackTrace}

abbrev pub is : String → String → Bool
is a b = str_eq a b

-- `location`: what a symbolizer tells of a PC.
pub record Location : Type 0 where
  pub file : String
  pub line : ℕ
  pub column : ℕ
  pub inlined : Bool
  pub stable_name : String
  pub human_name : String

abbrev pub no_location : Location
no_location = record {
  file = "";
  line = 0;
  column = 0;
  inlined = false;
  stable_name = "";
  human_name = "";
}

-- pprof's `Function`, `Line` and `Location`, with the fields that the code sets. A line points at
-- its function by the function's ID.
pub record PprofFunction : Type 0 where
  pub id : ℕ
  pub name : String
  pub system_name : String
  pub filename : String

pub record Line : Type 0 where
  pub function : ℕ
  pub line : ℕ

pub record PprofLocation : Type 0 where
  pub id : ℕ
  pub address : ℕ
  pub lines : List Line

-- The map of functions by stable name, in the order in which they came in.
abbrev pub Functions : Type 0
Functions = List (String × PprofFunction)

pub find_function : String → Functions → Option PprofFunction
find_function name [] = none
find_function name ((k, f) ∷ fns) = if is k name then some f else find_function name fns

-- The write through the pointer that the map holds under a name.
pub correct : String → Location → Functions → Functions
correct name loc [] = []
correct name loc ((k, f) ∷ fns) =
    if is k name
    then (k, record f { name = loc.human_name; system_name = loc.stable_name; filename = loc.file })
      ∷ fns
    else (k, f) ∷ correct name loc fns

-- One round of the loop of `locationForCall` on the map: the function's ID with it.
pub enter_function : Bool → Location → Functions → ℕ × Functions
unfolding find_function correct
enter_function symbol_found loc fns = elim (find_function loc.stable_name fns) [
  | none ↦
      let made : PprofFunction = record {
        id = length fns + 1;
        name = loc.human_name;
        system_name = loc.stable_name;
        filename = loc.file;
      } in
      (length fns + 1, fns ++ ((loc.stable_name, made) ∷ []))
  | some f ↦ (f.id, if symbol_found then correct loc.stable_name loc fns else fns)
]

-- The loop of `locationForCall`, on the lines filled so far, which are the last ones.
pub enter_lines : Bool → List Location → List Line → Functions → List Line × Functions
unfolding enter_function
enter_lines symbol_found [] lines fns = (lines, fns)
enter_lines symbol_found (loc ∷ locs) lines fns =
    let entered = enter_function symbol_found loc fns in
    enter_lines symbol_found locs (record { function = entered.0; line = loc.line } ∷ lines)
      entered.1

-- The defaults for the first location, or for the one there is when the symbolizer has none.
pub with_defaults : String → List Location → List Location
with_defaults name [] = record no_location { stable_name = name; human_name = name } ∷ []
with_defaults name (loc ∷ locs) =
    record loc {
      stable_name = if is loc.stable_name "" then name else loc.stable_name;
      human_name = if is loc.human_name "" then name else loc.human_name;
    }
    ∷ locs

abbrev pub is_nonempty : List Location → Bool
is_nonempty [] = false
is_nonempty (loc ∷ locs) = true

-- `locationKey`.
pub record LocationKey : Type 0 where
  pub module_name : String
  pub index : ℕ
  pub name : String
  pub pc : ℕ

-- `makeLocationKey`, and the equality of keys.
abbrev pub make_location_key : Function → ℕ → LocationKey
make_location_key fn pc = record {
  module_name = fn.module_name;
  index = fn.index;
  name = fn.name;
  pc = pc;
}

pub key_eq : LocationKey → LocationKey → Bool
key_eq a b =
    is a.module_name b.module_name && (a.index == b.index) && is a.name b.name && (a.pc == b.pc)

-- The map of locations by key, in the order in which they came in.
abbrev pub Locations : Type 0
Locations = List (LocationKey × PprofLocation)

pub find_location : LocationKey → Locations → Option PprofLocation
unfolding key_eq
find_location key [] = none
find_location key ((k, loc) ∷ locs) = if key_eq k key then some loc else find_location key locs

-- The two caches and `locationID`.
pub record Caches : Type 0 where
  pub location_id : ℕ
  pub locations : Locations
  pub functions : Functions

abbrev pub no_caches : Caches
no_caches = record { location_id = 1; locations = []; functions = [] }

-- pprof's `Sample`, its locations by their IDs, and the profile.
pub record PprofSample : Type 0 where
  pub location : List ℕ
  pub value : List ℕ

pub record Profile : Type 0 where
  pub samples : List PprofSample
  pub locations : List (Option PprofLocation)
  pub functions : List (Option PprofFunction)

-- A `sampleType`: its stack and all of its values.
pub record SampleType : Type 0 where
  pub sample_location : StackTrace
  pub sample_value : List ℕ

-- The loops that put each element in the slot of its ID; an index out of range panics.
pub fill : {A : Type 0} → (A → ℕ) → List A → List (Option A) → Outcome (List (Option A))
fill id [] slots = ok slots
fill id (x ∷ xs) slots =
    let rest = fill id xs (set slots (id x - 1) (some x)) in
    if ltb 0 (id x) && leb (id x) (length slots) then rest else panic

-- `symbolizer.Locations` is a parameter.
module _ (symbols : Function → ℕ → ℕ × List Location) where
  -- `locationForCall`. Its location has no ID yet.
  pub location_for_call : Function → ℕ → Functions → PprofLocation × Functions
  unfolding enter_lines with_defaults
  location_for_call fn pc fns =
      let found : ℕ × List Location = if ltb 0 pc then symbols fn pc else (0, []) in
      let entered = enter_lines (is_nonempty found.1) (with_defaults fn.name found.1) [] fns in
      (record { id = 0; address = found.0; lines = entered.0 }, entered.1)

  -- One round of the inner loop of `buildProfile`: the location's ID and the caches.
  pub frame_location : Function → ℕ → Caches → ℕ × Caches
  unfolding find_location location_for_call
  frame_location fn pc c = elim (find_location (make_location_key fn pc) c.locations) [
    | none ↦
        let made = location_for_call fn pc c.functions in
        let loc : PprofLocation = record made.0 { id = c.location_id } in
        (
          c.location_id,
          record {
            location_id = c.location_id + 1;
            locations = c.locations ++ ((make_location_key fn pc, loc) ∷ []);
            functions = made.1;
          },
        )
    | some loc ↦ (loc.id, c)
  ]

  pub stack_locations : List Function → List ℕ → Caches → Outcome (List ℕ × Caches)
  unfolding frame_location
  stack_locations [] pcs c = ok ([], c)
  stack_locations (fn ∷ fns) [] c = panic
  stack_locations (fn ∷ fns) (pc ∷ pcs) c = do
    let first = frame_location fn pc c
    (rest, c) ← stack_locations fns pcs first.1
    ok (first.0 ∷ rest, c)

  -- The outer loop of `buildProfile`, for `types` types of values.
  pub build_samples : ℕ → List SampleType → Caches → Outcome (List PprofSample × Caches)
  unfolding stack_locations
  build_samples types [] c = ok ([], c)
  build_samples types (s ∷ samples) c = do
    (location, c) ← stack_locations s.sample_location.fns s.sample_location.pcs c
    (rest, c) ← build_samples types samples c
    if ltb (length s.sample_value) types
        then panic
        else ok (record { location = location; value = take types s.sample_value } ∷ rest, c)

  -- `buildProfile` up to the scaling of the values. Go ranges over a map in any order: the samples
  -- come in that order, and the two parameters put the caches in one.
  pub build_profile :
      (Locations → Locations) → (Functions → Functions) → ℕ → List SampleType → Outcome Profile
  unfolding build_samples fill
  build_profile range_locations range_functions types samples = do
    (out, c) ← build_samples types samples no_caches
    locations ←
        fill (λ (l : PprofLocation). l.id)
          (map (λ (e : LocationKey × PprofLocation). e.1) (range_locations c.locations))
          (replicate (length c.locations) none)
    functions ←
        fill (λ (f : PprofFunction). f.id)
          (map (λ (e : String × PprofFunction). e.1) (range_functions c.functions))
          (replicate (length c.functions) none)
    ok (record { samples = out; locations = locations; functions = functions })
