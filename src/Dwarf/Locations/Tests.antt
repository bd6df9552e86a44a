-- ===== src/Dwarf/Locations/Tests.antt =====
-- The locations on a small line table.
use Prim.Native.String.{String}
use wzprof.Base.{
  ℕ, ◌^◌, ◌-◌, ◌==◌, if◌then◌else◌, ◌≡◌, refl, sym, subst, ◌∙◌, inr, List, [], ◌∷◌, Bool, true,
  false, Option, none, some, ok, panic, arith,
}
use wzprof.Profile.{Location}
use wzprof.Dwarf.{
  Tag, compile_unit, subprogram, inlined_subroutine, Entry, Range, Subprogram, SubprogramRange,
}
use wzprof.Dwarf.Locations.{
  Next, Row, covering, line_of, locations, names_for_subprogram, offset_in_ranges, subprogram_at,
  names_in, row_locations, origin, inline_locations, inline_location,
}
use wzprof.Dwarf.Locations.Rows.{AreSorted, IsRowOf, line_of-row, covering-adjacent}
use wzprof.Dwarf.Locations.Inlines.{names_for_subprogram-broken}
use wzprof.Dwarf.Locations.Answers.{IsDescribed, AreLocations, locations-AreLocations}

abbrev pub entry : ℕ → Tag → Bool → Option String → Option ℕ → Entry
entry offset tag children name abstract_origin = record {
  offset = offset;
  tag = tag;
  children = children;
  name = name;
  linkage_name = none;
  abstract_origin = abstract_origin;
  call_file = some 1;
  call_line = some 7;
  call_column = some 2;
}

abbrev pub range : ℕ → ℕ → Range
range low high = record { low = low; high = high }

abbrev pub unit_entry : Entry
unit_entry = entry 1 compile_unit true (some "unit") none

abbrev pub f : Entry
f = entry 3 subprogram true (some "f") none

abbrev pub inlined_g : Entry
inlined_g = entry 4 inlined_subroutine false none (some 5)

abbrev pub g : Entry
g = entry 5 subprogram false (some "g") none

abbrev pub spgm_f : Subprogram
spgm_f = record {
  entry = f;
  cu = unit_entry;
  inlines = record { entry = inlined_g; ranges = range 14 18 ∷ [] } ∷ [];
  namespace = "std:";
}

abbrev pub spgm_g : Subprogram
spgm_g = record { entry = g; cu = unit_entry; inlines = []; namespace = "std:" }

abbrev pub at : Range → Subprogram → SubprogramRange
at r s = record { range = r; subprogram = s }

abbrev pub subprograms : List SubprogramRange
subprograms = at (range 10 30) spgm_f ∷ at (range (2 ^ 64 - 1) (2 ^ 64 - 1)) spgm_g ∷ []

abbrev pub row : ℕ → ℕ → Row
row address line = record {
  address = address;
  file = some "a.c";
  line = line;
  column = 3;
  files = none ∷ some "a.c" ∷ [];
}

abbrev pub rows : List Row
rows = row 10 1 ∷ row 14 2 ∷ row 20 3 ∷ []

line_of-row_example : IsRowOf 16 rows (line_of 16 none rows)
line_of-row_example =
    line_of-row 16 rows ((omega arith, (omega arith, tt)), ((omega arith, tt), (tt, tt)))

covering-adjacent_example :
    covering 30 (at (range 10 30) spgm_f ∷ at (range 30 40) spgm_g ∷ []) ≡ some spgm_f
covering-adjacent_example =
    covering-adjacent [] (at (range 10 30) spgm_f) (at (range 30 40) spgm_g) [] tt (omega arith)
      refl

-- The entries by their offsets.
abbrev pub entry_at : ℕ → Next
entry_at offset =
    if offset == 3 then Next.entry f else if offset == 5 then Next.entry g else Next.failed

abbrev pub location : String → ℕ → ℕ → Bool → String → Location
location file line column inlined name = record {
  file = file;
  line = line;
  column = column;
  inlined = inlined;
  stable_name = name;
  human_name = name;
}

some_inj : {A : Type 0} {x y : A} → some x ≡ some y → x ≡ y
some_inj e = cc

abbrev Described : Subprogram → Row → Type 0
Described spgm r = IsDescribed entry_at (λ e. some rows) (λ rs. rs) 2 subprograms 16 spgm r

row-Described : Described spgm_f (row 14 2)
unfolding offset_in_ranges subprogram_at names_in
row-Described = (
  ("a.c", refl),
  ("std:f", "std:f", (0, f, (refl, refl), omega arith, refl)),
  (
    inr (
      "a.c",
      "std:g",
      "std:g",
      (
        1,
        refl,
        omega arith,
        refl,
        refl,
        (1, g, (5, g, refl, refl, (refl, refl)), omega arith, refl),
      ),
    ),
    tt,
  ),
)

picked : line_of 16 none rows ≡ some (row 14 2)
unfolding line_of
picked = refl

covered : covering 16 subprograms ≡ some spgm_f
unfolding covering
covered = refl

given :
    (spgm : Subprogram) (rs : List Row)
    → covering 16 subprograms ≡ some spgm
    → some rows ≡ some rs
    → AreSorted rs × ((r : Row) → line_of 16 none rs ≡ some r → Described spgm r)
given spgm rs c e =
    subst (λ rs. AreSorted rs × ((r : Row) → line_of 16 none rs ≡ some r → Described spgm r))
      (some_inj e)
      (
        ((omega arith, (omega arith, tt)), ((omega arith, tt), (tt, tt))),
        λ r h.
            subst (λ s. Described s r) (some_inj (sym covered ∙ c))
              (subst (Described spgm_f) (some_inj (sym picked ∙ h)) row-Described),
      )

locations-Answer_example :
    (locs : List Location) × (locations entry_at (λ e. some rows) (λ rs. rs) 2 subprograms 16
      ≡ ok (16, locs))
    × AreLocations entry_at (λ e. some rows) (λ rs. rs) 2 subprograms 16 locs
locations-Answer_example =
    locations-AreLocations entry_at (λ e. some rows) (λ rs. rs) 2 subprograms 16 given

inlined_run :
    locations entry_at (λ e. some rows) (λ rs. rs) 2 subprograms 16
    ≡ ok (16, location "a.c" 2 3 false "std:f" ∷ location "a.c" 7 7 true "std:g" ∷ [])
unfolding locations covering line_of row_locations names_for_subprogram origin inline_locations
    inline_location offset_in_ranges
inlined_run = refl

-- An entry whose origin is not there.
abbrev pub broken : Entry
broken = entry 8 inlined_subroutine false none (some 9)

names_for_subprogram-broken_example :
    names_for_subprogram entry_at 1 subprograms broken none ≡ panic
names_for_subprogram-broken_example =
    names_for_subprogram-broken entry_at 0 1 subprograms broken none (9, refl, tt) (omega arith)
