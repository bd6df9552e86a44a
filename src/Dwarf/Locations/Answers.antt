-- ===== src/Dwarf/Locations/Answers.antt =====
-- Every way in which `Locations` ends, on the entries, the rows and the ranges of a symbolizer.
use Prim.Native.String.{String}
use wzprof.Base.{
  ℕ, ◌≡◌, ◌≢◌, ◌⊎◌, refl, subst, ap, inl, inr, List, [], ◌∷◌, ◌++◌, reverse, true, false, Option,
  none, some, Option-cases, All, Bool-cases, ◌==◌, ==→eq, ==→ne, Outcome, ok, ◌>>=◌,
}
use wzprof.Profile.{Location}
use wzprof.Dwarf.{Entry, EntryRanges, Subprogram, SubprogramRange}
use wzprof.Dwarf.Locations.{Next, Row, in_range, covering, line_of, locations}
use wzprof.Dwarf.Locations.Rows.{AreSorted, IsRowOf, line_of-row}
use wzprof.Dwarf.Locations.Inlines.{AreNames, IsSkipped, IsCalled, Give, row_locations_lem}
use wzprof.Dwarf.Locations.Inlines

-- The subprogram of an offset: that of the first range that holds it. None, where no range does.
abbrev pub IsCoveredBy : ℕ → List SubprogramRange → Option Subprogram → Type 0
IsCoveredBy offset subprograms none =
    All (λ (sr : SubprogramRange). in_range offset (sr.range) ≡ false) subprograms
IsCoveredBy offset subprograms (some spgm) =
    (before : List SubprogramRange) × (sr : SubprogramRange) × (after : List SubprogramRange)
    × (subprograms ≡ before ++ (sr ∷ after))
    × All (λ (sr : SubprogramRange). in_range offset (sr.range) ≡ false) before
    × (in_range offset (sr.range) ≡ true)
    × (sr.subprogram ≡ spgm)

covering-IsCoveredBy :
    (offset : ℕ) (subprograms : List SubprogramRange)
    → IsCoveredBy offset subprograms (covering offset subprograms)
unfolding covering
covering-IsCoveredBy offset [] = tt
covering-IsCoveredBy offset (sr ∷ rest) = elim (Bool-cases (in_range offset (sr.range))) [
  | inl h ↦ rw h ([], sr, rest, refl, tt, h, refl)
  | inr h ↦ rw h (later (covering offset rest) h (covering-IsCoveredBy offset rest))
]
  where
    later :
        (o : Option Subprogram)
        → in_range offset (sr.range) ≡ false
        → IsCoveredBy offset rest o
        → IsCoveredBy offset (sr ∷ rest) o
    later none h c = (h, c)
    later (some spgm) h (before, by, after, e, out, held, same) = (
      sr ∷ before,
      by,
      after,
      ap (λ (rs : List SubprogramRange). sr ∷ rs) e,
      (h, out),
      held,
      same,
    )

module _ (entry_at : ℕ → Next) (line_reader : Entry → Option (List Row))
    (sort_rows : List Row → List Row) (fuel : ℕ) (subprograms : List SubprogramRange)
    (offset : ℕ) where
  -- What `Locations` reads of a subprogram and a row is there: the row's file, the names of the
  -- subprogram, and of each inlined call that is not skipped its file and its names.
  abbrev pub IsDescribed : Subprogram → Row → Type 0
  IsDescribed spgm row =
      ((file : String) × (row.file ≡ some file))
      × ((human : String) × (stable : String) × AreNames entry_at fuel subprograms (spgm.entry)
            (some spgm) human stable)
      × All
          (λ (er : EntryRanges).
            IsSkipped entry_at fuel subprograms offset (row.files) er
            ⊎ ((file : String) × (human : String) × (stable : String) × IsCalled entry_at fuel
                  subprograms offset (row.files) er file human stable))
          (reverse (spgm.inlines))

  -- The locations of an offset, and why they are these.
  pub data AreLocations : List Location → Type 0 where
    no_offset : offset ≡ 0 → AreLocations []
    no_subprogram : IsCoveredBy offset subprograms none → AreLocations []
    no_table :
        (spgm : Subprogram)
        → IsCoveredBy offset subprograms (some spgm)
        → line_reader (spgm.cu) ≡ none
        → AreLocations []
    no_row :
        (spgm : Subprogram) (rows : List Row)
        → IsCoveredBy offset subprograms (some spgm)
        → line_reader (spgm.cu) ≡ some rows
        → IsRowOf offset (sort_rows rows) none
        → AreLocations []
    located :
        (spgm : Subprogram) (rows : List Row) (row : Row) (file human stable : String)
        (inlined : List Location)
        → offset ≢ 0
        → IsCoveredBy offset subprograms (some spgm)
        → line_reader (spgm.cu) ≡ some rows
        → IsRowOf offset (sort_rows rows) (some row)
        → row.file ≡ some file
        → AreNames entry_at fuel subprograms (spgm.entry) (some spgm) human stable
        → Give entry_at fuel subprograms offset (row.files) (reverse (spgm.inlines)) inlined
        → AreLocations (
            record {
              file = file;
              line = row.line;
              column = row.column;
              inlined = false;
              stable_name = stable;
              human_name = human;
            }
            ∷ inlined)

  all-Give :
      (files : List (Option String)) (ers : List EntryRanges)
      → All
          (λ (er : EntryRanges).
            IsSkipped entry_at fuel subprograms offset files er
            ⊎ ((file : String) × (human : String) × (stable : String) × IsCalled entry_at fuel
                  subprograms offset files er file human stable))
          ers
      → (locs : List Location) × Give entry_at fuel subprograms offset files ers locs
  all-Give files [] h = ([], Inlines.done)
  all-Give files (er ∷ ers) (inl s, h) =
      let (locs, g) = all-Give files ers h in (locs, Inlines.skip er ers locs s g)
  all-Give files (er ∷ ers) (inr (file, human, stable, c), h) =
      let (locs, g) = all-Give files ers h in (_, Inlines.call er ers locs file human stable c g)

  abbrev Returned : Type 0
  Returned =
      (locs : List Location) × (locations entry_at line_reader sort_rows fuel subprograms offset
        ≡ ok (offset, locs))
      × AreLocations locs

  row-Returned :
      (spgm : Subprogram) (rows : List Row) (row : Row)
      → (offset == 0) ≡ false
      → covering offset subprograms ≡ some spgm
      → line_reader (spgm.cu) ≡ some rows
      → line_of offset none (sort_rows rows) ≡ some row
      → AreSorted (sort_rows rows)
      → IsDescribed spgm row
      → Returned
  unfolding locations
  row-Returned spgm rows row z c l r sorted ((file, f), (human, stable, names), calls) =
      let (locs, g) = all-Give (row.files) (reverse (spgm.inlines)) calls in
      (
        _,
        rw (z, c, l, r)
            (ap (λ (o : Outcome (List Location)). o >>= (λ locs. ok (offset, locs)))
              (row_locations_lem entry_at fuel subprograms offset spgm row file human stable locs f
                names g)),
        located spgm rows row file human stable locs (==→ne offset 0 z)
            (subst (IsCoveredBy offset subprograms) c (covering-IsCoveredBy offset subprograms)) l
            (subst (IsRowOf offset (sort_rows rows)) r (line_of-row offset (sort_rows rows) sorted))
            f names g,
      )

  -- `Locations` returns for every offset, with the offset and its locations, if the rows of the
  -- unit of the subprogram that holds the offset come sorted by address, and what is read of the
  -- subprogram and the row is there: a file, names at the ends of chains of origins shorter than
  -- the fuel, and for each inlined call these too, or a reason to skip it. There are no locations
  -- for one of four reasons only: the offset is 0, no range of a subprogram holds it, the unit has
  -- no line table, or no row is that of the offset. Else they are the location of the row, then
  -- those of the inlined calls whose ranges hold the offset and which have a file, the last
  -- recorded first. The column of an inlined call is the line of the call, whatever its column.
  pub locations-AreLocations :
      ((spgm : Subprogram) (rows : List Row)
        → covering offset subprograms ≡ some spgm
        → line_reader (spgm.cu) ≡ some rows
        → AreSorted (sort_rows rows)
          × ((row : Row) → line_of offset none (sort_rows rows) ≡ some row → IsDescribed spgm row))
      → (locs : List Location) × (locations entry_at line_reader sort_rows fuel subprograms offset
          ≡ ok (offset, locs))
        × AreLocations locs
  unfolding locations
  locations-AreLocations given = elim (Bool-cases (offset == 0)) [
    | inl z ↦ ([], rw z refl, no_offset (==→eq offset 0 z))
    | inr z ↦ elim (Option-cases (covering offset subprograms)) [
      | inl c ↦ ([], rw (z, c) refl, no_subprogram (covered none c))
      | inr (spgm, c) ↦ elim (Option-cases (line_reader (spgm.cu))) [
        | inl l ↦ ([], rw (z, c, l) refl, no_table spgm (covered (some spgm) c) l)
        | inr (rows, l) ↦ elim (Option-cases (line_of offset none (sort_rows rows))) [
          | inl r ↦ (
            [],
            rw (z, c, l, r) refl,
            no_row spgm rows (covered (some spgm) c) l (
                subst (IsRowOf offset (sort_rows rows)) r
                  (line_of-row offset (sort_rows rows) (given spgm rows c l).0)),
          )
          | inr (row, r) ↦
              row-Returned spgm rows row z c l r (given spgm rows c l).0
                ((given spgm rows c l).1 row r)
        ]
      ]
    ]
  ]
    where
      covered :
          (o : Option Subprogram)
          → covering offset subprograms ≡ o
          → IsCoveredBy offset subprograms o
      covered o c =
          subst (IsCoveredBy offset subprograms) c (covering-IsCoveredBy offset subprograms)
