-- ===== src/Dwarf/Locations.antt =====
-- dwarf.go: `dwarfmapper`, from a source offset to locations. The line table of a compile unit is the
-- list of its rows, up to where `Next` returns an error or `io.EOF`. A row stands for its
-- `LineReaderPos` too: `Seek` to it and `Next` read the row again.
pub mod Rows
pub mod Inlines
pub mod Answers
pub mod Tests
use Prim.Native.String.{String, ◌++◌ as str_append}
use wzprof.Base.{
  ℕ, zero, suc, ◌^◌, List, [], ◌∷◌, ◌++◌, reverse, Bool, true, false, ◌&&◌, ◌||◌, not, Option, none,
  some, ◌==◌, ltb, leb, if◌then◌else◌, length, get_elem?, Outcome, ok, panic, stuck, or_panic,
  ◌>>=◌,
}
use wzprof.Profile.{Location}
use wzprof.Dwarf.{Entry, Range, EntryRanges, Subprogram, SubprogramRange}

-- `dwarf.LineEntry`. A nil `File` is `none`, and `files` is what `Files` returns once the row is
-- read.
pub record Row : Type 0 where
  pub address : ℕ
  pub file : Option String
  pub line : ℕ
  pub column : ℕ
  pub files : List (Option String)

abbrev pub or_empty : Option String → String
or_empty none = ""
or_empty (some s) = s

abbrev pub or_zero : Option ℕ → ℕ
or_zero none = 0
or_zero (some n) = n

-- The test of `Locations` and of `offsetInRanges` on one range.
abbrev pub in_range : ℕ → Range → Bool
in_range offset r = leb (r.low) offset && leb offset (r.high)

pub offset_in_ranges : List Range → ℕ → Bool
offset_in_ranges [] offset = false
offset_in_ranges (r ∷ ranges) offset = in_range offset r || offset_in_ranges ranges offset

-- The loop of `Locations` over the subprograms.
pub covering : ℕ → List SubprogramRange → Option Subprogram
covering offset [] = none
covering offset (sr ∷ subprograms) =
    if in_range offset (sr.range) then some (sr.subprogram) else covering offset subprograms

-- The choice of a row in `Locations`, on the sorted rows: `sort.Search`, and the row before. `prev`
-- is the row before the list.
pub line_of : ℕ → Option Row → List Row → Option Row
line_of offset prev [] = none
line_of offset prev (r ∷ rows) =
    if leb offset (r.address)
    then (if r.address == offset then some r else prev)
    else line_of offset (some r) rows

-- The loop over the subprograms in `namesForSubprogram`.
pub subprogram_at : ℕ → List SubprogramRange → Option Subprogram
subprogram_at offset [] = none
subprogram_at offset (sr ∷ subprograms) =
    if sr.subprogram.entry.offset == offset
    then some (sr.subprogram)
    else subprogram_at offset subprograms

abbrev pub namespace_of : Option Subprogram → String
namespace_of none = ""
namespace_of (some spgm) = spgm.namespace

-- The end of `namesForSubprogram`: the human name and the stable one.
pub names_in : String → Entry → String × String
names_in ns e =
    let name = str_append ns (or_empty (e.name)) in
    (name, elim e.linkage_name [ none ↦ name | some linkage ↦ linkage ])

abbrev pub or_found : Option Subprogram → Option Subprogram → Option Subprogram
or_found none found = found
or_found (some spgm) found = some spgm

-- What `Next` of a reader returns: an entry, nil at the end of the entries, or nil with an error.
pub data Next : Type 0 where
  entry : Entry → Next
  ended failed : Next

-- The subprogram in `namesForSubprogram`: the one given, or the one found. A nil entry panics as
-- soon as it is compared with that of a subprogram.
pub found_subprogram :
    Option Entry → Option Subprogram → List SubprogramRange → Outcome (Option Subprogram)
unfolding subprogram_at
found_subprogram (some e) spgm subprograms =
    ok (or_found spgm (subprogram_at (e.offset) subprograms))
found_subprogram none (some spgm) subprograms = ok (some spgm)
found_subprogram none none [] = ok none
found_subprogram none none (sr ∷ subprograms) = panic

-- The attributes of a nil entry cannot be read.
pub names_of : String → Option Entry → Outcome (String × String)
unfolding names_in
names_of ns none = panic
names_of ns (some e) = ok (names_in ns e)

-- `entry_at` is `Seek` and `Next` on a reader of the entries.
module _ (entry_at : ℕ → Next) where
  -- The loop of `namesForSubprogram`: an error breaks it with a nil entry, and at the end of the
  -- entries the next round reads an attribute of the nil entry, which panics. A chain of origins
  -- that has no end is followed for ever.
  pub origin : ℕ → Entry → Outcome (Option Entry)
  origin zero e = stuck
  origin (suc fuel) e = elim e.abstract_origin [
    | none ↦ ok (some e)
    | some ao ↦ elim (entry_at ao) [
      | entry from ↦ origin fuel from
      | ended ↦ panic
      | failed ↦ ok none
    ]
  ]

  pub names_for_subprogram :
      ℕ → List SubprogramRange → Entry → Option Subprogram → Outcome (String × String)
  unfolding found_subprogram names_of
  names_for_subprogram fuel subprograms e spgm = do
    e ← origin fuel e
    spgm ← found_subprogram e spgm subprograms
    names_of (namespace_of spgm) e

  -- A round of the loop over the inlined calls. An index that is negative, or whose file is nil,
  -- panics. The column is read from the attribute of the line, as
  -- in the code, and not from that of the column.
  pub inline_location :
      ℕ → List SubprogramRange → ℕ → List (Option String) → EntryRanges → Outcome (List Location)
  inline_location fuel subprograms offset files er = elim er.entry.call_file [
    | none ↦ ok []
    | some index ↦
        if (ltb index (2 ^ 63) && leb (length files) index)
          || not (offset_in_ranges (er.ranges) offset)
        then ok []
        else do
          file ← or_panic (get_elem? files index)
          (human, stable) ← names_for_subprogram fuel subprograms (er.entry) none
          file ← or_panic file
          ok (
              record {
                file = file;
                line = or_zero (er.entry.call_line);
                column = or_zero (er.entry.call_line);
                inlined = true;
                stable_name = stable;
                human_name = human;
              }
              ∷ [])
  ]

  pub inline_locations :
      ℕ
      → List SubprogramRange
      → ℕ
      → List (Option String)
      → List EntryRanges
      → Outcome (List Location)
  inline_locations fuel subprograms offset files [] = ok []
  inline_locations fuel subprograms offset files (er ∷ inlines) = do
    here ← inline_location fuel subprograms offset files er
    more ← inline_locations fuel subprograms offset files inlines
    ok (here ++ more)

  -- The end of `Locations`, once the row is read.
  pub row_locations : ℕ → List SubprogramRange → ℕ → Subprogram → Row → Outcome (List Location)
  row_locations fuel subprograms offset spgm row = do
    (human, stable) ← names_for_subprogram fuel subprograms (spgm.entry) (some spgm)
    file ← or_panic (row.file)
    inlined ← inline_locations fuel subprograms offset (row.files) (reverse (spgm.inlines))
    ok (
        record {
          file = file;
          line = row.line;
          column = row.column;
          inlined = false;
          stable_name = stable;
          human_name = human;
        }
        ∷ inlined)

  -- `Locations` of `dwarfmapper`, at the offset that the function gives for the PC. `line_reader` is
  -- `Data.LineReader` with the rows that it reads, and `sort_rows` is `sort.Slice` by address, which
  -- may put rows with one address in any order.
  pub locations :
      (Entry → Option (List Row))
      → (List Row → List Row)
      → ℕ
      → List SubprogramRange
      → ℕ
      → Outcome (ℕ × List Location)
  locations line_reader sort_rows fuel subprograms offset =
      if offset == 0 then ok (offset, []) else elim (covering offset subprograms) [
        | none ↦ ok (offset, [])
        | some spgm ↦ elim (line_reader (spgm.cu)) [
          | none ↦ ok (offset, [])
          | some rows ↦ elim (line_of offset none (sort_rows rows)) [
            | none ↦ ok (offset, [])
            | some row ↦
                row_locations fuel subprograms offset spgm row >>= (λ locs. ok (offset, locs))
          ]
        ]
      ]
