-- ===== src/Dwarf.antt =====
-- dwarf.go: the parser of DWARF entries into subprograms. `debug/dwarf` reads the entries: a reader is
-- the list of the entries that are left, in the order of the section. It ends where `Next` returns an
-- error or no entry, which the parser treats alike.
pub mod Sections
pub mod Units
pub mod Forest
pub mod Parse
pub mod Locations
mod Tests
use Prim.Native.String.{String, ◌++◌ as str_append}
use wzprof.Base.{
  ℕ, zero, suc, ◌-◌, ◌^◌, List, [], ◌∷◌, ◌++◌, map, Bool, true, false, Option, none, some, length,
  Outcome, ok, stuck, ◌>>=◌,
}

-- The tags that the parser tells apart. `null` is the tag 0, which ends a list of children.
pub data Tag : Type 0 where
  null compile_unit subprogram namespace inlined_subroutine variable : Tag
  other : ℕ → Tag

-- `dwarf.Entry`, with the attributes that the code reads. A number is an `int64` as its bits.
pub record Entry : Type 0 where
  pub offset : ℕ
  pub tag : Tag
  pub children : Bool
  pub name : Option String
  pub linkage_name : Option String
  pub abstract_origin : Option ℕ
  pub call_file : Option ℕ
  pub call_line : Option ℕ
  pub call_column : Option ℕ

-- `sourceOffsetRange`, `entryRanges`, `subprogram` and `subprogramRange`.
pub record Range : Type 0 where
  pub low : ℕ
  pub high : ℕ

pub record EntryRanges : Type 0 where
  pub entry : Entry
  pub ranges : List Range

pub record Subprogram : Type 0 where
  pub entry : Entry
  pub cu : Entry
  pub inlines : List EntryRanges
  pub namespace : String

pub record SubprogramRange : Type 0 where
  pub range : Range
  pub subprogram : Subprogram

-- `dwarfparser`: its reader and the subprograms found so far.
pub record DwarfParser : Type 0 where
  pub reader : List Entry
  pub subprograms : List SubprogramRange

abbrev pub is_null : Tag → Bool
is_null null = true
is_null tag = false

abbrev pub is_inlined : Tag → Bool
is_inlined inlined_subroutine = true
is_inlined tag = false

abbrev pub is_compile_unit : Tag → Bool
is_compile_unit compile_unit = true
is_compile_unit tag = false

-- How many lists of children are open after an entry, when `depth` of them are to be skipped.
abbrev pub depth_after : Bool → Bool → ℕ → ℕ
depth_after true children depth = depth - 1
depth_after false true depth = suc depth
depth_after false false depth = depth

-- What follows `depth` open lists of children.
pub skip_lists : ℕ → List Entry → List Entry
skip_lists zero reader = reader
skip_lists (suc depth) [] = []
skip_lists (suc depth) (e ∷ reader) =
    skip_lists (depth_after (is_null e.tag) e.children (suc depth)) reader

-- `Reader.SkipChildren`, after `Next` returned the entry.
pub skip_children : Entry → List Entry → List Entry
unfolding skip_lists
skip_children e reader = elim e.children [ true ↦ skip_lists 1 reader | false ↦ reader ]

-- The range of a subprogram that has none.
abbrev pub no_range : Range
no_range = record { low = 2 ^ 64 - 1; high = 2 ^ 64 - 1 }

abbrev pub or_no_range : List Range → List Range
or_no_range [] = no_range ∷ []
or_no_range (r ∷ ranges) = r ∷ ranges

-- The name of a namespace, put behind the names of those around it.
pub enter_namespace : String → Entry → String
enter_namespace ns e = elim e.name [ none ↦ ns | some name ↦ str_append ns (str_append name ":") ]

-- `Data.Ranges` is a parameter; `none` is its error.
module _ (ranges_of : Entry → Option (List Range)) where
  -- The inlined calls that one child of a subprogram adds.
  pub inline_of : Entry → List EntryRanges
  inline_of e = elim (is_inlined e.tag) [
    | true ↦ elim (ranges_of e) [
      | none ↦ []
      | some ranges ↦ record { entry = e; ranges = ranges } ∷ []
    ]
    | false ↦ []
  ]

  -- The loop of `parseSubprogram`. A round reads an entry, so the length of the reader is fuel enough.
  pub inlines_loop : ℕ → List Entry → List EntryRanges → Outcome (List EntryRanges × List Entry)
  inlines_loop zero reader inlines = stuck
  inlines_loop (suc fuel) [] inlines = ok (inlines, [])
  inlines_loop (suc fuel) (e ∷ reader) inlines = elim (is_null e.tag) [
    | true ↦ ok (inlines, reader)
    | false ↦ inlines_loop fuel (skip_children e reader) (inlines ++ inline_of e)
  ]

  pub read_inlines : Entry → List Entry → Outcome (List EntryRanges × List Entry)
  read_inlines e reader = elim e.children [
    | true ↦ inlines_loop (suc (length reader)) reader []
    | false ↦ ok ([], reader)
  ]

  -- The end of `parseSubprogram`: one element for each range, and one for none.
  pub ranges_found : Entry → String → Entry → List EntryRanges → List SubprogramRange
  ranges_found cu ns e inlines = elim (ranges_of e) [
    | none ↦ []
    | some ranges ↦
        let spgm : Subprogram = record { entry = e; cu = cu; inlines = inlines; namespace = ns } in
        map (λ (r : Range). record { range = r; subprogram = spgm }) (or_no_range ranges)
  ]

  -- `parseSubprogram`.
  pub parse_subprogram : Entry → String → Entry → DwarfParser → Outcome DwarfParser
  parse_subprogram cu ns e d = do
    (inlines, reader) ← read_inlines e d.reader
    ok (record { reader = reader; subprograms = d.subprograms ++ ranges_found cu ns e inlines })

  -- The switch of `parseAny` on an entry that was read. `inner` is the call of `parseAny` on the
  -- children of an entry that has some or none, under a namespace; `again` goes on with the loop.
  pub parse_entry :
      Tag
      → Entry
      → String
      → Entry
      → (String → Bool → DwarfParser → Outcome DwarfParser)
      → (DwarfParser → Outcome DwarfParser)
      → DwarfParser
      → Outcome DwarfParser
  parse_entry null cu ns e inner again d = ok d
  parse_entry subprogram cu ns e inner again d = parse_subprogram cu ns e d >>= again
  parse_entry namespace cu ns e inner again d = inner (enter_namespace ns e) cu.children d >>= again
  parse_entry compile_unit cu ns e inner again d = inner ns e.children d >>= again
  parse_entry inlined_subroutine cu ns e inner again d = inner ns e.children d >>= again
  parse_entry variable cu ns e inner again d = inner ns e.children d >>= again
  parse_entry (other n) cu ns e inner again d = inner ns e.children d >>= again

  -- `parseAny` under an entry that has children or not. `parseCompileUnit` calls it on the compile
  -- unit, and `parseNamespace` calls that, so a namespace is read as if it were the unit.
  pub parse_any : ℕ → Entry → String → Bool → DwarfParser → Outcome DwarfParser
  parse_any zero cu ns children d = stuck
  parse_any (suc fuel) cu ns children d = elim children [
    | true ↦ elim d.reader [
      | [] ↦ ok d
      | e ∷ reader ↦
          parse_entry e.tag cu ns e (parse_any fuel cu) (parse_any fuel cu ns true)
            (record d { reader = reader })
    ]
    | false ↦ ok d
  ]

  -- `Parse`. The fuel of each unit is the length of the reader.
  pub parse_units : ℕ → DwarfParser → Outcome DwarfParser
  parse_units zero d = stuck
  parse_units (suc fuel) d = elim d.reader [
    | [] ↦ ok d
    | e ∷ reader ↦ elim (is_compile_unit e.tag) [
      | true ↦
          parse_any (suc (length reader)) e "" e.children (record d { reader = reader })
          >>= parse_units fuel
      | false ↦ parse_units fuel (record d { reader = skip_children e reader })
    ]
  ]

  pub parse : List Entry → Outcome (List SubprogramRange)
  parse entries =
      parse_units (suc (length entries)) (record { reader = entries; subprograms = [] })
      >>= (λ d. ok (d.subprograms))
