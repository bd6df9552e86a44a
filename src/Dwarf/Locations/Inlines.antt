-- ===== src/Dwarf/Locations/Inlines.antt =====
-- The location of a row, those of the calls inlined there, and the names of their entries.
use Prim.Native.String.{String}
use wzprof.Base.{
  ℕ, zero, suc, ◌<◌, ◌≤◌, ◌≡◌, ◌⊎◌, ◌^◌, refl, sym, subst, ap, ◌∙◌, List, [], ◌∷◌, reverse, true,
  false, ◌&&◌, Option, none, some, length, get_elem?, ltb, leb, Bool-cases, le→leb, lt→ltb, gt→leb,
  Outcome, ok, panic, ◌>>=◌, arith, inl, inr,
}
use wzprof.Profile.{Location}
use wzprof.Dwarf.{Entry, EntryRanges, Subprogram, SubprogramRange}
use wzprof.Dwarf.Locations.{
  Next, entry, ended, failed, found_subprogram, names_of, Row, or_zero, offset_in_ranges,
  subprogram_at, origin, namespace_of, or_found, names_in, names_for_subprogram, inline_location,
  inline_locations, row_locations,
}

module _ (entry_at : ℕ → Next) where
  -- An entry and the one at the end of its chain of abstract origins.
  abbrev pub IsOrigin : ℕ → Entry → Entry → Type 0
  IsOrigin zero e o = (e.abstract_origin ≡ none) × (e ≡ o)
  IsOrigin (suc n) e o =
      (ao : ℕ) × (from : Entry) × (e.abstract_origin ≡ some ao)
      × (entry_at ao ≡ entry from)
      × IsOrigin n from o

  origin_own :
      (fuel : ℕ) (e : Entry) → e.abstract_origin ≡ none → origin entry_at (suc fuel) e ≡ ok (some e)
  unfolding origin
  origin_own fuel e h = simp (origin, h)

  origin_from :
      (fuel : ℕ) (e from : Entry) (ao : ℕ)
      → e.abstract_origin ≡ some ao
      → entry_at ao ≡ entry from
      → origin entry_at (suc fuel) e ≡ origin entry_at fuel from
  unfolding origin
  origin_from fuel e from ao h k = simp (origin, h, k)

  origin-end :
      (n fuel : ℕ) (e o : Entry) → IsOrigin n e o → n < fuel → origin entry_at fuel e ≡ ok (some o)
  origin-end n zero e o w l = absurd (omega arith)
  origin-end zero (suc fuel) e o w l = origin_own fuel e w.0 ∙ ap (λ (x : Entry). ok (some x)) w.1
  origin-end (suc n) (suc fuel) e o (ao, from, h, k, w) l =
      origin_from fuel e from ao h k ∙ origin-end n fuel from o w (omega arith)

  module _ (fuel : ℕ) (subprograms : List SubprogramRange) where
    -- The names of an entry: those of its origin, under the namespace of the subprogram given or
    -- of the one whose entry is the origin.
    abbrev pub AreNames : Entry → Option Subprogram → String → String → Type 0
    AreNames e spgm human stable =
        (n : ℕ) × (o : Entry) × IsOrigin n e o
        × (n < fuel)
        × (names_in (namespace_of (or_found spgm (subprogram_at (o.offset) subprograms))) o
            ≡ (human, stable))

    names_for_subprogram_lem :
        (e : Entry) (spgm : Option Subprogram) (human stable : String)
        → AreNames e spgm human stable
        → names_for_subprogram entry_at fuel subprograms e spgm ≡ ok (human, stable)
    unfolding names_for_subprogram found_subprogram names_of
    names_for_subprogram_lem e spgm human stable (n, o, w, l, h) =
        rw (origin-end n fuel e o w l) (ap (λ (x : String × String). ok x) h)

    module _ (offset : ℕ) (files : List (Option String)) where
      -- An inlined call that gives no location.
      abbrev pub IsSkipped : EntryRanges → Type 0
      IsSkipped er =
          (er.entry.call_file ≡ none)
          ⊎ ((index : ℕ) × (er.entry.call_file ≡ some index)
              × ((offset_in_ranges (er.ranges) offset ≡ false)
                  ⊎ ((length files ≤ index) × (index < 2 ^ 63))))

      -- An inlined call that holds the offset, with a file of the table.
      abbrev pub IsCalled : EntryRanges → String → String → String → Type 0
      IsCalled er file human stable =
          (index : ℕ) × (er.entry.call_file ≡ some index)
          × (index < length files)
          × (get_elem? files index ≡ some (some file))
          × (offset_in_ranges (er.ranges) offset ≡ true)
          × AreNames (er.entry) none human stable

      abbrev pub called : EntryRanges → String → String → String → Location
      called er file human stable = record {
        file = file;
        line = or_zero (er.entry.call_line);
        column = or_zero (er.entry.call_line);
        inlined = true;
        stable_name = stable;
        human_name = human;
      }

      -- The locations of inlined calls, in order.
      pub data Give : List EntryRanges → List Location → Type 0 where
        done : Give [] []
        skip :
            (er : EntryRanges) (ers : List EntryRanges) (locs : List Location)
            → IsSkipped er
            → Give ers locs
            → Give (er ∷ ers) locs
        call :
            (er : EntryRanges) (ers : List EntryRanges) (locs : List Location)
            (file human stable : String)
            → IsCalled er file human stable
            → Give ers locs
            → Give (er ∷ ers) (called er file human stable ∷ locs)

      inline_location-skipped :
          (er : EntryRanges)
          → IsSkipped er
          → inline_location entry_at fuel subprograms offset files er ≡ ok []
      unfolding inline_location
      inline_location-skipped er (inl h) = simp (inline_location, h)
      inline_location-skipped er (inr (index, h, inl k)) =
          elim (Bool-cases (ltb index (2 ^ 63) && leb (length files) index)) [
            | inl b ↦ simp (inline_location, h, b, k)
            | inr b ↦ simp (inline_location, h, b, k)
          ]
      inline_location-skipped er (inr (index, h, inr (l, m))) =
          simp (inline_location, h, lt→ltb index (2 ^ 63) m, le→leb (length files) index l)

      inline_location-called :
          (er : EntryRanges) (file human stable : String)
          → IsCalled er file human stable
          → inline_location entry_at fuel subprograms offset files er
            ≡ ok (called er file human stable ∷ [])
      unfolding inline_location
      inline_location-called er file human stable (index, h, l, k, b, names) =
          elim (Bool-cases (ltb index (2 ^ 63))) [
            | inl c ↦ simp (
              inline_location,
              h,
              c,
              gt→leb (length files) index l,
              b,
              k,
              names_for_subprogram_lem (er.entry) none human stable names,
            )
            | inr c ↦ simp (
              inline_location,
              h,
              c,
              b,
              k,
              names_for_subprogram_lem (er.entry) none human stable names,
            )
          ]

      inline_locations-Give :
          (ers : List EntryRanges) (locs : List Location)
          → Give ers locs
          → inline_locations entry_at fuel subprograms offset files ers ≡ ok locs
      unfolding inline_locations
      inline_locations-Give ers locs done = refl
      inline_locations-Give ers locs (skip er rest more s g) =
          rw (inline_location-skipped er s, inline_locations-Give rest more g) refl
      inline_locations-Give ers locs (call er rest more file human stable c g) =
          rw (inline_location-called er file human stable c, inline_locations-Give rest more g) refl

    pub row_locations_lem :
        (offset : ℕ) (spgm : Subprogram) (row : Row) (file human stable : String)
        (locs : List Location)
        → row.file ≡ some file
        → AreNames (spgm.entry) (some spgm) human stable
        → Give offset (row.files) (reverse (spgm.inlines)) locs
        → row_locations entry_at fuel subprograms offset spgm row
          ≡ ok (
              record {
                file = file;
                line = row.line;
                column = row.column;
                inlined = false;
                stable_name = stable;
                human_name = human;
              }
              ∷ locs)
    unfolding row_locations
    row_locations_lem offset spgm row file human stable locs f names g = simp (
      row_locations,
      names_for_subprogram_lem (spgm.entry) (some spgm) human stable names,
      f,
      inline_locations-Give offset (row.files) (reverse (spgm.inlines)) locs g,
    )

  abbrev pub IsNil : Next → Type 0
  IsNil (entry e) = ⊥
  IsNil ended = Unit {0}
  IsNil failed = Unit {0}

  -- An entry whose chain of origins leads to an offset at which no entry can be read.
  abbrev pub IsBroken : ℕ → Entry → Type 0
  IsBroken zero e = (ao : ℕ) × (e.abstract_origin ≡ some ao) × IsNil (entry_at ao)
  IsBroken (suc n) e =
      (ao : ℕ) × (from : Entry) × (e.abstract_origin ≡ some ao)
      × (entry_at ao ≡ entry from)
      × IsBroken n from

  -- A chain that is broken ends in a panic, at the end of the entries, or with a nil entry, by an
  -- error.
  abbrev IsLost : Outcome (Option Entry) → Type 0
  IsLost o = (o ≡ panic) ⊎ (o ≡ ok none)

  origin-IsLost :
      (fuel : ℕ) (e : Entry) (ao : ℕ) (next : Next)
      → e.abstract_origin ≡ some ao
      → entry_at ao ≡ next
      → IsNil next
      → IsLost (origin entry_at (suc fuel) e)
  unfolding origin
  origin-IsLost fuel e ao (entry from) h k w = elim w [ ]
  origin-IsLost fuel e ao ended h k w = inl (simp (origin, h, k))
  origin-IsLost fuel e ao failed h k w = inr (simp (origin, h, k))

  origin-broken :
      (n fuel : ℕ) (e : Entry) → IsBroken n e → n < fuel → IsLost (origin entry_at fuel e)
  origin-broken n zero e w l = absurd (omega arith)
  origin-broken zero (suc fuel) e (ao, h, w) l = origin-IsLost fuel e ao (entry_at ao) h refl w
  origin-broken (suc n) (suc fuel) e (ao, from, h, k, w) l =
      subst IsLost (sym (origin_from fuel e from ao h k))
        (origin-broken n fuel from w (omega arith))

  -- Behind a nil entry, the search for the subprogram panics or leads to the attributes of the entry,
  -- which do.
  names-nil :
      (spgm : Option Subprogram) (subprograms : List SubprogramRange)
      → (found_subprogram none spgm subprograms >>= (λ s. names_of (namespace_of s) none)) ≡ panic
  unfolding found_subprogram names_of
  names-nil (some spgm) subprograms = refl
  names-nil none [] = refl
  names-nil none (sr ∷ subprograms) = refl

  -- If the chain of abstract origins of an entry leads to an offset at which `Next` returns no
  -- entry, be it by an error, as in malformed DWARF, which breaks the loop, or at the end of the
  -- entries, then `namesForSubprogram` panics, whatever subprograms there are and whether it is
  -- given one.
  pub names_for_subprogram-broken :
      (n fuel : ℕ) (subprograms : List SubprogramRange) (e : Entry) (spgm : Option Subprogram)
      → IsBroken n e
      → n < fuel
      → names_for_subprogram entry_at fuel subprograms e spgm ≡ panic
  unfolding names_for_subprogram
  names_for_subprogram-broken n fuel subprograms e spgm w l = elim (origin-broken n fuel e w l) [
    | inl h ↦ rw h refl
    | inr h ↦ rw h (names-nil spgm subprograms)
  ]
