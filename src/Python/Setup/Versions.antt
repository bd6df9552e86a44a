-- ===== src/Python/Setup/Versions.antt =====
-- Which binaries `supportedPython` takes for CPython 3.11.
use wzprof.Base.{
  ℕ, zero, suc, ◌+◌, false, ◌-◌, ◌*◌, ◌^◌, ◌≤◌, ◌<◌, ◌≡◌, ◌≢◌, refl, ap, ◌∙◌, List, [], ◌∷◌, ◌++◌,
  Option, some, ge→ltb, lt→ltb, le→leb, gt→leb, ne→==, length, length-append, Outcome, ok, arith,
}
use wzprof.Base.Words.{add64, sub64}
use wzprof.WasmBin.Leb.{slice_from-append, uvarint_bytes}
use wzprof.WasmBin.Sections.{
  Section, sections_bytes, AreSections, data_content, wasmdata_section-sections,
}
use wzprof.WasmBin.Segments.{
  iterator, IsSegment, AreSegments, segment_bytes, put_segments, data_bytes,
  new_data_iterator-bytes, moved_over, next-first, next-none,
}
use wzprof.Pclntab.{le_number}
use wzprof.Dwarf.{Entry}
use wzprof.Dwarf.Sections.{DebugSections, sections_of, new_dwarf_parser_from_bin-sections}
use wzprof.Python.Setup.{
  LocationAttr, version_in, version_loop, version_at, is_311, python_address, supported_python,
}

-- A segment that starts at the version or before, and does not go past its four bytes.
abbrev pub EndsBy : ℕ → ℕ × List ℕ → Type 0
EndsBy version_addr (addr, seg) = (addr ≤ version_addr) × (addr + length seg ≤ version_addr + 4)

module _ (version_addr : ℕ) (word : version_addr < 2 ^ 32) where
  version_in-EndsBy :
      (addr : ℕ) (seg : List ℕ) (more : Outcome ℕ)
      → EndsBy version_addr (addr, seg)
      → version_in version_addr addr seg more ≡ more
  unfolding version_in
  version_in-EndsBy addr seg more (s, e) =
      rw
        (
          ge→ltb version_addr addr s,
          gt→leb (2 ^ 63) (add64 addr (length seg)) (omega arith),
          le→leb (add64 addr (length seg)) (version_addr + 4) (omega arith),
        )
        refl

  version_in_read :
      (addr : ℕ) (before after : List ℕ) (b0 b1 b2 b3 last : ℕ) (more : Outcome ℕ)
      → version_addr ≡ addr + length before
      → length before + 5 + length after < 2 ^ 62
      → version_in version_addr addr (before ++ (b0 ∷ (b1 ∷ (b2 ∷ (b3 ∷ (last ∷ after)))))) more
        ≡ ok (b0 + 256 * (b1 + 256 * (b2 + 256 * (b3 + 256 * 0))))
  unfolding version_in le_number
  version_in_read addr before after b0 b1 b2 b3 last more s f =
      let tail = b0 ∷ (b1 ∷ (b2 ∷ (b3 ∷ (last ∷ after)))) in
      let sized = length-append before tail in
      rw
        (
          ge→ltb version_addr addr (omega (arith, s)),
          gt→leb (2 ^ 63) (add64 addr (length (before ++ tail))) (omega (arith, sized, s, f)),
          gt→leb (add64 addr (length (before ++ tail))) (version_addr + 4)
              (omega (arith, sized, s, f)),
          slice_from-append before tail (sub64 version_addr addr) (omega (arith, s)),
        )
        refl

  version_loop_next :
      (fuel addr n offset : ℕ) (seg rest : List ℕ)
      → IsSegment (addr, seg)
      → n ≢ 0
      → n < 2 ^ 64
      → version_loop (suc fuel) version_addr (iterator (segment_bytes (addr, seg) rest) n offset)
        ≡ version_in version_addr addr seg (
            version_loop fuel version_addr
              (iterator rest (n - 1) (offset + moved_over (addr, seg))))
  unfolding version_loop
  version_loop_next fuel addr n offset seg rest w z l =
      rw (next-first addr seg rest n offset w z l, version_loop) refl

  version_loop_none :
      (fuel offset : ℕ) (b : List ℕ)
      → version_loop (suc fuel) version_addr (iterator b 0 offset) ≡ ok 0
  unfolding version_loop
  version_loop_none fuel offset b = rw (next-none b offset) refl

  version_in-past :
      (addr : ℕ) (seg : List ℕ) (more : Outcome ℕ)
      → version_addr < addr
      → addr < 2 ^ 62
      → version_in version_addr addr seg more ≡ ok 0
  unfolding version_in
  version_in-past addr seg more l w =
      rw (lt→ltb version_addr addr l, lt→ltb addr (2 ^ 63) (omega arith)) refl

-- What is found at the version's address: nothing where the segments end, or where one lies past
-- it; the four bytes there, of a segment that goes on behind them; a segment that ends with them
-- or before is passed over.
pub data HasVersion (version_addr : ℕ) : List (ℕ × List ℕ) → ℕ → Type 0 where
  at_end : HasVersion version_addr [] 0
  past :
      (addr : ℕ) (seg : List ℕ) (segs : List (ℕ × List ℕ))
      → version_addr < addr
      → HasVersion version_addr ((addr, seg) ∷ segs) 0
  ends :
      (addr : ℕ) (seg : List ℕ) (segs : List (ℕ × List ℕ)) (version : ℕ)
      → EndsBy version_addr (addr, seg)
      → HasVersion version_addr segs version
      → HasVersion version_addr ((addr, seg) ∷ segs) version
  holds :
      (addr : ℕ) (before after : List ℕ) (b0 b1 b2 b3 last : ℕ) (segs : List (ℕ × List ℕ))
      → version_addr ≡ addr + length before
      → HasVersion version_addr
          ((addr, before ++ (b0 ∷ (b1 ∷ (b2 ∷ (b3 ∷ (last ∷ after)))))) ∷ segs)
          (b0 + 256 * (b1 + 256 * (b2 + 256 * (b3 + 256 * 0))))

version_loop-segments :
    (version_addr fuel offset : ℕ) {segs : List (ℕ × List ℕ)} {version : ℕ}
    → version_addr < 2 ^ 32
    → HasVersion version_addr segs version
    → AreSegments segs
    → length segs < fuel
    → length segs < 2 ^ 64
    → version_loop fuel version_addr (iterator (put_segments segs) (length segs) offset)
      ≡ ok version
version_loop-segments va zero offset wd h w l m = absurd (omega arith)
version_loop-segments va (suc fuel) offset wd at_end w l m = version_loop_none va wd fuel offset []
version_loop-segments va (suc fuel) offset wd (past addr seg segs p) w l m =
    version_loop_next va wd fuel addr (suc (length segs)) offset seg (put_segments segs) w.0
      (omega arith) m
    ∙ version_in-past va wd addr seg
        (version_loop fuel va
          (iterator (put_segments segs) (suc (length segs) - 1) (offset + moved_over (addr, seg))))
        p w.0.0
version_loop-segments va (suc fuel) offset wd (ends addr seg segs version e h) w l m =
    let next_offset = offset + moved_over (addr, seg) in
    version_loop_next va wd fuel addr (suc (length segs)) offset seg (put_segments segs) w.0
      (omega arith) m
    ∙ version_in-EndsBy va wd addr seg
        (version_loop fuel va (iterator (put_segments segs) (suc (length segs) - 1) next_offset)) e
    ∙ ap (λ (n : ℕ). version_loop fuel va (iterator (put_segments segs) n next_offset))
        (omega arith)
    ∙ version_loop-segments va fuel next_offset wd h w.1 (omega arith) (omega arith)
version_loop-segments va (suc fuel) offset wd (holds addr before after b0 b1 b2 b3 last segs s) w l
      m =
    let seg = before ++ (b0 ∷ (b1 ∷ (b2 ∷ (b3 ∷ (last ∷ after))))) in
    version_loop_next va wd fuel addr (suc (length segs)) offset seg (put_segments segs) w.0
      (omega arith) m
    ∙ version_in_read va wd addr before after b0 b1 b2 b3 last
        (version_loop fuel va
          (iterator (put_segments segs) (suc (length segs) - 1) (offset + moved_over (addr, seg))))
        s (omega (arith, w.0.1, length-append before (b0 ∷ (b1 ∷ (b2 ∷ (b3 ∷ (last ∷ after)))))))

version_at-segments :
    (version_addr : ℕ) {segs : List (ℕ × List ℕ)} {version : ℕ}
    → version_addr < 2 ^ 32
    → HasVersion version_addr segs version
    → AreSegments segs
    → length segs < 2 ^ 64
    → version_at version_addr (data_bytes segs) ≡ ok (is_311 version)
unfolding version_at
version_at-segments va {segs} wd h w m =
    rw
      (
        new_data_iterator-bytes segs m,
        version_loop-segments va (length segs + 1) (length (uvarint_bytes (length segs))) wd h w
            (omega arith) m,
      )
      refl

-- On a module of any header and any sections whose sizes fit their fields, where `dwarf.New` gives
-- entries from the DWARF sections, of which the first variable named `Py_Version` is at an address
-- that is not 0, and the first data section holds segments at addresses and with lengths below 2 ^ 62: `supportedPython`
-- tells whether the word found at the address, 0 for none, is a version 3.11. The word is that of
-- the first segment that does not end with it or before, and is none if that segment lies past it: a
-- segment that ends with the word itself is passed over.
pub supported_python-version :
    (location_of : Entry → Option LocationAttr) (dwarf_new : DebugSections → Option (List Entry))
    (header : List ℕ) (secs : List Section) (entries : List Entry) (version_addr : ℕ)
    (segs : List (ℕ × List ℕ)) (version : ℕ)
    → length header ≡ 8
    → AreSections secs
    → dwarf_new (sections_of secs) ≡ some entries
    → python_address location_of entries "Py_Version" ≡ ok version_addr
    → version_addr ≢ 0
    → version_addr < 2 ^ 32
    → data_content secs ≡ some (data_bytes segs)
    → AreSegments segs
    → length segs < 2 ^ 64
    → HasVersion version_addr segs version
    → supported_python location_of dwarf_new (header ++ sections_bytes secs) ≡ ok (is_311 version)
unfolding supported_python
supported_python-version location_of dwarf_new header secs entries va segs version h v d p z wd c w
      m s =
    simp (
      supported_python,
      new_dwarf_parser_from_bin-sections dwarf_new header secs h v,
      d,
      p,
      ne→== va 0 z,
      wasmdata_section-sections header secs h v,
      c,
      version_at-segments va wd s w m,
    )

-- A module whose DWARF has no variable named `Py_Version`.
pub supported_python_none :
    (location_of : Entry → Option LocationAttr) (dwarf_new : DebugSections → Option (List Entry))
    (header : List ℕ) (secs : List Section) (entries : List Entry)
    → length header ≡ 8
    → AreSections secs
    → dwarf_new (sections_of secs) ≡ some entries
    → python_address location_of entries "Py_Version" ≡ ok 0
    → supported_python location_of dwarf_new (header ++ sections_bytes secs) ≡ ok false
unfolding supported_python
supported_python_none location_of dwarf_new header secs entries h v d p =
    simp (supported_python, new_dwarf_parser_from_bin-sections dwarf_new header secs h v, d, p)
