-- ===== src/Python/Lines/Table.antt =====
-- The line that `lineForFrame` finds in a line table.
use wzprof.Base.{
  ℕ, zero, suc, ◌+◌, ◌-◌, ◌*◌, ◌%◌, ◌^◌, ◌<◌, ◌≤◌, ◌≡◌, ◌≢◌, inl, inr, refl, ap, ap₂, ◌∙◌, List, [],
  ◌∷◌, ◌++◌, true, ge→ltb, ne→==, length, length-append, Outcome, ok, ◌>>=◌, arith,
}
use wzprof.Base.Words.{add32}
use wzprof.Pclntab.{Vmem}
use wzprof.Python.{
  deref_u32, line_loop, line_in_table, line_for_frame, pad_prev_instr_in_frame,
  pad_firstlineno_in_code_object, pad_code_adaptive_in_code_object, pad_linearray_in_code_object,
  pad_linetable_in_code_object, pad_size_in_bytes_object, pad_sval_in_bytes_object,
}
use wzprof.Python.Varint.{Holds, deref_u8-Holds}
use wzprof.Python.Lines.{
  delta_of, LineEntry, payload, start_byte, IsLineEntry, table_bytes, AreLineEntries, code_size,
  line_after, line_or_none, Holds-front, Follows, code_small, le_int32-gt, line_loop_past,
  line_loop_entry,
}

entries-Follows :
    (mem : Vmem) (es : List LineEntry) (p limit : ℕ)
    → AreLineEntries es
    → Holds mem p (table_bytes es)
    → p + length (table_bytes es) ≡ limit
    → Follows mem p limit
entries-Follows mem [] p limit a m e = inl (omega (arith, e))
entries-Follows mem (x ∷ es) p limit a m e = inr (
  start_byte x,
  deref_u8-Holds mem p (start_byte x) (payload x ++ table_bytes es) m,
  omega arith,
  omega (arith, code_small (x.kind) a.0.0, a.0.1),
)

module _ (mem : Vmem) (addrq limit : ℕ) (low : addrq < 2 ^ 31 - 16)
    (fits : limit + 2 < 2 ^ 32) where
  -- A round, on an entry in front of others.
  line_loop_first :
      (x : LineEntry) (es : List LineEntry) (fuel p end line last : ℕ)
      → IsLineEntry x
      → AreLineEntries es
      → Holds mem p (table_bytes (x ∷ es))
      → p + length (table_bytes (x ∷ es)) ≡ limit
      → end ≤ addrq
      → length (table_bytes (x ∷ es)) < fuel
      → line_loop (suc fuel) mem addrq limit p end line last
        ≡ line_loop fuel mem addrq limit
            (suc p + length (payload x))
            (end + 2 * (x.units + 1))
            (add32 line (delta_of (x.kind)))
            (line_or_none (x.kind) (add32 line (delta_of (x.kind))))
  line_loop_first x es fuel p end line last w v m l e f =
      let sized = length-append (payload x) (table_bytes es) in
      let next : suc p + length (payload x) + length (table_bytes es) ≡ limit =
        omega (arith, l, sized) in
      line_loop_entry mem addrq limit (omega (arith, low)) fits fuel p (suc p + length (payload x))
        end line last (x.kind) (x.units) (x.rest) (table_bytes es) w.0 w.1 w.2 m e refl
        (omega (arith, next))
        (entries-Follows mem es (suc p + length (payload x)) limit v
          (Holds-front mem (suc p) (suc p + length (payload x)) (payload x) (table_bytes es) refl
            m.1)
          next)
        (omega (arith, f, sized))

  line_loop-table :
      (before : List LineEntry) (x : LineEntry) (after : List LineEntry) (fuel p end line last : ℕ)
      → AreLineEntries (before ++ (x ∷ after))
      → Holds mem p (table_bytes (before ++ (x ∷ after)))
      → p + length (table_bytes (before ++ (x ∷ after))) ≡ limit
      → end + code_size before ≤ addrq
      → addrq < end + code_size before + 2 * (x.units + 1)
      → length (table_bytes (before ++ (x ∷ after))) + 1 < fuel
      → line_loop fuel mem addrq limit p end line last
        ≡ ok (line_or_none (x.kind) (add32 (line_after line before) (delta_of (x.kind))))
  line_loop-table before x after zero p end line last w m l e g f = absurd (omega arith)
  line_loop-table before x after (suc zero) p end line last w m l e g f = absurd (omega arith)
  line_loop-table [] x after (suc (suc fuel)) p end line last w m l e g f =
      line_loop_first x after (suc fuel) p end line last w.0 w.1 m l (omega (arith, e))
        (omega (arith, f))
      ∙ line_loop_past fuel mem addrq limit (suc p + length (payload x)) (end + 2 * (x.units + 1))
          (add32 line (delta_of (x.kind))) (line_or_none (x.kind) (add32 line (delta_of (x.kind))))
          (le_int32-gt (end + 2 * (x.units + 1)) addrq (omega (arith, g))
            (omega (arith, low, w.0.1, e)))
  line_loop-table (y ∷ before) x after (suc (suc fuel)) p end line last w m l e g f =
      let es = before ++ (x ∷ after) in
      let sized = length-append (payload y) (table_bytes es) in
      line_loop_first y es (suc fuel) p end line last w.0 w.1 m l (omega (arith, e))
        (omega (arith, f))
      ∙ line_loop-table before x after (suc fuel) (suc p + length (payload y))
          (end + 2 * (y.units + 1)) (add32 line (delta_of (y.kind)))
          (line_or_none (y.kind) (add32 line (delta_of (y.kind)))) w.1
          (Holds-front mem (suc p) (suc p + length (payload y)) (payload y) (table_bytes es) refl
            m.1)
          (omega (arith, l, sized)) (omega (arith, e)) (omega (arith, g)) (omega (arith, f, sized))

-- A frame whose pointer at its previous instruction is `addrq` bytes into its code, of a code
-- object without a line array, whose first line is `line` and whose line table holds these entries.
pub record HasTable (mem : Vmem) (framep codep addrq line : ℕ) (es : List LineEntry) : Type 0 where
  pub codebytes : ℕ
  pub prev_instr :
      deref_u32 mem (add32 framep pad_prev_instr_in_frame)
      ≡ ok (codep + pad_code_adaptive_in_code_object + addrq)
  pub code_fits : codep + pad_code_adaptive_in_code_object + addrq < 2 ^ 32
  pub first_line : deref_u32 mem (add32 codep pad_firstlineno_in_code_object) ≡ ok line
  pub no_array : deref_u32 mem (add32 codep pad_linearray_in_code_object) ≡ ok 0
  pub line_table : deref_u32 mem (add32 codep pad_linetable_in_code_object) ≡ ok codebytes
  pub is_there : codebytes ≢ 0
  pub table_size :
      deref_u32 mem (add32 codebytes pad_size_in_bytes_object) ≡ ok (length (table_bytes es))
  pub table_fits : codebytes + pad_sval_in_bytes_object + length (table_bytes es) + 2 < 2 ^ 32
  pub table : Holds mem (codebytes + pad_sval_in_bytes_object) (table_bytes es)

line_in_table_at :
    (fuel : ℕ) (mem : Vmem) (codebytes addrq line size : ℕ)
    → deref_u32 mem (add32 codebytes pad_size_in_bytes_object) ≡ ok size
    → codebytes + pad_sval_in_bytes_object + size < 2 ^ 32
    → line_in_table fuel mem codebytes addrq line
      ≡ line_loop fuel mem addrq
          (codebytes + pad_sval_in_bytes_object + size)
          (codebytes + pad_sval_in_bytes_object)
          0
          line
          (2 ^ 32 - 1)
unfolding line_in_table
line_in_table_at fuel mem codebytes addrq line size d l = rw (d) (
    ap₂ (λ (a : ℕ) (b : ℕ). line_loop fuel mem addrq a b 0 line (2 ^ 32 - 1)) (omega arith)
      (omega arith))

line_for_frame_at :
    (fuel : ℕ) (mem : Vmem) (framep codep addrq line found : ℕ) (es : List LineEntry)
    (h : HasTable mem framep codep addrq line es)
    → line_in_table fuel mem h.codebytes addrq line ≡ ok found
    → line_for_frame fuel mem framep codep ≡ ok (found, true)
unfolding line_for_frame
line_for_frame_at fuel mem framep codep addrq line found es h e =
    let start : add32 codep pad_code_adaptive_in_code_object
        ≡ codep + pad_code_adaptive_in_code_object =
      omega (arith, h.code_fits) in
    let back : (codep
            + pad_code_adaptive_in_code_object
            + addrq
            + (2 ^ 32 - (codep + pad_code_adaptive_in_code_object)))
          % 2 ^ 32
        ≡ addrq =
      omega (arith, h.code_fits) in
    simp
      (
        h.prev_instr,
        h.first_line,
        start,
        ge→ltb (codep + pad_code_adaptive_in_code_object + addrq)
            (codep + pad_code_adaptive_in_code_object) (omega arith),
        h.no_array,
        h.line_table,
        ne→== (h.codebytes) 0 (h.is_there),
        line_for_frame,
      )
      (ap (λ (n : ℕ). line_in_table fuel mem h.codebytes n line >>= (λ (l : ℕ). ok (l, true))) back
        ∙ ap (λ (o : Outcome ℕ). o >>= (λ (l : ℕ). ok (l, true))) e)

-- Where a code object has no line array, and a line table of entries, each of which is for one to
-- eight units of code and changes the line by a number of one byte at most, and the frame's pointer
-- at its previous instruction is less than 2 ^ 31 - 16 bytes behind the start of the code and in
-- the code of an entry, `lineForFrame` finds this entry: it gives the first line with the changes
-- of the entries up to and with this one, or -1 if this entry has no line. It ends with fuel for
-- each byte of the table.
pub line_for_frame-table :
    (fuel : ℕ) (mem : Vmem) (framep codep addrq line : ℕ) (before : List LineEntry) (x : LineEntry)
    (after : List LineEntry)
    → HasTable mem framep codep addrq line (before ++ (x ∷ after))
    → AreLineEntries (before ++ (x ∷ after))
    → addrq < 2 ^ 31 - 16
    → code_size before ≤ addrq
    → addrq < code_size before + 2 * (x.units + 1)
    → length (table_bytes (before ++ (x ∷ after))) + 1 < fuel
    → line_for_frame fuel mem framep codep
      ≡ ok (line_or_none (x.kind) (add32 (line_after line before) (delta_of (x.kind))), true)
line_for_frame-table fuel mem framep codep addrq line before x after h w low l g f =
    let es = before ++ (x ∷ after) in
    line_for_frame_at fuel mem framep codep addrq line
      (line_or_none (x.kind) (add32 (line_after line before) (delta_of (x.kind)))) es h
      (line_in_table_at fuel mem (h.codebytes) addrq line (length (table_bytes es)) (h.table_size)
          (omega (arith, h.table_fits))
        ∙ line_loop-table mem addrq
            (h.codebytes + pad_sval_in_bytes_object + length (table_bytes es)) low (h.table_fits)
            before x after fuel (h.codebytes + pad_sval_in_bytes_object) 0 line (2 ^ 32 - 1) w
            (h.table) refl (omega (arith, l)) (omega (arith, g)) f)
