-- ===== src/Python/Tests.antt =====
-- The theorems about python.go at concrete memories, paths and binaries.
use wzprof.Base.{
  ℕ, ◌+◌, ◌/◌, ◌%◌, ◌≡◌, refl, List, [], ◌∷◌, ◌++◌, true, false, Option, none, some, ◌==◌,
  if◌then◌else◌, ok, ◌>>=◌, inr, arith,
}
use wzprof.WasmBin.Sections.{Section, custom, other, sections_bytes}
use wzprof.WasmBin.Segments.{data_bytes, sleb_groups}
use wzprof.WasmBin.Leb.{groups}
use wzprof.Pclntab.{Vmem, le_number}
use wzprof.Pclntab.Scan.{is_prefix}
use wzprof.Dwarf.{variable, Entry}
use wzprof.Python.{stackiter, pysvarint, signed, line_for_frame, deref_u32}
use wzprof.Python.Frames.{walk, walk-stackiter}
use wzprof.Python.Varint.{pysvarint-groups, seen}
use wzprof.Python.Lines.{LineEntry, one, no_column, no_line, table_bytes}
use wzprof.Python.Lines.Table.{HasTable, line_for_frame-table}
use wzprof.Python.Names.{function_name, in_module}
use wzprof.Python.Names.Files.{py, function_name-file}
use wzprof.Python.Setup.{LocationAttr, expression, python_address, supported_python}
use wzprof.Python.Setup.Versions.{ends, holds, supported_python-version}

-- A memory that holds some words, and bytes from one address on.
abbrev bytes4 : ℕ → List ℕ
bytes4 v = v % 256 ∷ (v / 256 % 256 ∷ (v / 65536 % 256 ∷ (v / 16777216 % 256 ∷ [])))

abbrev word_at : List (ℕ × ℕ) → ℕ → Option (List ℕ)
word_at [] p = none
word_at ((q, v) ∷ words) p = let rest = word_at words p in if p == q then some (bytes4 v) else rest

abbrev byte_at : ℕ → List ℕ → ℕ → Option (List ℕ)
byte_at q [] p = none
byte_at q (b ∷ bs) p = let rest = byte_at (q + 1) bs p in if p == q then some (b ∷ []) else rest

abbrev memory : List (ℕ × ℕ) → ℕ → List ℕ → Vmem
memory words q bs p n = if n == 4 then word_at words p else byte_at q bs p

-- The runtime at 1000, and two frames, the second its own caller.
abbrev frames : Vmem
frames = memory ((1360, 2000) ∷ (2040, 3000) ∷ (3004, 4000) ∷ (4024, 5000) ∷ (5024, 5000) ∷ []) 0 []

walk-stackiter_example : (stackiter frames 1000 >>= walk 4 frames) ≡ ok (4000 ∷ 5000 ∷ [])
unfolding deref_u32 le_number
walk-stackiter_example =
    walk-stackiter (5000 ∷ []) 4 frames 1000 2000 3000 4000 refl refl refl (omega arith)
      (refl, omega arith, omega arith, inr refl) (omega arith)

-- The number 2 + 64 * 3 is taken for another.
pysvarint-groups_example :
    pysvarint 4 (memory [] 100 (66 ∷ 3 ∷ [])) 100 ≡ ok (signed (seen 2 (3 ∷ [])))
pysvarint-groups_example =
    pysvarint-groups 4 (memory [] 100 (66 ∷ 3 ∷ [])) 100 2 (3 ∷ []) (omega arith, (omega arith, tt))
      (refl, (refl, tt)) (omega arith) (omega arith) (omega arith)

-- A code object at 8000 with a line table of three entries, at 9000; the frame is in the second.
abbrev next_line : LineEntry
next_line = record { kind = one; units = 1; rest = 0 ∷ 5 ∷ [] }

abbrev back : LineEntry
back = record { kind = no_column 5; units = 2; rest = [] }

abbrev lost : LineEntry
lost = record { kind = no_line; units = 0; rest = [] }

abbrev code : Vmem
code =
    memory ((4028, 8122) ∷ (8048, 10) ∷ (8104, 0) ∷ (8092, 9000) ∷ (9008, 6) ∷ []) 9016
      (table_bytes (next_line ∷ back ∷ lost ∷ []))

code-HasTable : HasTable code 4000 8000 6 10 (next_line ∷ back ∷ lost ∷ [])
unfolding deref_u32 le_number
code-HasTable = record {
  codebytes = 9000;
  prev_instr = refl;
  code_fits = omega arith;
  first_line = refl;
  no_array = refl;
  line_table = refl;
  is_there = omega arith;
  table_size = refl;
  table_fits = omega arith;
  table = (refl, (refl, (refl, (refl, (refl, (refl, tt))))));
}

line_for_frame-table_example : line_for_frame 9 code 4000 8000 ≡ ok (9, true)
unfolding signed
line_for_frame-table_example =
    line_for_frame-table 9 code 4000 8000 6 10 (next_line ∷ []) back (lost ∷ []) code-HasTable
      (
        (tt, omega arith, (omega arith, (omega arith, tt))),
        ((omega arith, omega arith, (omega arith, tt)), ((tt, omega arith, tt), tt)),
      )
      (omega arith) (omega arith) (omega arith) (omega arith)

-- `a/b.py` and the function `f`.
function_name-file_example :
    function_name (λ p. p) (97 ∷ 47 ∷ 98 ∷ py) (102 ∷ []) ≡ ok (in_module (98 ∷ []) (102 ∷ []))
unfolding is_prefix
function_name-file_example =
    function_name-file (λ p. p) (some (97 ∷ [])) (98 ∷ []) (102 ∷ []) refl refl refl

-- A binary with a data section of two segments, and `Py_Version` at 20.
abbrev version_entry : Entry
version_entry = record {
  offset = 1;
  tag = variable;
  children = false;
  name = some "Py_Version";
  linkage_name = none;
  abstract_origin = none;
  call_file = none;
  call_line = none;
  call_column = none;
}

abbrev segments : List (ℕ × List ℕ)
segments = (4, 1 ∷ 2 ∷ []) ∷ (18, 7 ∷ 7 ∷ 240 ∷ 4 ∷ 11 ∷ 3 ∷ 9 ∷ []) ∷ []

abbrev sections : List Section
sections = custom (97 ∷ []) (1 ∷ []) ∷ other 11 (data_bytes segments) ∷ []

abbrev location_of : Entry → Option LocationAttr
location_of e = some (expression (3 ∷ 20 ∷ 0 ∷ 0 ∷ 0 ∷ []))

supported_python-version_example :
    supported_python location_of
      (λ s. some (version_entry ∷ []))
      ((0 ∷ 97 ∷ 115 ∷ 109 ∷ 1 ∷ 0 ∷ 0 ∷ 0 ∷ []) ++ sections_bytes sections)
    ≡ ok true
unfolding python_address le_number groups sleb_groups
supported_python-version_example =
    supported_python-version location_of (λ s. some (version_entry ∷ []))
      (0 ∷ 97 ∷ 115 ∷ 109 ∷ 1 ∷ 0 ∷ 0 ∷ 0 ∷ []) sections (version_entry ∷ []) 20 segments 0x30b04f0
      refl (omega arith, ((omega arith, omega arith, λ h k. cc), tt)) refl refl (omega arith)
      (omega arith) refl ((omega arith, omega arith), ((omega arith, omega arith), tt))
      (omega arith)
      (ends 4 (1 ∷ 2 ∷ []) ((18, 7 ∷ 7 ∷ 240 ∷ 4 ∷ 11 ∷ 3 ∷ 9 ∷ []) ∷ []) 0x30b04f0
        (omega arith, omega arith) (holds 18 (7 ∷ 7 ∷ []) [] 240 4 11 3 9 [] refl))
