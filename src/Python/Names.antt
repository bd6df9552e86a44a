-- ===== src/Python/Names.antt =====
-- python.go: the names of functions and files, and the calls that a stack iterator gives.
pub mod Files
use Prim.Native.String.{String}
use wzprof.Base.{
  ℕ, zero, suc, ◌+◌, ◌-◌, ◌/◌, ◌%◌, ◌^◌, ◌<◌, ◌≤◌, ◌≡◌, refl, sym, ap, ◌∙◌, List, [], ◌∷◌, ◌++◌,
  reverse, Bool, true, false, not, ◌&&◌, ◌||◌, ltb, leb, ◌==◌, if◌then◌else◌, length, take, drop,
  Outcome, ok, panic, require, ◌>>=◌, ◌>>◌,
}
use wzprof.Base.Words.{add32}
use wzprof.WasmBin.{bytes_eq, slice}
use wzprof.Pclntab.{Vmem}
use wzprof.Pclntab.Scan.{is_prefix}
use wzprof.Profile.{Location}
use wzprof.Python.{
  deref_u32, deref_u8, deref_bytes, PyStackIter, line_for_frame, pad_state_in_ascii_object,
  pad_length_in_ascii_object, size_ascii_object, pad_code_in_frame, pad_filename_in_code_object,
  pad_name_in_code_object, pad_prev_instr_in_frame,
}

abbrev pub frozen_prefix : List ℕ
frozen_prefix = 60 ∷ 102 ∷ 114 ∷ 111 ∷ 122 ∷ 101 ∷ 110 ∷ 32 ∷ []

abbrev pub init_file : List ℕ
init_file = 95 ∷ 95 ∷ 105 ∷ 110 ∷ 105 ∷ 116 ∷ 95 ∷ 95 ∷ 46 ∷ 112 ∷ 121 ∷ []

abbrev pub module_function : List ℕ
module_function = 60 ∷ 109 ∷ 111 ∷ 100 ∷ 117 ∷ 108 ∷ 101 ∷ 62 ∷ []

abbrev pub slash : ℕ
slash = 47

abbrev pub dot : ℕ
dot = 46

abbrev pub has_byte : ℕ → List ℕ → Bool
has_byte x [] = false
has_byte x (y ∷ ys) = (y == x) || has_byte x ys

-- `filepath.Base` on Unix: slashes at the end are dropped, and what is before the last other one.
abbrev pub drop_slashes : List ℕ → List ℕ
drop_slashes [] = []
drop_slashes (c ∷ cs) = let rest = drop_slashes cs in if c == slash then rest else c ∷ cs

abbrev pub last_element : List ℕ → List ℕ
last_element [] = []
last_element (c ∷ cs) =
    let rest = last_element cs in
    if has_byte slash cs then rest else if c == slash then cs else c ∷ cs

abbrev pub base_of : List ℕ → List ℕ
base_of [] = slash ∷ []
base_of (c ∷ cs) = last_element (c ∷ cs)

pub base : List ℕ → List ℕ
base [] = dot ∷ []
base (c ∷ cs) = base_of (reverse (drop_slashes (reverse (c ∷ cs))))

-- `filepath.Ext`: from the last dot of the last element on.
pub ext : List ℕ → List ℕ
ext [] = []
ext (c ∷ cs) =
    let rest = ext cs in
    if (c == dot) && not (has_byte dot cs) && not (has_byte slash cs) then c ∷ cs else rest

-- The part of `functionName` behind the name of the module.
pub in_module : List ℕ → List ℕ → List ℕ
in_module modname function =
    if bytes_eq function module_function then modname else modname ++ (dot ∷ function)

-- The name of the module of a file.
pub module_of : List ℕ → List ℕ
module_of file = take (length file - length (ext file)) file

-- `functionName`. `dir` is `filepath.Dir`.
pub function_name : (List ℕ → List ℕ) → List ℕ → List ℕ → Outcome (List ℕ)
function_name dir path function = do
  modname ←
      (if is_prefix frozen_prefix path
        then slice 8 (length path - 1) path
        else ok (
            module_of
              (base (if is_prefix (reverse init_file) (reverse path) then dir path else path))))
  ok (in_module modname function)

-- `pyUnicodeUTf8`, which knows compact ASCII strings alone.
unfoldable pub py_unicode_utf8 : Vmem → ℕ → Outcome (List ℕ)
unfolding deref_u8 deref_u32 deref_bytes
py_unicode_utf8 mem p = do
  state ← deref_u8 mem (add32 p pad_state_in_ascii_object)
  require ((state / 32 % 2 == 1) && (state / 64 % 2 == 1))
  length ← deref_u32 mem (add32 p pad_length_in_ascii_object)
  deref_bytes mem (add32 p size_ascii_object) length

-- `derefPyUnicodeUtf8`.
unfoldable pub deref_py_unicode_utf8 : Vmem → ℕ → Outcome (List ℕ)
unfolding deref_u32
deref_py_unicode_utf8 mem p = deref_u32 mem p >>= py_unicode_utf8 mem

-- `pyfuncall`.
pub record PyFuncCall : Type 0 where
  pub file : List ℕ
  pub name : List ℕ
  pub line : ℕ
  pub addr : ℕ

-- `Function` of `pystackiter`.
unfoldable pub function : (List ℕ → List ℕ) → ℕ → Vmem → PyStackIter → Outcome PyFuncCall
unfolding deref_u32
function dir fuel mem p = do
  codep ← deref_u32 mem (add32 (p.framep) pad_code_in_frame)
  (line, found) ← line_for_frame fuel mem (p.framep) codep
  file ← deref_py_unicode_utf8 mem (add32 codep pad_filename_in_code_object)
  name ← deref_py_unicode_utf8 mem (add32 codep pad_name_in_code_object)
  name ← function_name dir file name
  addr ← deref_u32 mem (add32 (p.framep) pad_prev_instr_in_frame)
  ok (record { file = file; name = name; line = line; addr = addr })

-- `Locations` of `python`, on a call: the line is an `int64`. `text` is the string of some bytes.
unfoldable pub python_locations : (List ℕ → String) → PyFuncCall → ℕ × List Location
python_locations text call = (
  call.addr,
  record {
    file = text (call.file);
    line = if ltb (call.line) (2 ^ 31) then call.line else call.line + (2 ^ 64 - 2 ^ 32);
    column = 0;
    inlined = false;
    stable_name = text (call.file ++ (dot ∷ call.name));
    human_name = text (call.name);
  }
      ∷ [],
)
