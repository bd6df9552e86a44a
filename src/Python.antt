-- ===== src/Python.antt =====
-- python.go: the stacks of a guest that is CPython 3.11, read from its memory. An `int32` is its two's
-- complement pattern, and a Go string is the list of its bytes.
pub mod Frames
pub mod Lines
pub mod Varint
pub mod Names
pub mod Setup
mod Tests
use Prim.Native.String.{String}
use wzprof.Base.{
  ℕ, zero, suc, ◌+◌, ◌-◌, ◌*◌, ◌/◌, ◌%◌, ◌^◌, List, [], ◌∷◌, ◌++◌, reverse, Bool, true, false, not,
  ◌&&◌, ◌||◌, Option, none, some, ltb, leb, ◌==◌, if◌then◌else◌, length, take, drop, Outcome, ok,
  panic, stuck, require, or_panic, ◌>>=◌, ◌>>◌,
}
use wzprof.Base.Words.{add32, sub32}
use wzprof.WasmBin.{bytes_eq, slice}
use wzprof.Pclntab.{Vmem, deref, le_number}
use wzprof.Pclntab.Scan.{is_prefix}
use wzprof.Profile.{Location}

-- `deref` of the 32-bit types, and of a byte.
pub deref_u32 : Vmem → ℕ → Outcome ℕ
unfolding deref
deref_u32 mem p = deref mem p 4 >>= le_number 4

pub deref_u8 : Vmem → ℕ → Outcome ℕ
unfolding deref
deref_u8 mem p = deref mem p 1 >>= le_number 1

-- `derefArray` of bytes. The view that `Read` returns has the size that was asked for.
pub deref_bytes : Vmem → ℕ → ℕ → Outcome (List ℕ)
deref_bytes mem p n = or_panic (mem (p % 2 ^ 32) (n % 2 ^ 32))

-- The offsets of fields in the structs of CPython.
abbrev pub pad_tstate_current_in_rt : ℕ
pad_tstate_current_in_rt = 360

abbrev pub pad_cframe_in_thread_state : ℕ
pad_cframe_in_thread_state = 40

abbrev pub pad_current_frame_in_cframe : ℕ
pad_current_frame_in_cframe = 4

abbrev pub pad_previous_in_frame : ℕ
pad_previous_in_frame = 24

abbrev pub pad_code_in_frame : ℕ
pad_code_in_frame = 16

abbrev pub pad_prev_instr_in_frame : ℕ
pad_prev_instr_in_frame = 28

abbrev pub pad_filename_in_code_object : ℕ
pad_filename_in_code_object = 80

abbrev pub pad_name_in_code_object : ℕ
pad_name_in_code_object = 84

abbrev pub pad_code_adaptive_in_code_object : ℕ
pad_code_adaptive_in_code_object = 116

abbrev pub pad_firstlineno_in_code_object : ℕ
pad_firstlineno_in_code_object = 48

abbrev pub pad_linearray_in_code_object : ℕ
pad_linearray_in_code_object = 104

abbrev pub pad_linetable_in_code_object : ℕ
pad_linetable_in_code_object = 92

abbrev pub size_code_unit : ℕ
size_code_unit = 2

abbrev pub pad_state_in_ascii_object : ℕ
pad_state_in_ascii_object = 16

abbrev pub pad_length_in_ascii_object : ℕ
pad_length_in_ascii_object = 8

abbrev pub size_ascii_object : ℕ
size_ascii_object = 24

abbrev pub pad_sval_in_bytes_object : ℕ
pad_sval_in_bytes_object = 16

abbrev pub pad_size_in_bytes_object : ℕ
pad_size_in_bytes_object = 8

-- `pystackiter`, less the name for debugging and the memory.
pub record PyStackIter : Type 0 where
  pub started : Bool
  pub framep : ℕ

-- `Stackiter` of `python`, whose runtime's address it takes.
unfoldable pub stackiter : Vmem → ℕ → Outcome PyStackIter
unfolding deref_u32
stackiter mem pyrtaddr = do
  tsp ← deref_u32 mem (add32 pyrtaddr pad_tstate_current_in_rt)
  cframep ← deref_u32 mem (add32 tsp pad_cframe_in_thread_state)
  framep ← deref_u32 mem (add32 cframep pad_current_frame_in_cframe)
  ok (record { started = false; framep = framep })

-- `Next` of `pystackiter`. A frame that is its own caller ends the stack.
pub next : Vmem → PyStackIter → Outcome (Bool × PyStackIter)
next mem p =
    if p.started
    then (do
      framep ← deref_u32 mem (add32 (p.framep) pad_previous_in_frame)
      if p.framep == framep
          then ok (false, record p { framep = 0 })
          else ok (not (framep == 0), record p { framep = framep }))
    else ok (not (p.framep == 0), record p { started = true })

-- `ProgramCounter`.
unfoldable pub program_counter : Vmem → PyStackIter → Outcome ℕ
unfolding deref_u32
program_counter mem p = deref_u32 mem (add32 (p.framep) pad_prev_instr_in_frame)

-- The loop of `pysvarint`, on the byte read last. The groups do not overlap, so `|` adds them. It reads on
-- as long as bytes have the bit 64.
pub svarint_loop : ℕ → Vmem → ℕ → ℕ → ℕ → ℕ → Outcome ℕ
svarint_loop zero mem p read val shift = stuck
svarint_loop (suc fuel) mem p read val shift =
    let more = (do
      read ← deref_u8 mem p
      svarint_loop fuel mem (add32 p 1) read ((val + read % 64 * 2 ^ (shift + 6)) % 2 ^ 32)
          (shift + 6)) in
    if read / 64 % 2 == 1 then more else ok val

-- The end of `pysvarint`: the sign is the lowest bit.
pub signed : ℕ → ℕ
signed val = if val % 2 == 1 then sub32 0 (val / 2) else val / 2

pub pysvarint : ℕ → Vmem → ℕ → Outcome ℕ
pysvarint fuel mem p = do
  read ← deref_u8 mem p
  val ← svarint_loop fuel mem p read (read % 64) 0
  ok (signed val)

-- `a <= b` on `int32`.
abbrev pub le_int32 : ℕ → ℕ → Bool
le_int32 a b = leb ((a + 2 ^ 31) % 2 ^ 32) ((b + 2 ^ 31) % 2 ^ 32)

-- The switch of `lineForFrame` on the code of an entry at `ptr`.
pub line_delta : ℕ → Vmem → ℕ → ℕ → Outcome ℕ
line_delta fuel mem ptr code =
    if code == 11
    then ok 1
    else if code == 12
    then ok 2
    else if (code == 13) || (code == 14)
    then pysvarint fuel mem (add32 ptr 1)
    else ok 0

-- The inner loop of `lineForFrame`, from the byte after one: it stops where an entry starts.
pub entry_end : ℕ → Vmem → ℕ → ℕ → Outcome ℕ
entry_end zero mem lo_next limit = stuck
entry_end (suc fuel) mem lo_next limit =
    let more = (do
      b ← deref_u8 mem lo_next
      if b / 128 % 2 == 0 then entry_end fuel mem (add32 lo_next 1) limit else ok lo_next) in
    if ltb lo_next limit then more else ok lo_next

-- The loop of `lineForFrame`.
pub line_loop : ℕ → Vmem → ℕ → ℕ → ℕ → ℕ → ℕ → ℕ → Outcome ℕ
line_loop zero mem addrq limit lo_next ar_end computed_line ar_line = stuck
line_loop (suc fuel) mem addrq limit lo_next ar_end computed_line ar_line =
    let round = (do
      entry ← deref_u8 mem lo_next
      delta ← line_delta fuel mem lo_next (entry / 8 % 16)
      after ← entry_end fuel mem (add32 lo_next 1) limit
      let line = add32 computed_line delta
      line_loop fuel mem addrq limit after (add32 ar_end ((entry % 8 + 1) * size_code_unit)) line
          (if entry / 8 == 31 then 2 ^ 32 - 1 else line)) in
    if le_int32 ar_end addrq && ltb lo_next limit then round else ok ar_line

-- The end of `lineForFrame`, once the code has a line table at `codebytes`.
pub line_in_table : ℕ → Vmem → ℕ → ℕ → ℕ → Outcome ℕ
line_in_table fuel mem codebytes addrq firstlineno = do
  size ← deref_u32 mem (add32 codebytes pad_size_in_bytes_object)
  let linetable = add32 codebytes pad_sval_in_bytes_object
  line_loop fuel mem addrq (add32 linetable size) linetable 0 firstlineno (2 ^ 32 - 1)

-- `lineForFrame`: the line, and whether it was found in the table.
pub line_for_frame : ℕ → Vmem → ℕ → ℕ → Outcome (ℕ × Bool)
line_for_frame fuel mem framep codep = do
  previnstr ← deref_u32 mem (add32 framep pad_prev_instr_in_frame)
  firstlineno ← deref_u32 mem (add32 codep pad_firstlineno_in_code_object)
  if ltb previnstr (add32 codep pad_code_adaptive_in_code_object)
      then ok (firstlineno, false)
      else (do
        linearray ← deref_u32 mem (add32 codep pad_linearray_in_code_object)
        require (linearray == 0)
        codebytes ← deref_u32 mem (add32 codep pad_linetable_in_code_object)
        require (not (codebytes == 0))
        line ←
            line_in_table fuel mem codebytes
              (sub32 previnstr (add32 codep pad_code_adaptive_in_code_object)) firstlineno
        ok (line, true))
