-- ===== src/Traceback.antt =====
-- traceback.go: unwinding the Go stack of the guest, and the pc-value tables it reads.
pub mod Values
pub mod Next
pub mod Walk
mod Tests
use wzprof.Base.{
  ℕ, zero, suc, ◌+◌, ◌*◌, ◌-◌, ◌/◌, ◌%◌, ◌^◌, List, [], ◌∷◌, Bool, true, false, not, ◌&&◌, ◌||◌,
  Option, none, some, ◌==◌, ltb, leb, if◌then◌else◌, bit_or, bit_and, length, Outcome, ok, panic,
  stuck, ◌>>=◌, ◌>>◌, require, or_panic,
}
use wzprof.Base.Words.{add64, sub64, add32}
use wzprof.WasmBin.{slice_from}
use wzprof.Pclntab.{
  Moduledata, Func, FuncInfo, Vmem, deref_u64, find_func, entry, g_m, g_m_g0, g_m_curg, g_sched_sp,
  g_sched_pc, g_sched_lr,
}

-- The loop of `readvarint`, on the bytes from its `n`-th one on.
pub readvarint_loop : List ℕ → ℕ → ℕ → ℕ → Outcome (ℕ × ℕ)
readvarint_loop [] v shift n = panic
readvarint_loop (b ∷ p) v shift n =
    let v = bit_or v (b % 128 * 2 ^ (shift % 32) % 2 ^ 32) in
    let rest = readvarint_loop p v (add32 shift 7) (add32 n 1) in
    if ltb b 128 then ok (add32 n 1, v) else rest

-- `readvarint`: the number of bytes read, and the value.
pub readvarint : List ℕ → Outcome (ℕ × ℕ)
unfolding readvarint_loop
readvarint p = readvarint_loop p 0 0 0

-- A value of `step`: the byte at the front, or the varint that starts with it, and what follows it.
pub read_delta : List ℕ → Outcome (ℕ × List ℕ)
unfolding readvarint
read_delta [] = panic
read_delta (b ∷ p) =
    if ltb b 128
    then ok (b, p)
    else readvarint (b ∷ p) >>= (λ r. slice_from r.0 (b ∷ p) >>= (λ q. ok (r.1, q)))

-- `-(uvdelta & 1) ^ (uvdelta >> 1)` on words of 32 bits.
pub zigzag : ℕ → ℕ
zigzag u = if u % 2 == 1 then 2 ^ 32 - 1 - u / 2 else u / 2

-- `step`: `none` is its false, and else the bytes that are left, the PC and the value, which is an
-- `int32` as its bits.
pub step : List ℕ → ℕ → ℕ → Bool → Outcome (Option (List ℕ × ℕ × ℕ))
unfolding read_delta zigzag
step [] pc val first = panic
step (b ∷ p) pc val first =
    if (b == 0) && not first
    then ok none
    else read_delta (b ∷ p)
      >>= (λ uv. read_delta uv.1 >>= (λ d. ok (some (d.1, add64 pc d.0, add32 val (zigzag uv.0)))))

-- The loop of `pcvalue`. A round takes two bytes of the table, whose length is the fuel.
pub pcvalue_loop : ℕ → ℕ → ℕ → List ℕ → ℕ → ℕ → ℕ → Outcome (ℕ × ℕ)
unfolding step
pcvalue_loop zero start target p pc prevpc val = stuck
pcvalue_loop (suc fuel) start target p pc prevpc val = step p pc val (pc == start) >>= (λ r.
    elim r [
      | none ↦ panic
      | some (q, next, value) ↦
          let rest = pcvalue_loop fuel start target q next next value in
          if ltb target next then ok (value, prevpc) else rest
    ])

-- The `int32` -1.
abbrev pub minus_one : ℕ
minus_one = 2 ^ 32 - 1

-- `pcvalue`, on a valid `funcInfo`.
unfoldable pub pcvalue : Moduledata → FuncInfo → ℕ → ℕ → Outcome (ℕ × ℕ)
unfolding pcvalue_loop
pcvalue md f off target =
    if off == 0
    then ok (minus_one, 0)
    else slice_from off md.pctab >>= (λ p.
      pcvalue_loop (suc (length p)) (entry md f) target p (entry md f) (entry md f) minus_one)

-- An `int32` made a 64-bit pointer.
abbrev pub sign_extend : ℕ → ℕ
sign_extend v = if ltb v (2 ^ 31) then v else v + (2 ^ 64 - 2 ^ 32)

-- `funcspdelta`.
pub funcspdelta : Moduledata → FuncInfo → ℕ → Outcome ℕ
unfolding pcvalue
funcspdelta md f target = pcvalue md f f.func.pcsp target >>= λ r. ok (r.0)

-- `stkframe`. The zero frame has no function.
pub record Stkframe : Type 0 where
  pub fn : Option FuncInfo
  pub pc : ℕ
  pub lr : ℕ
  pub sp : ℕ
  pub fp : ℕ
  pub varp : ℕ

abbrev pub no_frame : Stkframe
no_frame = record { fn = none; pc = 0; lr = 0; sp = 0; fp = 0; varp = 0 }

-- `unwinder`, less its memory and its symbols, which are arguments of its methods.
pub record Unwinder : Type 0 where
  pub frame : Stkframe
  pub g : ℕ
  pub callee_func_id : ℕ
  pub flags : ℕ

-- The flags of an unwinding and of a function, and the function IDs that the code tells apart.
abbrev pub unwind_print_errors : ℕ
unwind_print_errors = 1

abbrev pub unwind_silent_errors : ℕ
unwind_silent_errors = 2

abbrev pub unwind_trap : ℕ
unwind_trap = 4

abbrev pub unwind_jump_stack : ℕ
unwind_jump_stack = 8

abbrev pub func_flag_top_frame : ℕ
func_flag_top_frame = 1

abbrev pub func_flag_sp_write : ℕ
func_flag_sp_write = 2

abbrev pub func_id_async_preempt : ℕ
func_id_async_preempt = 3

abbrev pub func_id_debug_call_v2 : ℕ
func_id_debug_call_v2 = 5

abbrev pub func_id_morestack : ℕ
func_id_morestack = 12

abbrev pub func_id_sigpanic : ℕ
func_id_sigpanic = 18

abbrev pub func_id_systemstack : ℕ
func_id_systemstack = 19

-- `goStackIterator`.
pub record GoStackIterator : Type 0 where
  pub first : Bool
  pub pc : ℕ
  pub unwinder : Unwinder

-- `flags & mask != 0`.
pub has_flag : ℕ → ℕ → Bool
has_flag flags mask = not (bit_and flags mask == 0)

-- `valid` and `finishInternal`.
pub valid : Unwinder → Bool
valid u = not (u.frame.pc == 0)

pub finish_internal : Unwinder → Unwinder
finish_internal u = record u { frame = record (u.frame) { pc = 0 } }

-- `injectedCall`, and the trap flag that goes with it.
pub trap_flags : Func → ℕ → ℕ
unfolding has_flag
trap_flags f flags =
    let cleared = if has_flag flags unwind_trap then flags - unwind_trap else flags in
    if (f.func_id == func_id_sigpanic)
      || (f.func_id == func_id_async_preempt)
      || (f.func_id == func_id_debug_call_v2)
    then cleared + unwind_trap
    else cleared

-- The fields of the frame that `resolveInternal` has in its variables at the end of the jump over a
-- system stack, with the unwinder's goroutine and the function flags.
pub record Jump : Type 0 where
  pub frame : Stkframe
  pub g : ℕ
  pub flag : ℕ

abbrev flag_of : Option FuncInfo → Outcome ℕ
flag_of none = panic
flag_of (some f) = ok (f.func.flag)

module _ (mem : Vmem) (md : Moduledata) where
  -- The condition of the jump, tested from left to right.
  pub must_jump : ℕ → ℕ → Outcome Bool
  unfolding has_flag g_m_g0 g_m_curg g_m
  must_jump flags gp =
      if has_flag flags unwind_jump_stack
      then (do
        g0 ← g_m_g0 mem gp
        let tests = (do
          curg ← g_m_curg mem gp
          let last = g_m mem gp >>= (λ m. ok (curg == m))
          if curg == 0 then ok false else last)
        if gp == g0 then tests else ok false)
      else ok false

  -- The switch of the jump.
  jump : Func → Stkframe → ℕ → Outcome Jump
  unfolding g_m_curg g_sched_pc g_sched_lr g_sched_sp find_func
  jump f frame gp =
      if f.func_id == func_id_morestack
      then (do
        gp ← g_m_curg mem gp
        pc ← g_sched_pc mem gp
        fn ← find_func mem md pc
        flag ← flag_of fn
        lr ← g_sched_lr mem gp
        sp ← g_sched_sp mem gp
        ok (record {
          frame = record frame { fn = fn; pc = pc; lr = lr; sp = sp };
          g = gp;
          flag = flag;
        }))
      else if f.func_id == func_id_systemstack
      then (do
        gp ← g_m_curg mem gp
        sp ← g_sched_sp mem gp
        ok (record {
          frame = record frame { sp = sp };
          g = gp;
          flag = if has_flag f.flag func_flag_sp_write then f.flag - func_flag_sp_write else f.flag;
        }))
      else ok (record { frame = frame; g = gp; flag = f.flag })

  -- The part of `resolveInternal` that derives the frame pointer.
  pub resolve_fp : Func → Unwinder → Outcome Jump
  unfolding must_jump jump funcspdelta
  resolve_fp f u =
      let derived = (do
        jumps ← must_jump u.flags u.g
        j ←
            if jumps
            then jump f u.frame u.g
            else ok (record { frame = u.frame; g = u.g; flag = f.flag })
        fn ← or_panic (j.frame.fn)
        delta ← funcspdelta md fn (j.frame.pc)
        ok (record j {
          frame = record (j.frame) { fp = add64 (add64 (j.frame.sp) (sign_extend delta)) 8 };
        })) in
      if u.frame.fp == 0 then derived else ok (record { frame = u.frame; g = u.g; flag = f.flag })

  -- The part of `resolveInternal` that derives the link register.
  pub resolve_lr : Bool → ℕ → ℕ → Stkframe → Outcome ℕ
  unfolding has_flag deref_u64
  resolve_lr innermost flags flag frame =
      let load = deref_u64 mem (sub64 frame.fp 8) in
      if has_flag flag func_flag_top_frame
      then ok 0
      else if has_flag flag func_flag_sp_write
      then (if has_flag flags (unwind_print_errors + unwind_silent_errors)
          then ok 0
          else if innermost
          then ok frame.lr
          else panic)
      else if frame.lr == 0
      then load
      else ok frame.lr

  -- `resolveInternal`, on a frame with a function.
  pub resolve_internal : Bool → Unwinder → Outcome Unwinder
  unfolding resolve_fp resolve_lr finish_internal
  resolve_internal innermost u = or_panic (u.frame.fn) >>= (λ fn.
      let resolved = (do
        j ← resolve_fp fn.func u
        lr ← resolve_lr innermost u.flags j.flag j.frame
        ok (record u {
          frame = record (j.frame) { lr = lr; varp = sub64 (j.frame.fp) 8 };
          g = j.g;
        })) in
      if fn.func.pcsp == 0 then ok (finish_internal u) else resolved)

  -- `initAt`, on the unwinder that the last call left.
  unfoldable pub init_at : ℕ → ℕ → ℕ → ℕ → Unwinder → Outcome Unwinder
  unfolding deref_u64 find_func finish_internal resolve_internal
  init_at pc0 sp0 gp flags u = do
    require (not ((pc0 == 2 ^ 64 - 1) && (sp0 == 2 ^ 64 - 1)))
    let load = deref_u64 mem sp0
    pc ← if pc0 == 0 then load else ok pc0
    let sp = if pc0 == 0 then add64 sp0 8 else sp0
    fn ← find_func mem md pc
    elim fn [
      | none ↦ ok (finish_internal u)
      | some f ↦ resolve_internal true (record {
        frame = record no_frame { fn = some f; pc = pc; sp = sp };
        g = gp;
        callee_func_id = 0;
        flags = flags;
      })
    ]

  -- The end of `next`, which moves to the caller's frame.
  pub enter_caller : Func → FuncInfo → Unwinder → Outcome Unwinder
  unfolding trap_flags resolve_internal
  enter_caller f flr u = resolve_internal false (record u {
    callee_func_id = f.func_id;
    flags = trap_flags f u.flags;
    frame = record (u.frame) { fn = some flr; pc = u.frame.lr; lr = 0; sp = u.frame.fp; fp = 0 };
  })

  -- `next`. It is called on a frame with a function.
  pub next : Unwinder → Outcome Unwinder
  unfolding find_func finish_internal enter_caller
  next u =
      let moved = (do
        flr ← find_func mem md (u.frame.lr)
        elim flr [
          | none ↦ ok (finish_internal (record u { frame = record (u.frame) { lr = 0 } }))
          | some flr ↦ do
            require (not ((u.frame.pc == u.frame.lr) && (u.frame.sp == u.frame.fp)))
            fn ← or_panic (u.frame.fn)
            enter_caller fn.func flr u
        ]) in
      if u.frame.lr == 0 then ok (finish_internal u) else moved

  -- `goStackIterator.Next`.
  unfoldable pub iterator_next : GoStackIterator → Outcome (Bool × GoStackIterator)
  unfolding valid next
  iterator_next s =
      let advanced = (do
        u ← next s.unwinder
        if valid u
            then ok (true, record s { unwinder = u; pc = u.frame.pc })
            else ok (false, record s { unwinder = u })) in
      if not (valid s.unwinder)
      then ok (false, s)
      else if s.first
      then ok (true, record s { first = false; pc = s.unwinder.frame.pc })
      else advanced
