-- ===== src/Traceback/Walk.antt =====
-- wzprof.go and pclntab.go: the iterator that `Prepare` installs for Go, started at a call of the guest,
-- and the loop of `makeStackTrace` over it.
use wzprof.Base.{
  ℕ, zero, suc, ◌-◌, ◌%◌, ◌^◌, ◌<◌, ◌≤◌, ◌≡◌, refl, sym, subst, List, [], ◌∷◌, map, Bool, true,
  false, ◌&&◌, Option, none, some, ◌==◌, if◌then◌else◌, inl, length, Outcome, ok, stuck, ◌>>=◌,
  arith,
}
use wzprof.Base.Words.{add64, sub64}
use wzprof.Pclntab.{
  Moduledata, FuncInfo, Vmem, deref_u64, find_func, func_name, fid_to_pc, pc_to_fid,
}
use wzprof.Pclntab.Addresses.{pc_to_fid-fid_to_pc}
use wzprof.Pclntab.Load.{Pclntab, ensure_ready}
use wzprof.Traceback.{
  Stkframe, Unwinder, GoStackIterator, has_flag, valid, finish_internal, funcspdelta, sign_extend,
  must_jump, resolve_fp, resolve_lr, resolve_internal, trap_flags, init_at, enter_caller, next,
  iterator_next, func_flag_top_frame, func_flag_sp_write, unwind_jump_stack,
}
use wzprof.Traceback.Next.{IsPlain, trap_flags-IsPlain, IsPlain-no_jump}

-- `goFunction`, less its memory and its symbols.
pub record GoFunction : Type 0 where
  pub info : Option FuncInfo
  pub pc : ℕ

-- `Function`, of the iterator.
pub function_of : GoStackIterator → GoFunction
function_of s = record { info = s.unwinder.frame.fn; pc = s.unwinder.frame.pc }

-- `Index` and `Name` of a function, which ask `PCToFID` and `PCToName`.
unfoldable pub index : ℕ → GoFunction → ℕ
index imported f = pc_to_fid imported f.pc % 2 ^ 32

unfoldable pub pc_to_name : Vmem → Moduledata → ℕ → Outcome (List ℕ)
pc_to_name mem md pc =
    find_func mem md pc >>= (λ f. elim f [ none ↦ ok [] | some f ↦ func_name md f.func.name_off ])

-- The iterator at a call of the function with an id, where the guest's globals hold the stack pointer
-- and the goroutine.
pub start_walk :
    (ℕ → Vmem) → ℕ → ℕ → ℕ → ℕ → Pclntab → GoStackIterator → Outcome (Pclntab × GoStackIterator)
unfolding init_at
start_walk memory mem f sp g tables s = do
  tables ← ensure_ready memory mem tables
  u ← init_at (memory mem) tables.md (fid_to_pc tables.imported f) (sp % 2 ^ 32) g 0 s.unwinder
  ok (tables, record s { first = true; unwinder = u })

-- The functions and PCs that `makeStackTrace` takes from the iterator.
pub walk : Vmem → Moduledata → ℕ → GoStackIterator → Outcome (List (GoFunction × ℕ))
unfolding iterator_next function_of
walk mem md zero s = stuck
walk mem md (suc fuel) s = iterator_next mem md s >>= (λ (more, s).
    let rest = walk mem md fuel s >>= (λ frames. ok ((function_of s, s.pc) ∷ frames)) in
    if more then rest else ok [])

-- A frame of a stack: its function and PC, its stack pointer, and the frame pointer above it.
pub record Frame : Type 0 where
  pub fn : FuncInfo
  pub pc : ℕ
  pub sp : ℕ
  pub fp : ℕ

-- What the tables tell of a frame.
pub record IsFrame (mem : Vmem) (md : Moduledata) (f : Frame) : Type 0 where
  pub found : find_func mem md f.pc ≡ ok (some f.fn)
  pub has_pc : (f.pc == 0) ≡ false
  pub has_table : (f.fn.func.pcsp == 0) ≡ false
  pub size : ℕ
  pub size_eq : funcspdelta md f.fn f.pc ≡ ok size
  pub fp_eq : add64 (add64 f.sp (sign_extend size)) 8 ≡ f.fp

-- A stack in the guest's memory, from its innermost frame on: the word under each frame pointer is
-- the PC in the caller, the next frame, which has its stack pointer there. The last function is marked
-- as the top of a stack, and those below it are not, nor are they marked to write the stack pointer.
abbrev pub IsStack : Vmem → Moduledata → List Frame → Type 0
IsStack mem md [] = ⊥
IsStack mem md (f ∷ []) = IsFrame mem md f × (has_flag f.fn.func.flag func_flag_top_frame ≡ true)
IsStack mem md (f ∷ g ∷ fs) =
    IsFrame mem md f
    × (has_flag f.fn.func.flag func_flag_top_frame ≡ false)
    × (has_flag f.fn.func.flag func_flag_sp_write ≡ false)
    × (deref_u64 mem (sub64 f.fp 8) ≡ ok g.pc)
    × (g.sp ≡ f.fp)
    × ((f.pc == g.pc) && (f.sp == f.fp) ≡ false)
    × IsStack mem md (g ∷ fs)

-- The return address in a frame, before the callers.
abbrev caller_pc : List Frame → ℕ
caller_pc [] = 0
caller_pc (g ∷ fs) = g.pc

-- A frame before and after `resolveInternal`.
abbrev unresolved : Frame → ℕ → Stkframe
unresolved f varp = record { fn = some f.fn; pc = f.pc; lr = 0; sp = f.sp; fp = 0; varp = varp }

abbrev resolved : Frame → ℕ → Stkframe
resolved f lr = record {
  fn = some f.fn;
  pc = f.pc;
  lr = lr;
  sp = f.sp;
  fp = f.fp;
  varp = sub64 f.fp 8;
}

abbrev pub visited : Frame → GoFunction × ℕ
visited f = (record { info = some f.fn; pc = f.pc }, f.pc)

-- The unwinder behind a frame, but for its frame.
abbrev past : Frame → Unwinder → Unwinder
past f u = record u { callee_func_id = f.fn.func.func_id; flags = trap_flags f.fn.func u.flags }

module _ (mem : Vmem) (md : Moduledata) where
  IsStack-head : (f : Frame) (fs : List Frame) → IsStack mem md (f ∷ fs) → IsFrame mem md f
  IsStack-head f [] s = s.0
  IsStack-head f (g ∷ fs) s = s.0

  IsStack-tail :
      (f g : Frame) (fs : List Frame) → IsStack mem md (f ∷ g ∷ fs) → IsStack mem md (g ∷ fs)
  IsStack-tail f g fs (h, top, write, lr, sp, differs, more) = more

  resolve_lr-IsStack :
      (innermost : Bool) (flags varp : ℕ) (f : Frame) (fs : List Frame)
      → IsStack mem md (f ∷ fs)
      → resolve_lr mem md innermost flags f.fn.func.flag (record (unresolved f varp) { fp = f.fp })
        ≡ ok (caller_pc fs)
  unfolding resolve_lr
  resolve_lr-IsStack innermost flags varp f [] (h, top) = rw (top) refl
  resolve_lr-IsStack innermost flags varp f (g ∷ fs) (h, top, write, lr, sp, differs, more) =
      rw (top, write, lr) refl

  resolve_fp-IsFrame :
      (f : Frame) (u : Unwinder) (varp : ℕ)
      → has_flag u.flags unwind_jump_stack ≡ false
      → IsFrame mem md f
      → resolve_fp mem md f.fn.func (record u { frame = unresolved f varp })
        ≡ ok (record {
          frame = record (unresolved f varp) { fp = f.fp };
          g = u.g;
          flag = f.fn.func.flag;
        })
  unfolding resolve_fp must_jump
  resolve_fp-IsFrame f u varp flag h = rw (flag, h.size_eq, h.fp_eq) refl

  resolve_internal-IsStack :
      (innermost : Bool) (f : Frame) (fs : List Frame) (u : Unwinder) (varp : ℕ)
      → IsPlain u.flags
      → IsStack mem md (f ∷ fs)
      → resolve_internal mem md innermost (record u { frame = unresolved f varp })
        ≡ ok (record u { frame = resolved f (caller_pc fs) })
  unfolding resolve_internal
  resolve_internal-IsStack innermost f fs u varp plain s =
      let h = IsStack-head f fs s in
      rw
        (
          h.has_table,
          resolve_fp-IsFrame f u varp (IsPlain-no_jump u.flags plain) h,
          resolve_lr-IsStack innermost u.flags varp f fs s,
        )
        refl

  -- What `next` leaves at the caller.
  next-IsStack :
      (f g : Frame) (fs : List Frame) (u : Unwinder)
      → IsPlain u.flags
      → IsStack mem md (f ∷ g ∷ fs)
      → next mem md (record u { frame = resolved f g.pc })
        ≡ ok (record (past f u) { frame = resolved g (caller_pc fs) })
  unfolding next enter_caller
  next-IsStack f g fs u plain (h, top, write, lr, sp, differs, more) =
      let k = IsStack-head g fs more in
      rw (k.has_pc, k.found, differs, sym sp)
        (resolve_internal-IsStack false g fs (past f u) (sub64 g.sp 8)
          (trap_flags-IsPlain f.fn.func u.flags plain) more)

  -- The iterator behind a frame visits its callers.
  abbrev at_frame : ℕ → Unwinder → Stkframe → GoStackIterator
  at_frame pc u frame = record { first = false; pc = pc; unwinder = record u { frame = frame } }

  iterator_next-top :
      (f : Frame) (u : Unwinder) (pc : ℕ)
      → IsStack mem md (f ∷ [])
      → iterator_next mem md (at_frame pc u (resolved f 0))
        ≡ ok (false, at_frame pc u (record (resolved f 0) { pc = 0 }))
  unfolding iterator_next next valid finish_internal
  iterator_next-top f u pc s = let h = IsStack-head f [] s in rw (h.has_pc) refl

  iterator_next-IsStack :
      (f g : Frame) (fs : List Frame) (u : Unwinder) (pc : ℕ)
      → IsPlain u.flags
      → IsStack mem md (f ∷ g ∷ fs)
      → iterator_next mem md (at_frame pc u (resolved f g.pc))
        ≡ ok (true, at_frame g.pc (past f u) (resolved g (caller_pc fs)))
  unfolding iterator_next valid
  iterator_next-IsStack f g fs u pc plain s =
      let h = IsStack-head f (g ∷ fs) s in
      let k = IsStack-head g fs (IsStack-tail f g fs s) in
      rw (h.has_pc, next-IsStack f g fs u plain s, k.has_pc) refl

  walk-callers :
      (f : Frame) (fs : List Frame) (u : Unwinder) (fuel pc : ℕ)
      → IsPlain u.flags
      → IsStack mem md (f ∷ fs)
      → length fs < fuel
      → walk mem md fuel (at_frame pc u (resolved f (caller_pc fs))) ≡ ok (map visited fs)
  unfolding walk function_of
  walk-callers f fs u zero pc plain s l = absurd (omega (arith, l))
  walk-callers f [] u (suc fuel) pc plain s l = rw (iterator_next-top f u pc s) refl
  walk-callers f (g ∷ fs) u (suc fuel) pc plain s l =
      rw
        (
          iterator_next-IsStack f g fs u pc plain s,
          walk-callers g fs (past f u) fuel g.pc (trap_flags-IsPlain f.fn.func u.flags plain)
              (IsStack-tail f g fs s) (omega (arith, l)),
        )
        refl

  initialized : (pc sp : ℕ) → sp < 2 ^ 32 → ((pc == 2 ^ 64 - 1) && (sp == 2 ^ 64 - 1)) ≡ false
  initialized pc sp l = ground arith

  -- The unwinder at the innermost frame.
  abbrev entered : ℕ → Stkframe → Unwinder
  entered g frame = record { frame = frame; g = g; callee_func_id = 0; flags = 0 }

  init_at-IsStack :
      (g : ℕ) (f : Frame) (fs : List Frame) (u : Unwinder)
      → f.sp < 2 ^ 32
      → IsStack mem md (f ∷ fs)
      → init_at mem md f.pc f.sp g 0 u ≡ ok (entered g (resolved f (caller_pc fs)))
  unfolding init_at
  init_at-IsStack g f fs u l s =
      let h = IsStack-head f fs s in
      rw (initialized f.pc f.sp l, h.has_pc, h.found, h.has_pc)
        (resolve_internal-IsStack true f fs (entered g (unresolved f 0)) 0 (inl refl) s)

  walk-entered :
      (f : Frame) (fs : List Frame) (u : Unwinder) (fuel pc : ℕ)
      → IsPlain u.flags
      → IsStack mem md (f ∷ fs)
      → length (f ∷ fs) < fuel
      → walk mem md fuel (record (at_frame pc u (resolved f (caller_pc fs))) { first = true })
        ≡ ok (map visited (f ∷ fs))
  unfolding walk function_of iterator_next valid
  walk-entered f fs u zero pc plain s l = absurd (omega (arith, l))
  walk-entered f fs u (suc fuel) pc plain s l =
      let h = IsStack-head f fs s in
      rw (h.has_pc, walk-callers f fs u fuel f.pc plain s (omega (arith, l))) refl

index_of-call :
    (imported i : ℕ)
    → imported ≤ i
    → i < 2 ^ 32
    → pc_to_fid imported (fid_to_pc imported i) % 2 ^ 32 ≡ i
unfolding pc_to_fid
index_of-call imported i low high =
    omega (arith, pc_to_fid-fid_to_pc imported i 0 low high (omega arith), high)

-- Where the tables are loaded from a memory that holds a stack, the innermost frame of which is one of a
-- function whose call begins, with the PC that `FIDToPC` gives for its id and the stack pointer of the
-- guest's global, then `makeStackTrace` takes from the iterator the functions and PCs of the stack,
-- the innermost first, and no other; and the id of the first is that of the call. The id is that of a
-- function of the module, past the imported ones, and the fuel is more than there are frames.
pub walk-IsStack :
    (memory : ℕ → Vmem) (mem i sp g fuel : ℕ) (tables loaded : Pclntab) (s : GoStackIterator)
    (f : Frame) (fs : List Frame)
    → ensure_ready memory mem tables ≡ ok loaded
    → IsStack (memory mem) loaded.md (f ∷ fs)
    → f.pc ≡ fid_to_pc loaded.imported i
    → f.sp ≡ sp
    → sp < 2 ^ 32
    → loaded.imported ≤ i
    → i < 2 ^ 32
    → length (f ∷ fs) < fuel
    → ((start_walk memory mem i sp g tables s
          >>= (λ (tables, s). walk (memory mem) tables.md fuel s))
        ≡ ok (map visited (f ∷ fs)))
      × (index loaded.imported (visited f).0 ≡ i)
unfolding start_walk index
walk-IsStack memory mem i sp g fuel tables loaded s f fs ready h pc sp_eq small low_id high_id
      enough =
    let low : sp % 2 ^ 32 ≡ f.sp = omega (arith, small, sp_eq) in
    let at_top : Unwinder = entered (memory mem) loaded.md g (resolved f (caller_pc fs)) in
    let started = λ (pc sp : ℕ). init_at (memory mem) loaded.md pc sp g 0 s.unwinder ≡ ok at_top in
    let begun =
      init_at-IsStack (memory mem) loaded.md g f fs s.unwinder (omega (arith, small, sp_eq)) h in
    (
      rw
          (
            ready,
            subst (λ (x : ℕ). started x (sp % 2 ^ 32)) pc (subst (started f.pc) (sym low) begun),
          )
          (walk-entered (memory mem) loaded.md f fs at_top fuel s.pc (inl refl) h enough),
      rw (pc) (index_of-call loaded.imported i low_id high_id),
    )
