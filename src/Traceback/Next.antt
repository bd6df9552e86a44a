-- ===== src/Traceback/Next.antt =====
-- The walk from a frame to its caller's.
use wzprof.Base.{
  ℕ, ◌≡◌, ◌≢◌, ◌⊎◌, refl, sym, ap, subst, ◌∙◌, false, not, ◌&&◌, Option, none, some, inl, inr, ◌==◌,
  Outcome, ok, panic, stuck, ◌>>=◌, ◌>>◌, require, or_panic, >>=-eq-ok, Bool-cases, arith,
}
use wzprof.Base.Words.{add64, sub64}
use wzprof.Pclntab.{Moduledata, Func, FuncInfo, Vmem, find_func}
use wzprof.Traceback.{
  Stkframe, Unwinder, Jump, has_flag, finish_internal, valid, funcspdelta, sign_extend, must_jump,
  resolve_fp, resolve_lr, resolve_internal, trap_flags, enter_caller, next, unwind_jump_stack,
}

-- The frame is that of the caller, at the return address and the stack pointer that the callee's frame
-- `f` tells, and its own frame pointer lies above by what the function has on the stack there.
pub record IsCaller (md : Moduledata) (f : Stkframe) (fn : FuncInfo) (flags : ℕ) (u : Unwinder)
    : Type 0 where
  pub flags_eq : u.flags ≡ flags
  pub fn_eq : u.frame.fn ≡ some fn
  pub pc_eq : u.frame.pc ≡ f.lr
  pub sp_eq : u.frame.sp ≡ f.fp
  pub size : ℕ
  pub size_eq : funcspdelta md fn f.lr ≡ ok size
  pub fp_eq : u.frame.fp ≡ add64 (add64 f.fp (sign_extend size)) 8
  pub varp_eq : u.frame.varp ≡ sub64 (u.frame.fp) 8

ok-injective : {A : Type 0} (a b : A) → ok a ≡ ok b → a ≡ b
ok-injective a b e = ap (value a) e
  where
    value : {A : Type 0} → A → Outcome A → A
    value d (ok a) = a
    value d panic = d
    value d stuck = d

panic≢ok : {A : Type 0} (a : A) → panic ≢ ok a
panic≢ok a e = cc

-- What `resolveInternal` leaves.
abbrev finish : Unwinder → ℕ → Jump → Unwinder
finish u lr j = record u {
  frame = record (j.frame) { lr = lr; varp = sub64 (j.frame.fp) 8 };
  g = j.g;
}

abbrev caller_frame : Stkframe → FuncInfo → Stkframe
caller_frame f fn = record f { fn = some fn; pc = f.lr; lr = 0; sp = f.fp; fp = 0 }

module _ (mem : Vmem) (md : Moduledata) where
  resolve_fp_caller :
      (f : Stkframe) (fn : FuncInfo) (u : Unwinder) (size : ℕ)
      → has_flag u.flags unwind_jump_stack ≡ false
      → funcspdelta md fn f.lr ≡ ok size
      → resolve_fp mem md fn.func (record u { frame = caller_frame f fn })
        ≡ ok (record {
          frame = record (caller_frame f fn) { fp = add64 (add64 f.fp (sign_extend size)) 8 };
          g = u.g;
          flag = fn.func.flag;
        })
  unfolding resolve_fp must_jump
  resolve_fp_caller f fn u size flag e = rw (flag, e) refl

  resolve_fp_size :
      (f : Stkframe) (fn : FuncInfo) (u : Unwinder) (j : Jump)
      → has_flag u.flags unwind_jump_stack ≡ false
      → resolve_fp mem md fn.func (record u { frame = caller_frame f fn }) ≡ ok j
      → (size : ℕ) × (funcspdelta md fn f.lr ≡ ok size)
  unfolding resolve_fp must_jump
  resolve_fp_size f fn u j flag h =
      let (size, e, rest) = >>=-eq-ok (funcspdelta md fn f.lr) _ (rw flag at h) in (size, e)

  -- `resolveInternal` on the caller's frame, on the way out of `next`.
  resolve-IsCaller :
      (f : Stkframe) (fn : FuncInfo) (u after : Unwinder)
      → has_flag u.flags unwind_jump_stack ≡ false
      → resolve_internal mem md false (record u { frame = caller_frame f fn }) ≡ ok after
      → (valid after ≡ false) ⊎ IsCaller md f fn u.flags after
  unfolding resolve_internal finish_internal valid
  resolve-IsCaller f fn u after flag h = elim (Bool-cases (fn.func.pcsp == 0)) [
    | inl e ↦ inl (ap valid (sym (ok-injective _ _ (rw e at h))))
    | inr e ↦
        let (j, fp, more) =
          >>=-eq-ok (resolve_fp mem md fn.func (record u { frame = caller_frame f fn })) _
            (rw e at h) in
        let (lr, lr_eq, result) =
          >>=-eq-ok (resolve_lr mem md false u.flags j.flag j.frame) _ more in
        let (size, size_eq) = resolve_fp_size f fn u j flag fp in
        let j_eq = ok-injective _ _ (sym (resolve_fp_caller f fn u size flag size_eq) ∙ fp) in
        inr (
          subst (IsCaller md f fn u.flags) (ap (finish u lr) j_eq ∙ ok-injective _ _ result)
            (record {
              flags_eq = refl;
              fn_eq = refl;
              pc_eq = refl;
              sp_eq = refl;
              size = size;
              size_eq = size_eq;
              fp_eq = refl;
              varp_eq = refl;
            }))
  ]

-- The flags of an unwinding that `goStackIterator` starts: none, or the trap flag alone.
abbrev pub IsPlain : ℕ → Type 0
IsPlain flags = (flags ≡ 0) ⊎ (flags ≡ 4)

pub trap_flags-IsPlain : (f : Func) (flags : ℕ) → IsPlain flags → IsPlain (trap_flags f flags)
unfolding trap_flags has_flag
trap_flags-IsPlain f flags (inl e) = rw e (ground arith)
trap_flags-IsPlain f flags (inr e) = rw e (ground arith)

pub IsPlain-no_jump : (flags : ℕ) → IsPlain flags → has_flag flags unwind_jump_stack ≡ false
unfolding has_flag
IsPlain-no_jump flags (inl e) = rw e refl
IsPlain-no_jump flags (inr e) = rw e refl

module _ (mem : Vmem) (md : Moduledata) (u : Unwinder) (fn : FuncInfo) where
  -- The frame of the caller, which is not the frame that the walk left.
  abbrev pub AtCaller : Unwinder → Type 0
  AtCaller after =
      (caller : FuncInfo) × (find_func mem md (u.frame.lr) ≡ ok (some caller))
      × ((u.frame.pc == u.frame.lr) && (u.frame.sp == u.frame.fp) ≡ false)
      × IsPlain after.flags
      × IsCaller md (u.frame) caller (trap_flags fn.func u.flags) after

  next_to :
      (caller : FuncInfo) (after : Unwinder)
      → find_func mem md (u.frame.lr) ≡ ok (some caller)
      → ((u.frame.pc == u.frame.lr) && (u.frame.sp == u.frame.fp)) ≡ false
      → IsPlain u.flags
      → enter_caller mem md fn.func caller u ≡ ok after
      → (valid after ≡ false) ⊎ AtCaller after
  unfolding enter_caller
  next_to caller after find_eq differs plain h =
      let flags_plain = trap_flags-IsPlain fn.func u.flags plain in
      let entered : Unwinder = record u {
        callee_func_id = fn.func.func_id;
        flags = trap_flags fn.func u.flags;
      } in
      elim (resolve-IsCaller mem md (u.frame) caller entered after (IsPlain-no_jump _ flags_plain)
        h) [
          | inl v ↦ inl v
          | inr c ↦ inr (caller, find_eq, differs, subst IsPlain (sym c.flags_eq) flags_plain, c)
        ]

  -- `next` from a frame with a function, under the flags that `goStackIterator` has, when it returns:
  -- the walk is at its end, or it is at the frame of the caller, which is not the frame that it left.
  pub next_sound :
      (after : Unwinder)
      → u.frame.fn ≡ some fn
      → IsPlain u.flags
      → next mem md u ≡ ok after
      → (valid after ≡ false) ⊎ AtCaller after
  unfolding next finish_internal valid
  next_sound after fn_eq plain h = elim (Bool-cases (u.frame.lr == 0)) [
    | inl e ↦ inl (ap valid (sym (ok-injective _ _ (rw e at h))))
    | inr e ↦
        let (found, find_eq, more) = >>=-eq-ok (find_func mem md (u.frame.lr)) _ (rw e at h) in
        go found find_eq more
  ]
    where
      go :
          (found : Option FuncInfo)
          → find_func mem md (u.frame.lr) ≡ ok found
          → elim found as (λ _. Outcome Unwinder) [
            | none ↦ ok (finish_internal (record u { frame = record (u.frame) { lr = 0 } }))
            | some flr ↦
                require (not ((u.frame.pc == u.frame.lr) && (u.frame.sp == u.frame.fp)))
                >> (or_panic (u.frame.fn) >>= (λ f. enter_caller mem md f.func flr u))
          ]
            ≡ ok after
          → (valid after ≡ false) ⊎ AtCaller after
      go none find_eq h = inl (ap valid (sym (ok-injective _ _ h)))
      go (some flr) find_eq h =
          elim (Bool-cases ((u.frame.pc == u.frame.lr) && (u.frame.sp == u.frame.fp))) [
            | inl e ↦ absurd (panic≢ok after (rw e at h))
            | inr e ↦ next_to flr after find_eq e plain (rw (e, fn_eq) at h)
          ]
