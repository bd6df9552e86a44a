-- ===== src/Symbols.antt =====
-- pclntab.go and traceback.go: the source locations of a PC in a Go guest, with its inlined calls.
pub mod Chains
mod Tests
use wzprof.Base.{
  ℕ, zero, suc, ◌+◌, ◌-◌, ◌*◌, ◌%◌, ◌^◌, List, [], ◌∷◌, ◌++◌, reverse, Bool, true, false, not, ◌&&◌,
  ◌||◌, Option, none, some, ◌==◌, ltb, leb, if◌then◌else◌, length, get_elem?, Outcome, ok, panic,
  stuck, ◌>>=◌, or_panic,
}
use wzprof.Base.Words.{add64, add32}
use wzprof.WasmBin.{slice_from}
use wzprof.Pclntab.{
  le_number, field, Moduledata, FuncInfo, Vmem, deref_array_index, find_func, entry, func_name,
  cstring, sym_pc,
}
use wzprof.Traceback.{pcvalue, minus_one, sign_extend, func_id_sigpanic}

-- `pcdatastart` and `funcdataoffset`: words behind a `_func`, which takes 44 bytes.
pub pcdatastart : Moduledata → FuncInfo → ℕ → Outcome ℕ
unfolding field
pcdatastart md f table = field 4 (add32 (add32 f.funcoff 44) (table * 4 % 2 ^ 32)) md.pclntable

pub funcdataoffset : Moduledata → FuncInfo → ℕ → Outcome ℕ
unfolding field
funcdataoffset md f index =
    field 4 (add32 (add32 (add32 f.funcoff 44) (f.func.npcdata * 4 % 2 ^ 32)) (index * 4))
      md.pclntable

-- `funcdata`. The mask is 0 on the offset that stands for none, and else all ones.
pub funcdata : Moduledata → FuncInfo → ℕ → Outcome ℕ
unfolding funcdataoffset
funcdata md f i =
    let found =
      funcdataoffset md f i
      >>= (λ off. if off == 2 ^ 32 - 1 then ok 0 else ok (add64 md.gofunc off)) in
    if leb f.func.nfuncdata i then ok 0 else found

-- `pcdatavalue1`.
pub pcdatavalue1 : Moduledata → FuncInfo → ℕ → ℕ → Outcome ℕ
unfolding pcdatastart pcvalue
pcdatavalue1 md f table target =
    let value = pcdatastart md f table >>= (λ off. pcvalue md f off target >>= (λ r. ok (r.0))) in
    if leb f.func.npcdata table then ok minus_one else value

-- `inlinedCall`, which takes 16 bytes, with the fields that the code reads.
pub record InlinedCall : Type 0 where
  pub func_id : ℕ
  pub name_off : ℕ
  pub parent_pc : ℕ

pub inlined_call_at : Vmem → ℕ → ℕ → Outcome InlinedCall
unfolding deref_array_index field
inlined_call_at mem tree index = do
  b ← deref_array_index mem tree index 16
  func_id ← field 1 0 b
  name_off ← field 4 4 b
  parent_pc ← field 4 8 b
  ok (record { func_id = func_id; name_off = name_off; parent_pc = parent_pc })

-- `inlineFrame`: the index is an `int32`, negative in the outermost function.
pub record InlineFrame : Type 0 where
  pub pc : ℕ
  pub index : ℕ

abbrev pub is_negative : ℕ → Bool
is_negative v = leb (2 ^ 31) v

-- The indices of the tables of inlined calls.
abbrev pub pcdata_inl_tree_index : ℕ
pcdata_inl_tree_index = 2

abbrev pub funcdata_inl_tree : ℕ
funcdata_inl_tree = 3

-- The IDs that `elideWrapperCalling` and `Locations` tell apart.
abbrev pub func_id_gopanic : ℕ
func_id_gopanic = 9

abbrev pub func_id_panicwrap : ℕ
func_id_panicwrap = 14

abbrev pub func_id_wrapper : ℕ
func_id_wrapper = 21

unfoldable pub elide_wrapper_calling : ℕ → Bool
elide_wrapper_calling id =
    not ((id == func_id_gopanic) || (id == func_id_sigpanic) || (id == func_id_panicwrap))

-- A source location, with its strings as bytes.
pub record GoLocation : Type 0 where
  pub file : List ℕ
  pub line : ℕ
  pub name : List ℕ

-- `?`, where the tables have no file.
abbrev pub no_file : List ℕ
no_file = 63 ∷ []

-- `funcfile`.
pub funcfile : Moduledata → FuncInfo → ℕ → Outcome (List ℕ)
unfolding cstring
funcfile md f fileno = or_panic (get_elem? md.cutab (add32 f.func.cu_offset fileno)) >>= (λ fileoff.
    let file = slice_from fileoff md.filetab >>= (λ b. ok (cstring b)) in
    if fileoff == 2 ^ 32 - 1 then ok no_file else file)

-- `funcline1`. The file's number is compared as an `int`.
pub funcline1 : Moduledata → FuncInfo → ℕ → Outcome (List ℕ × ℕ)
unfolding pcvalue funcfile
funcline1 md f target = do
  fileno ← pcvalue md f f.func.pcfile target
  line ← pcvalue md f f.func.pcln target
  let known = funcfile md f (fileno.0) >>= (λ file. ok (file, line.0))
  if (fileno.0 == minus_one)
        || (line.0 == minus_one)
        || (not (is_negative (fileno.0)) && leb (length md.filetab) (fileno.0))
      then ok (no_file, 0)
      else known

-- `fileLine` reads the `funcinl` of an inlined function through an unsafe cast: what it finds there
-- is a parameter. So is the memory.
module _ (mem : Vmem) (md : Moduledata) (funcinl_at : FuncInfo → Outcome (List ℕ × ℕ)) where
  pub file_line : FuncInfo → ℕ → Outcome (List ℕ × ℕ)
  unfolding funcline1
  file_line f pc =
      let found = funcline1 md f pc in
      if f.func.entry_off == 2 ^ 32 - 1 then funcinl_at f else found

  -- `inlineUnwinder.resolveInternal`.
  pub inline_resolve : FuncInfo → ℕ → Outcome InlineFrame
  unfolding pcdatavalue1
  inline_resolve f pc =
      pcdatavalue1 md f pcdata_inl_tree_index pc
      >>= (λ index. ok (record { pc = pc; index = index }))

  -- `newInlineUnwinder`: the address of the tree of inlined calls, 0 when there is none, and the
  -- innermost frame.
  pub new_inline_unwinder : FuncInfo → ℕ → Outcome (ℕ × InlineFrame)
  unfolding funcdata inline_resolve
  new_inline_unwinder f pc = funcdata md f funcdata_inl_tree >>= (λ tree.
      let resolved = inline_resolve f pc >>= (λ uf. ok (tree, uf)) in
      if tree == 0 then ok (0, record { pc = pc; index = minus_one }) else resolved)

  -- `inlineUnwinder.next`.
  pub inline_next : FuncInfo → ℕ → InlineFrame → Outcome InlineFrame
  unfolding inlined_call_at inline_resolve
  inline_next f tree uf =
      let outer =
        inlined_call_at mem tree uf.index
        >>= (λ c. inline_resolve f (add64 (entry md f) (sign_extend c.parent_pc))) in
      if is_negative uf.index then ok (record uf { pc = 0 }) else outer

  -- `inlineUnwinder.srcFunc`, of which the code reads the ID.
  pub src_func_id : FuncInfo → ℕ → InlineFrame → Outcome ℕ
  unfolding inlined_call_at
  src_func_id f tree uf =
      let inlined = inlined_call_at mem tree uf.index >>= (λ c. ok c.func_id) in
      if is_negative uf.index then ok f.func.func_id else inlined

  -- The location of a PC: `PCToLine`, and what `Locations` appends, which is nothing where the PC has
  -- no function.
  pub location_at : ℕ → Outcome (List GoLocation)
  unfolding find_func file_line func_name
  location_at pc = find_func mem md pc >>= (λ found. elim found [
    | none ↦ ok []
    | some fn ↦ do
      at ← file_line fn pc
      name ← func_name md fn.func.name_off
      ok (record { file = at.0; line = at.1; name = name } ∷ [])
  ])

  -- The loop of `Locations`, on fuel: nothing in the tables bounds the chain of inlined calls.
  pub locations_loop :
      ℕ → FuncInfo → ℕ → InlineFrame → ℕ → List GoLocation → Outcome (List GoLocation)
  locations_loop zero f tree uf callee locs = stuck
  locations_loop (suc fuel) f tree uf callee locs =
      let round = src_func_id f tree uf >>= (λ id.
        let skipped =
          inline_next f tree uf >>= (λ outer. locations_loop fuel f tree outer callee locs) in
        let taken = location_at uf.pc >>= (λ loc.
          inline_next f tree uf >>= (λ outer. locations_loop fuel f tree outer id (locs ++ loc))) in
        if (id == func_id_wrapper) && elide_wrapper_calling callee then skipped else taken) in
      if uf.pc == 0 then ok locs else round

  -- `Locations`.
  pub locations : ℕ → FuncInfo → ℕ → Outcome (ℕ × List GoLocation)
  locations fuel f pc = do
    (tree, uf) ← new_inline_unwinder f (sym_pc md f pc)
    locs ← locations_loop fuel f tree uf 0 []
    ok (pc, reverse locs)
