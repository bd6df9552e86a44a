-- ===== src/Pclntab.antt =====
-- pclntab.go: finding the Go symbol tables in a wasm binary, and looking functions up in them.
pub mod Scan
pub mod FindFunc
pub mod Addresses
pub mod Load
mod Tests
use wzprof.Base.{
  ℕ, zero, suc, ◌+◌, ◌-◌, ◌*◌, ◌/◌, ◌%◌, ◌^◌, List, [], ◌∷◌, ◌++◌, Bool, true, false, not, ◌&&◌,
  ◌||◌, Option, none, some, ltb, leb, ◌==◌, if◌then◌else◌, length, take, drop, get_elem?, Outcome,
  ok, panic, stuck, require, or_panic, ◌>>=◌, ◌>>◌,
}
use wzprof.Base.Words.{add64, sub64, add32, sub32}
use wzprof.WasmBin.{slice_from}

-- The number in the first `n` bytes, least significant first; it panics when they end too early.
unfoldable pub le_number : ℕ → List ℕ → Outcome ℕ
le_number zero b = ok 0
le_number (suc n) [] = panic
le_number (suc n) (x ∷ b) = le_number n b >>= λ v. ok (x + 256 * v)

-- The field of `size` bytes at an offset.
unfoldable pub field : ℕ → ℕ → List ℕ → Outcome ℕ
unfolding le_number
field size off b = slice_from off b >>= le_number size

-- `_func`, with the fields that the code reads. It takes 44 bytes.
pub record Func : Type 0 where
  pub entry_off : ℕ
  pub name_off : ℕ
  pub pcsp : ℕ
  pub pcfile : ℕ
  pub pcln : ℕ
  pub npcdata : ℕ
  pub cu_offset : ℕ
  pub start_line : ℕ
  pub func_id : ℕ
  pub flag : ℕ
  pub nfuncdata : ℕ

-- `functab` and `textsect`.
pub record Functab : Type 0 where
  pub entryoff : ℕ
  pub funcoff : ℕ

pub record Textsect : Type 0 where
  pub vaddr : ℕ
  pub end : ℕ
  pub baseaddr : ℕ

-- `moduledata`, with the fields that the code reads.
pub record Moduledata : Type 0 where
  pub funcnametab : List ℕ
  pub cutab : List ℕ
  pub filetab : List ℕ
  pub pctab : List ℕ
  pub pclntable : List ℕ
  pub ftab : List Functab
  pub findfunctab : ℕ
  pub minpc : ℕ
  pub maxpc : ℕ
  pub text : ℕ
  pub gofunc : ℕ
  pub textsectmap : List Textsect

-- `funcInfo`: where the `_func` stands, and what it holds. The nil `_func` is `none`.
pub record FuncInfo : Type 0 where
  pub func : Func
  pub funcoff : ℕ

-- `vmem.Read` at a `uint32` address.
abbrev pub Vmem : Type 0
Vmem = ℕ → ℕ → Option (List ℕ)

-- `deref` of a type of `size` bytes at a pointer, as its bytes.
unfoldable pub deref : Vmem → ℕ → ℕ → Outcome (List ℕ)
deref mem p size = or_panic (mem (p % 2 ^ 32) size)

unfoldable pub deref_u64 : Vmem → ℕ → Outcome ℕ
unfolding deref le_number
deref_u64 mem p = deref mem p 8 >>= le_number 8

-- `derefArrayIndex`: the address of an element.
unfoldable pub deref_array_index : Vmem → ℕ → ℕ → ℕ → Outcome (List ℕ)
unfolding deref
deref_array_index mem p i size = deref mem (add32 (p % 2 ^ 32) (i * size % 2 ^ 32)) size

-- The cast of the bytes at `pclntable[funcoff:]` to `*_func`.
pub func_at : List ℕ → ℕ → Outcome Func
unfolding field
func_at table off = do
  entry_off ← field 4 off table
  name_off ← field 4 (off + 4) table
  pcsp ← field 4 (off + 16) table
  pcfile ← field 4 (off + 20) table
  pcln ← field 4 (off + 24) table
  npcdata ← field 4 (off + 28) table
  cu_offset ← field 4 (off + 32) table
  start_line ← field 4 (off + 36) table
  func_id ← field 1 (off + 40) table
  flag ← field 1 (off + 41) table
  nfuncdata ← field 1 (off + 43) table
  ok (record {
    entry_off = entry_off;
    name_off = name_off;
    pcsp = pcsp;
    pcfile = pcfile;
    pcln = pcln;
    npcdata = npcdata;
    cu_offset = cu_offset;
    start_line = start_line;
    func_id = func_id;
    flag = flag;
    nfuncdata = nfuncdata;
  })

-- The loop of `textOff`, on the sections from the `i`-th of `n` on. Pointers have 64 bits, and the
-- result has 32.
pub text_off_loop : ℕ → ℕ → ℕ → ℕ → List Textsect → Option ℕ
text_off_loop pc res n i [] = some res
text_off_loop pc res n i (sect ∷ sects) =
    let end = add64 sect.baseaddr (sub64 sect.end sect.vaddr) in
    let end = if i == n then add64 end 1 else end in
    let more = text_off_loop pc res n (i + 1) sects in
    if ltb pc sect.baseaddr
    then none
    else if ltb pc end
    then some (add64 (sub64 pc sect.baseaddr) sect.vaddr % 2 ^ 32)
    else more

-- `textOff`; `none` is its false.
unfoldable pub text_off : Moduledata → ℕ → Option ℕ
unfolding text_off_loop
text_off md pc =
    let res = sub64 pc md.text % 2 ^ 32 in
    if ltb 1 (length md.textsectmap)
    then text_off_loop pc res (length md.textsectmap) 0 md.textsectmap
    else some res

pub text_addr_loop : ℕ → ℕ → ℕ → ℕ → List Textsect → ℕ
text_addr_loop off res n i [] = res
text_addr_loop off res n i (sect ∷ sects) =
    let more = text_addr_loop off res n (i + 1) sects in
    if (leb sect.vaddr off && ltb off sect.end) || ((i == n - 1) && (off == sect.end))
    then sub64 (add64 sect.baseaddr off) sect.vaddr
    else more

-- `textAddr`.
unfoldable pub text_addr : Moduledata → ℕ → ℕ
unfolding text_addr_loop
text_addr md off =
    let res = add64 md.text off in
    if ltb 1 (length md.textsectmap)
    then text_addr_loop off res (length md.textsectmap) 0 md.textsectmap
    else res

-- `funcInfo.entry`.
abbrev pub entry : Moduledata → FuncInfo → ℕ
entry md f = text_addr md f.func.entry_off

-- The loop of `FindFunc` over the function table, from an index on. An index is a `uint32` below the
-- length of a slice, and the fuel is that length.
pub scan_ftab : ℕ → List Functab → ℕ → ℕ → Outcome ℕ
scan_ftab zero ftab pc_off idx = stuck
scan_ftab (suc fuel) ftab pc_off idx = do
  next ← or_panic (get_elem? ftab (add32 idx 1))
  let rest = scan_ftab fuel ftab pc_off (add32 idx 1)
  if leb next.entryoff pc_off then rest else ok idx

-- The lookup behind the two early returns of `FindFunc`.
find_at : Vmem → Moduledata → ℕ → ℕ → Outcome (Option FuncInfo)
unfolding deref le_number func_at scan_ftab
find_at mem md pc pc_off = do
  let x = sub64 (add64 pc_off md.text) md.minpc
  bucket ← deref mem (add64 md.findfunctab (x / 4096 * 20 % 2 ^ 64)) 20
  first ← le_number 4 bucket
  sub ← or_panic (get_elem? bucket (4 + x % 4096 / 256))
  idx ← scan_ftab (suc (length md.ftab)) md.ftab pc_off (add32 first sub)
  row ← or_panic (get_elem? md.ftab idx)
  func ← func_at md.pclntable row.funcoff
  ok (some (record { func = func; funcoff = row.funcoff }))

-- `FindFunc`.
unfoldable pub find_func : Vmem → Moduledata → ℕ → Outcome (Option FuncInfo)
unfolding find_at
find_func mem md pc =
    if ltb pc md.minpc || leb md.maxpc pc
    then ok none
    else elim (text_off md pc) [ none ↦ ok none | some pc_off ↦ find_at mem md pc pc_off ]

-- `cstring`.
pub cstring_loop : List ℕ → List ℕ → List ℕ
cstring_loop seen [] = []
cstring_loop seen (b ∷ bs) = if b == 0 then seen else cstring_loop (seen ++ (b ∷ [])) bs

unfoldable pub cstring : List ℕ → List ℕ
unfolding cstring_loop
cstring b = cstring_loop [] b

-- `funcName`.
unfoldable pub func_name : Moduledata → ℕ → Outcome (List ℕ)
unfolding cstring
func_name md name_off =
    if name_off == 0 then ok [] else slice_from name_off md.funcnametab >>= (λ b. ok (cstring b))

-- `symPC`.
unfoldable pub sym_pc : Moduledata → FuncInfo → ℕ → ℕ
sym_pc md f pc = if ltb (entry md f) pc then sub64 pc 1 else pc

-- `PCToFID` and `FIDToPC`; a `fid` is an `int`.
abbrev pub func_value_offset : ℕ
func_value_offset = 0x1000

unfoldable pub pc_to_fid : ℕ → ℕ → ℕ
pc_to_fid imported pc = sub64 (add64 (pc / 2 ^ 16) imported) func_value_offset

unfoldable pub fid_to_pc : ℕ → ℕ → ℕ
fid_to_pc imported f = sub64 (add64 func_value_offset f) imported * 2 ^ 16 % 2 ^ 64

-- The loads from a `g` and its `m`: `gM`, `gMG0`, `gMCurg`, `gSchedSp`, `gSchedPc`, `gSchedLr`.
unfoldable pub g_m : Vmem → ℕ → Outcome ℕ
unfolding deref_u64
g_m mem g = deref_u64 mem (add64 g 48)

unfoldable pub g_m_g0 : Vmem → ℕ → Outcome ℕ
unfolding g_m
g_m_g0 mem g = g_m mem g >>= λ m. deref_u64 mem m

unfoldable pub g_m_curg : Vmem → ℕ → Outcome ℕ
unfolding g_m
g_m_curg mem g = g_m mem g >>= λ m. deref_u64 mem (add64 m 144)

unfoldable pub g_sched_sp : Vmem → ℕ → Outcome ℕ
unfolding deref_u64
g_sched_sp mem g = deref_u64 mem (add64 g 56)

unfoldable pub g_sched_pc : Vmem → ℕ → Outcome ℕ
unfolding deref_u64
g_sched_pc mem g = deref_u64 mem (add64 g 64)

unfoldable pub g_sched_lr : Vmem → ℕ → Outcome ℕ
unfolding deref_u64
g_sched_lr mem g = deref_u64 mem (add64 g 96)
