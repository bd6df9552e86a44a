-- ===== src/Symbols/Tests.antt =====
-- The location of a PC in a function with nothing inlined.
use wzprof.Base.{
  ℕ, suc, ◌≡◌, refl, List, [], ◌∷◌, ◌++◌, reverse, some, Outcome, ok, panic, replicate, length,
  arith,
}
use wzprof.Pclntab.{Vmem, FuncInfo, Moduledata, text_off, text_addr, sym_pc}
use wzprof.Traceback.{minus_one}
use wzprof.Symbols.{
  GoLocation, InlineFrame, locations, location_at, new_inline_unwinder, src_func_id, inline_next,
}
use wzprof.Symbols.Chains.{Logical, IsChain, locations_kept}

abbrev zeros : Vmem
zeros address size = some (replicate size 0)

abbrev no_funcinl : FuncInfo → Outcome (List ℕ × ℕ)
no_funcinl f = panic

-- The function `m` in line 41 of `f.go`.
abbrev a_func : FuncInfo
a_func = record {
  func = record {
    entry_off = 0;
    name_off = 1;
    pcsp = 1;
    pcfile = 5;
    pcln = 9;
    npcdata = 0;
    cu_offset = 0;
    start_line = 0;
    func_id = 0;
    flag = 0;
    nfuncdata = 0;
  };
  funcoff = 0;
}

abbrev word : ℕ → List ℕ
word v = v ∷ 0 ∷ 0 ∷ 0 ∷ []

abbrev a_moduledata : Moduledata
a_moduledata = record {
  funcnametab = 0 ∷ 109 ∷ 0 ∷ [];
  cutab = 0 ∷ [];
  filetab = 102 ∷ 46 ∷ 103 ∷ 111 ∷ 0 ∷ [];
  pctab = 0 ∷ 18 ∷ 100 ∷ 0 ∷ 0 ∷ 2 ∷ 100 ∷ 0 ∷ 0 ∷ 84 ∷ 100 ∷ 0 ∷ [];
  pclntable =
      word 0 ++ (word 1 ++ (replicate 8 0 ++ (word 1 ++ (word 5 ++ (word 9 ++ replicate 16 0)))));
  ftab = record { entryoff = 0; funcoff = 0 } ∷ record { entryoff = 500; funcoff = 0 } ∷ [];
  findfunctab = 0;
  minpc = 1000;
  maxpc = 1500;
  text = 1000;
  gofunc = 0;
  textsectmap = [];
}

abbrev outermost : InlineFrame
outermost = record { pc = 1040; index = minus_one }

abbrev a_location : GoLocation
a_location = record { file = 102 ∷ 46 ∷ 103 ∷ 111 ∷ []; line = 41; name = 109 ∷ [] }

location_run : location_at zeros a_moduledata no_funcinl 1040 ≡ ok (a_location ∷ [])
unfolding location_at text_off text_addr
location_run = refl

start_run :
    new_inline_unwinder zeros a_moduledata no_funcinl a_func (sym_pc a_moduledata a_func 1041)
    ≡ ok (0, outermost)
unfolding new_inline_unwinder text_addr sym_pc
start_run = refl

one_frame : IsChain zeros a_moduledata no_funcinl a_func 0 outermost ((0, 1040) ∷ [])
unfolding src_func_id inline_next
one_frame =
    (refl, (λ e. omega (arith, e)), refl, (record { pc = 0; index = minus_one }, refl, refl))

locations_kept_example :
    locations zeros a_moduledata no_funcinl
      (suc (length {A = Logical} ((0, 1040) ∷ [])))
      a_func
      1041
    ≡ ok (1041, reverse (a_location ∷ []))
locations_kept_example =
    locations_kept zeros a_moduledata no_funcinl a_func 1041 0 ((0, 1040) ∷ []) outermost
      (a_location ∷ []) start_run one_frame (rw location_run refl)
