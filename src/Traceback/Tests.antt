-- ===== src/Traceback/Tests.antt =====
-- A step of the unwinder in a memory of zeros, and a walk of a stack of two frames.
use wzprof.Base.{
  arith, ◌≢◌, List, ◌≡◌, ◌⊎◌, refl, inl, [], ◌∷◌, ◌++◌, false, some, ok, replicate, ◌>>=◌, ◌==◌,
  if◌then◌else◌,
}
use wzprof.Pclntab.{Vmem, FuncInfo, Moduledata, text_off, text_addr}
use wzprof.Traceback.Values.{Row, table_bytes, run_of, or_invalid, pcvalue-rows}
use wzprof.Traceback.{minus_one, zigzag, pcvalue, Stkframe, Unwinder, valid, next}
use wzprof.Traceback.Next.{AtCaller, next_sound}
use wzprof.Pclntab.{fid_to_pc, pc_to_fid, find_func, func_name, deref_u64}
use wzprof.Pclntab.Load.{Pclntab, ensure_ready}
use wzprof.Traceback.{GoStackIterator, no_frame, funcspdelta, has_flag}
use wzprof.Traceback.Walk.{
  Frame, IsFrame, IsStack, start_walk, walk, visited, index, pc_to_name, walk-IsStack,
}

abbrev zeros : Vmem
zeros address size = some (replicate size 0)

-- One function of a frame of 8 bytes, up to offset 100.
abbrev a_func : FuncInfo
a_func = record {
  func = record {
    entry_off = 0;
    name_off = 0;
    pcsp = 1;
    pcfile = 0;
    pcln = 0;
    npcdata = 0;
    cu_offset = 0;
    start_line = 0;
    func_id = 0;
    flag = 0;
    nfuncdata = 0;
  };
  funcoff = 0;
}

abbrev a_moduledata : Moduledata
a_moduledata = record {
  funcnametab = [];
  cutab = [];
  filetab = [];
  pctab = 0 ∷ 18 ∷ 100 ∷ 0 ∷ [];
  pclntable = replicate 16 0 ++ (1 ∷ replicate 27 0);
  ftab = record { entryoff = 0; funcoff = 0 } ∷ record { entryoff = 500; funcoff = 0 } ∷ [];
  findfunctab = 0;
  minpc = 1000;
  maxpc = 1500;
  text = 1000;
  gofunc = 0;
  textsectmap = [];
}

abbrev unwinder_at : Stkframe → Unwinder
unwinder_at frame = record { frame = frame; g = 0; callee_func_id = 0; flags = 0 }

abbrev callee : Unwinder
callee =
    unwinder_at (record { fn = some a_func; pc = 1040; lr = 1010; sp = 200; fp = 216; varp = 208 })

abbrev caller : Unwinder
caller =
    unwinder_at (record { fn = some a_func; pc = 1010; lr = 0; sp = 216; fp = 232; varp = 224 })

next_run : next zeros a_moduledata callee ≡ ok caller
unfolding next text_off text_addr
next_run = refl

next_sound_example : (valid caller ≡ false) ⊎ AtCaller zeros a_moduledata callee a_func caller
next_sound_example = next_sound zeros a_moduledata callee a_func caller refl (inl refl) next_run

-- A value of 4 up to offset 16, of 300 up to offset 400, and of 299 up to offset 416.
abbrev three_rows : List Row
three_rows = (10, 16) ∷ (592, 384) ∷ (1, 16) ∷ []

pcvalue-rows_example :
    pcvalue (record a_moduledata { pctab = 9 ∷ (table_bytes three_rows ++ []) }) a_func 1 1300
    ≡ or_invalid (run_of three_rows 1300 1000 minus_one)
unfolding text_addr
pcvalue-rows_example =
    pcvalue-rows (record a_moduledata { pctab = 9 ∷ (table_bytes three_rows ++ []) }) a_func 1 1300
      (9 ∷ []) [] three_rows refl refl (omega arith) (nonempty)
      (
        omega arith,
        omega arith,
        omega arith,
        omega arith,
        (λ e. cc),
        (
          omega arith,
          omega arith,
          omega arith,
          omega arith,
          (λ e f. omega (arith, f)),
          (omega arith, omega arith, omega arith, omega arith, (λ e f. omega (arith, f)), tt),
        ),
      )
  where
    nonempty : ◌≢◌ {A = List Row} three_rows []
    nonempty n = cc

-- The target is in the second run.
run_of-three_rows : run_of three_rows 1300 1000 minus_one ≡ some (300, 1016)
unfolding zigzag
run_of-three_rows = refl

-- The second function, at the top of the stack.
abbrev top_func : FuncInfo
top_func = record {
  func = record {
    entry_off = 65536;
    name_off = 0;
    pcsp = 1;
    pcfile = 0;
    pcln = 0;
    npcdata = 0;
    cu_offset = 0;
    start_line = 0;
    func_id = 0;
    flag = 1;
    nfuncdata = 0;
  };
  funcoff = 44;
}

abbrev two_functions : Moduledata
two_functions = record a_moduledata {
  pclntable =
      (replicate 16 0 ++ (1 ∷ replicate 27 0))
      ++ (0 ∷ 0 ∷ 1 ∷ 0 ∷ (replicate 12 0 ++ (1 ∷ (replicate 24 0 ++ (1 ∷ 0 ∷ 0 ∷ [])))));
  ftab =
      record { entryoff = 0; funcoff = 0 }
      ∷ record { entryoff = 65536; funcoff = 44 }
      ∷ record { entryoff = 131072; funcoff = 0 }
      ∷ [];
  minpc = 268435456;
  maxpc = 268566528;
  text = 268435456;
}

-- The return address 268501002 at 208.
abbrev a_stack : Vmem
a_stack address size =
    if address == 208 then some (10 ∷ 0 ∷ 1 ∷ 16 ∷ 0 ∷ 0 ∷ 0 ∷ 0 ∷ []) else some (replicate size 0)

abbrev inner : Frame
inner = record { fn = a_func; pc = 268435456; sp = 200; fp = 216 }

abbrev outer : Frame
outer = record { fn = top_func; pc = 268501002; sp = 216; fp = 232 }

inner-IsFrame : IsFrame a_stack two_functions inner
unfolding find_func funcspdelta text_off text_addr
inner-IsFrame = record {
  found = refl;
  has_pc = refl;
  has_table = refl;
  size = 8;
  size_eq = refl;
  fp_eq = refl;
}

outer-IsFrame : IsFrame a_stack two_functions outer
unfolding find_func funcspdelta text_off text_addr
outer-IsFrame = record {
  found = refl;
  has_pc = refl;
  has_table = refl;
  size = 8;
  size_eq = refl;
  fp_eq = refl;
}

two_frames-IsStack : IsStack a_stack two_functions (inner ∷ outer ∷ [])
unfolding has_flag deref_u64
two_frames-IsStack = (inner-IsFrame, refl, refl, refl, refl, refl, (outer-IsFrame, refl))

abbrev go_tables : Pclntab
go_tables = record { imported = 2; datap = 0; mem = some 1; md = two_functions }

go_tables_ready : ensure_ready (λ m. a_stack) 1 go_tables ≡ ok go_tables
unfolding ensure_ready
go_tables_ready = refl

two_pc : 268435456 ≡ fid_to_pc 2 2
unfolding fid_to_pc
two_pc = refl

abbrev an_iterator : GoStackIterator
an_iterator = record { first = false; pc = 0; unwinder = unwinder_at no_frame }

walk-IsStack_example :
    ((start_walk (λ m. a_stack) 1 2 200 0 go_tables an_iterator
        >>= (λ (tables, s). walk a_stack tables.md 3 s))
      ≡ ok (visited inner ∷ visited outer ∷ []))
    × (index 2 (visited inner).0 ≡ 2)
walk-IsStack_example =
    walk-IsStack (λ m. a_stack) 1 2 200 0 3 go_tables go_tables an_iterator inner (outer ∷ [])
      go_tables_ready two_frames-IsStack two_pc refl (omega arith) (omega arith) (omega arith)
      (omega arith)

-- The caller is the second function of the module, which has no name.
outer_index : index 2 (visited outer).0 ≡ 3
unfolding index pc_to_fid
outer_index = refl

outer_name : pc_to_name a_stack two_functions outer.pc ≡ ok []
unfolding pc_to_name func_name find_func text_off text_addr
outer_name = refl
