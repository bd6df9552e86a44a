-- ===== src/Pclntab/Tests.antt =====
-- The theorems about pclntab.go at concrete tables.
use wzprof.Base.{
  ℕ, suc, ◌≡◌, refl, List, [], ◌∷◌, ◌++◌, Option, none, some, ok, panic, stuck, inl, inr, arith,
  length, ◌==◌, if◌then◌else◌, replicate,
}
use wzprof.Pclntab.{Vmem, Functab, Textsect, Moduledata, FuncInfo, text_off, text_addr, scan_ftab}
use wzprof.Pclntab.Scan.{
  Misses, index_of, is_prefix, find_start_of_module_data, find_start_diverges,
}
use wzprof.WasmBin.{bytes_eq}
use wzprof.Trace.{le_bytes}
use wzprof.Pclntab.Load.{Pclntab, ensure_ready}
use wzprof.Pclntab.Load.Layout.{words_bytes}
use wzprof.Pclntab.Load.Ready.{HoldsModule, loaded, ensure_ready-HoldsModule}
use wzprof.Pclntab.FindFunc.{scan_ftab_finds, Found}
use wzprof.Pclntab.Addresses.{text_off-text_addr}

abbrev two_sections : List Textsect
two_sections =
    record { vaddr = 0; end = 100; baseaddr = 1000 }
    ∷ record { vaddr = 100; end = 250; baseaddr = 5000 }
    ∷ []

abbrev a_moduledata : Moduledata
a_moduledata = record {
  funcnametab = [];
  cutab = [];
  filetab = [];
  pctab = [];
  pclntable = [];
  ftab = [];
  findfunctab = 0;
  minpc = 1000;
  maxpc = 6000;
  text = 1000;
  gofunc = 0;
  textsectmap = two_sections;
}

abbrev a_func : FuncInfo
a_func = record {
  func = record {
    entry_off = 120;
    name_off = 1;
    pcsp = 1;
    pcfile = 0;
    pcln = 0;
    npcdata = 0;
    cu_offset = 0;
    start_line = 0;
    func_id = 0;
    flag = 0;
    nfuncdata = 0;
  };
  funcoff = 0;
}

-- The function at offset 120 is at 5020 in memory.
text_off-text_addr_example : text_off a_moduledata (text_addr a_moduledata 120) ≡ some 120
text_off-text_addr_example = text_off-text_addr a_moduledata 120 (omega arith) (
    inr (
      (
        omega arith,
        omega arith,
        omega arith,
        omega arith,
        omega arith,
        (omega arith, omega arith, omega arith, omega arith, omega arith, tt),
      ),
      inr (inl (omega arith, omega arith)),
    ))

abbrev three_functions : List Functab
three_functions =
    record { entryoff = 0; funcoff = 10 }
    ∷ record { entryoff = 64; funcoff = 20 }
    ∷ record { entryoff = 128; funcoff = 30 }
    ∷ []

scan_ftab_finds_example :
    (j : ℕ) × (scan_ftab (suc (length three_functions)) three_functions 70 0 ≡ ok j)
    × Found three_functions 70 0 j
scan_ftab_finds_example =
    scan_ftab_finds three_functions 70 0 0 2 128 (omega arith)
      (record { entryoff = 0; funcoff = 10 }, refl, refl) (omega arith) (omega arith)
      (record { entryoff = 128; funcoff = 30 }, refl, refl) (omega arith)

-- The addresses twice, with nothing of what should follow them.
abbrev repeated : List ℕ
repeated = 1 ∷ 2 ∷ (replicate 5 0 ++ (1 ∷ 2 ∷ replicate 60 0))

find_start_diverges_example :
    find_start_of_module_data 1000 repeated (1 ∷ 2 ∷ []) (9 ∷ []) (8 ∷ []) ≡ stuck
unfolding index_of is_prefix bytes_eq
find_start_diverges_example =
    find_start_diverges repeated (1 ∷ 2 ∷ []) (9 ∷ []) (8 ∷ []) 6 at_0 at_1 at_7 1000
  where
    at_0 : Misses repeated (1 ∷ 2 ∷ []) (9 ∷ []) (8 ∷ []) 0 0
    at_0 = (omega arith, refl, (replicate 8 0, refl, refl))

    at_1 : Misses repeated (1 ∷ 2 ∷ []) (9 ∷ []) (8 ∷ []) 1 6
    at_1 = (omega arith, refl, (replicate 8 0, refl, refl))

    at_7 : Misses repeated (1 ∷ 2 ∷ []) (9 ∷ []) (8 ∷ []) 7 0
    at_7 = (omega arith, refl, (replicate 8 0, refl, refl))

-- A memory with module data at 5000, and the elements of its slices below.
abbrev ws : List ℕ
ws =
    0 ∷ 100 ∷ 2 ∷ 2 ∷ 200 ∷ 1 ∷ 1 ∷ 300 ∷ 1 ∷ 1 ∷ 400 ∷ 1 ∷ 1 ∷ 500 ∷ 1 ∷ 1 ∷ 600 ∷ 1 ∷ 1 ∷ 7 ∷ 8
    ∷ 9 ∷ 10 ∷ 0 ∷ 0 ∷ 0 ∷ 0 ∷ 0 ∷ 0 ∷ 0 ∷ 0 ∷ 0 ∷ 0 ∷ 0 ∷ 0 ∷ 0 ∷ 0 ∷ 0 ∷ 0 ∷ 0 ∷ 11 ∷ 700 ∷ 1 ∷ 1
    ∷ []

abbrev small_md : Moduledata
small_md = record {
  funcnametab = 65 ∷ 0 ∷ [];
  cutab = 5 ∷ [];
  filetab = 97 ∷ [];
  pctab = 2 ∷ [];
  pclntable = 3 ∷ [];
  ftab = record { entryoff = 1; funcoff = 2 } ∷ [];
  findfunctab = 7;
  minpc = 8;
  maxpc = 9;
  text = 10;
  gofunc = 11;
  textsectmap = record { vaddr = 0; end = 100; baseaddr = 1000 } ∷ [];
}

abbrev bytes_at : ℕ → Option (List ℕ)
bytes_at p =
    if p == 100
    then some (65 ∷ [])
    else if p == 101
    then some (0 ∷ [])
    else if p == 300
    then some (97 ∷ [])
    else if p == 400
    then some (2 ∷ [])
    else if p == 500
    then some (3 ∷ [])
    else none

abbrev small_memory : Vmem
small_memory p n =
    if n == 1
    then bytes_at p
    else if n == 4
    then (if p == 200 then some (5 ∷ 0 ∷ 0 ∷ 0 ∷ []) else none)
    else if n == 8
    then (if p == 600 then some (1 ∷ 0 ∷ 0 ∷ 0 ∷ 2 ∷ 0 ∷ 0 ∷ 0 ∷ []) else none)
    else if n == 24
    then (if p == 700 then some (words_bytes (0 ∷ 100 ∷ 1000 ∷ [])) else none)
    else if p == 5000
    then some (words_bytes ws)
    else none

small_md-HoldsModule : HoldsModule small_memory 5000 small_md
unfolding le_bytes
small_md-HoldsModule = record {
  words = ws;
  struct = refl;
  size = refl;
  fit = omega arith;
  funcnametab = (refl, omega arith, omega arith, (refl, (refl, tt)));
  cutab = (refl, omega arith, omega arith, (refl, tt));
  filetab = (refl, omega arith, omega arith, (refl, tt));
  pctab = (refl, omega arith, omega arith, (refl, tt));
  pclntable = (refl, omega arith, omega arith, (refl, tt));
  ftab = (refl, omega arith, omega arith, (refl, tt));
  findfunctab = refl;
  minpc = refl;
  maxpc = refl;
  text = refl;
  gofunc = refl;
  textsectmap = (refl, omega arith, omega arith, (refl, tt));
}

abbrev unread : Pclntab
unread = record { imported = 9; datap = 5000; mem = none; md = a_moduledata }

ensure_ready-HoldsModule_example :
    (ensure_ready (λ m. small_memory) 1 unread ≡ ok (loaded unread 1 small_md))
    × (ensure_ready (λ m p n. none) 1 (loaded unread 1 small_md) ≡ ok (loaded unread 1 small_md))
    × (ensure_ready (λ m p n. none) 2 (loaded unread 1 small_md) ≡ panic)
ensure_ready-HoldsModule_example =
    ensure_ready-HoldsModule (λ m. small_memory) (λ m p n. none) 1 2 unread small_md refl
      small_md-HoldsModule (omega arith)
