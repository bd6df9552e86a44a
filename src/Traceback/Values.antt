-- ===== src/Traceback/Values.antt =====
-- The pc-value tables that the linker writes, and what `pcvalue` reads in them.
use wzprof.Base.{
  ℕ, zero, suc, ◌+◌, ◌*◌, ◌/◌, ◌%◌, ◌^◌, ◌≤◌, ◌<◌, ◌≡◌, ◌≢◌, refl, ap, ap₂, ◌∙◌, List, [], ◌∷◌,
  ◌++◌, append_assoc, Bool, true, false, not, ◌&&◌, Option, none, some, ltb, ◌==◌, ltb→lt, lt→ltb,
  ge→ltb, ne→==, ==_refl, if◌then◌else◌, Bool-cases, inl, inr, length, length-append, Outcome, ok,
  panic, ◌>>=◌, arith,
}
use native.Mathlib.Nat.{pow-suc}
use wzprof.Base.Words.{add32, add64}
use wzprof.Base.Bits.{bit_or_disjoint}
use wzprof.WasmBin.{slice_from}
use wzprof.WasmBin.Leb.{groups, groups_size, next_shift, low_and_high, slice_from-append}
use wzprof.Pclntab.{Moduledata, FuncInfo, entry}
use wzprof.Traceback.{
  readvarint_loop, readvarint, read_delta, zigzag, step, pcvalue_loop, pcvalue, minus_one,
}

inner_group :
    (g v s n : ℕ) (rest : List ℕ)
    → g < 128
    → v < 2 ^ s
    → s ≤ 28
    → n ≤ 4
    → g * 2 ^ s < 2 ^ 32
    → readvarint_loop ((128 + g) ∷ rest) v s n
      ≡ readvarint_loop rest (v + g * 2 ^ s) (s + 7) (n + 1)
unfolding readvarint_loop
inner_group g v s n rest h hv hs hn fits =
    let low : (128 + g) % 128 ≡ g = omega arith in
    let shift : s % 32 ≡ s = omega arith in
    let whole : g * 2 ^ s % 2 ^ 32 ≡ g * 2 ^ s = omega arith in
    let more : (s + 7) % 2 ^ 32 ≡ s + 7 = omega arith in
    let one : (n + 1) % 2 ^ 32 ≡ n + 1 = omega arith in
    rw (ge→ltb (128 + g) 128 (omega arith), low, shift, whole, bit_or_disjoint s v g hv, more, one)
      refl

last_group :
    (g v s n : ℕ) (rest : List ℕ)
    → g < 128
    → v < 2 ^ s
    → s ≤ 28
    → n ≤ 4
    → g * 2 ^ s < 2 ^ 32
    → readvarint_loop (g ∷ rest) v s n ≡ ok (n + 1, v + g * 2 ^ s)
unfolding readvarint_loop
last_group g v s n rest h hv hs hn fits =
    let low : g % 128 ≡ g = omega arith in
    let shift : s % 32 ≡ s = omega arith in
    let whole : g * 2 ^ s % 2 ^ 32 ≡ g * 2 ^ s = omega arith in
    let one : (n + 1) % 2 ^ 32 ≡ n + 1 = omega arith in
    rw (lt→ltb g 128 h, low, shift, whole, bit_or_disjoint s v g hv, one) refl

room : (g v q : ℕ) {r : ℕ} → r ≡ 128 * q → g < 128 → v < q → v + g * q < r
room g v q e h hv = grind arith

readvarint_loop-groups :
    (k w v s n : ℕ) (rest : List ℕ)
    → w < 128 ^ suc k
    → s ≡ 7 * n
    → n + k ≤ 4
    → v < 2 ^ s
    → w * 2 ^ s < 2 ^ 32
    → readvarint_loop (groups k w ++ rest) v s n ≡ ok (n + length (groups k w), v + w * 2 ^ s)
unfolding groups
readvarint_loop-groups zero w v s n rest h e hn hv fits =
    last_group w v s n rest (omega arith) hv (omega arith) (omega arith) fits
readvarint_loop-groups (suc k) w v s n rest h e hn hv fits = elim (Bool-cases (ltb w 128)) [
  | inl t ↦ rw t (last_group w v s n rest (ltb→lt w 128 t) hv (omega arith) (omega arith) fits)
  | inr t ↦
      let split = low_and_high w s in
      let shift = next_shift s in
      let inner =
        inner_group (w % 128) v s n (groups k (w / 128) ++ rest) (omega arith) hv (omega arith)
          (omega arith) (omega arith) in
      let rest_read =
        readvarint_loop-groups k (w / 128) (v + w % 128 * 2 ^ s) (s + 7) (n + 1) rest
          (omega (arith, pow-suc 128 (suc k))) (omega arith) (omega arith)
          (room (w % 128) v (2 ^ s) shift (omega arith) hv) (omega arith) in
      rw t (inner ∙ rest_read ∙ ap₂ (λ (i x : ℕ). ok (i, x)) (omega arith) (omega (arith, split)))
]

-- The encoding of a `uint32`.
abbrev pub varint_bytes : ℕ → List ℕ
varint_bytes u = groups 4 u

readvarint-bytes :
    (u : ℕ) (rest : List ℕ)
    → u < 2 ^ 32
    → readvarint (varint_bytes u ++ rest) ≡ ok (length (varint_bytes u), u)
unfolding readvarint
readvarint-bytes u rest h =
    readvarint_loop-groups 4 u 0 0 0 rest (omega arith) (omega arith) (omega arith) (omega arith)
      (omega arith)
    ∙ ap₂ (λ (i x : ℕ). ok (i, x)) (omega arith) (omega arith)

-- The first byte of an encoding: with its top bit set, and not zero.
abbrev IsLong : List ℕ → Type 0
IsLong [] = ⊥
IsLong (b ∷ p) = 128 ≤ b

abbrev Leads : Bool → List ℕ → Type 0
Leads first [] = ⊥
Leads first (b ∷ p) = (b == 0) && not first ≡ false

varint_bytes-IsLong : (u : ℕ) → ltb u 128 ≡ false → IsLong (varint_bytes u)
unfolding groups
varint_bytes-IsLong u t = rw t (omega arith)

varint_bytes-Leads : (first : Bool) (u : ℕ) → (first ≡ false → u ≢ 0) → Leads first (varint_bytes u)
unfolding groups
varint_bytes-Leads true u h = elim (Bool-cases (ltb u 128)) [
  | inl t ↦ rw t (ground arith)
  | inr t ↦ rw t (ground arith)
]
varint_bytes-Leads false u h = elim (Bool-cases (ltb u 128)) [
  | inl t ↦ rw (t, ne→== u 0 (h refl)) refl
  | inr t ↦ rw (t, ne→== (128 + u % 128) 0 (λ e. omega (arith, e))) refl
]

read_delta_of_long :
    (b : ℕ) (p : List ℕ)
    → 128 ≤ b
    → read_delta (b ∷ p)
      ≡ (readvarint (b ∷ p) >>= (λ r. slice_from r.0 (b ∷ p) >>= (λ q. ok (r.1, q))))
unfolding read_delta
read_delta_of_long b p h = rw (ge→ltb b 128 h) refl

read_long :
    (u : ℕ) (bs rest : List ℕ)
    → IsLong bs
    → readvarint (bs ++ rest) ≡ ok (length bs, u)
    → read_delta (bs ++ rest) ≡ ok (u, rest)
read_long u [] rest h e = elim h [ ]
read_long u (b ∷ p) rest h e =
    rw (read_delta_of_long b (p ++ rest) h, e, slice_from-append (b ∷ p) rest (length (b ∷ p)) refl)
      refl

read_delta-bytes :
    (u : ℕ) (rest : List ℕ) → u < 2 ^ 32 → read_delta (varint_bytes u ++ rest) ≡ ok (u, rest)
read_delta-bytes u rest h = elim (Bool-cases (ltb u 128)) [
  | inl t ↦ unfold groups in unfold read_delta in rw (t, t) refl
  | inr t ↦ read_long u (varint_bytes u) rest (varint_bytes-IsLong u t) (readvarint-bytes u rest h)
]

step_reads :
    (u d pc val : ℕ) (first : Bool) (bs more rest : List ℕ)
    → Leads first bs
    → read_delta (bs ++ more) ≡ ok (u, more)
    → read_delta more ≡ ok (d, rest)
    → step (bs ++ more) pc val first ≡ ok (some (rest, add64 pc d, add32 val (zigzag u)))
unfolding step
step_reads u d pc val first [] more rest h e f = elim h [ ]
step_reads u d pc val first (b ∷ p) more rest h e f = rw (h, e, f) refl

-- A run of a table: the zigzag code of the change of the value, and the size of the run.
abbrev pub Row : Type 0
Row = ℕ × ℕ

abbrev pub table_bytes : List Row → List ℕ
table_bytes [] = 0 ∷ []
table_bytes ((u, d) ∷ rows) = varint_bytes u ++ (varint_bytes d ++ table_bytes rows)

-- Sizes fit their fields, runs are not empty, PCs do not wrap, and the value changes from a run to
-- the next; the first run's value may be that of the start.
abbrev pub AreRows : Bool → ℕ → List Row → Type 0
AreRows first pc [] = Unit {0}
AreRows first pc ((u, d) ∷ rows) =
    (u < 2 ^ 32)
    × (d < 2 ^ 32)
    × (0 < d)
    × (pc + d < 2 ^ 64)
    × (first ≡ false → u ≢ 0)
    × AreRows false (pc + d) rows

-- The value of the run that holds the target, with the run's start.
abbrev pub run_of : List Row → ℕ → ℕ → ℕ → Option (ℕ × ℕ)
run_of [] target pc val = none
run_of ((u, d) ∷ rows) target pc val =
    if ltb target (pc + d)
    then some (add32 val (zigzag u), pc)
    else run_of rows target (pc + d) (add32 val (zigzag u))

-- A target past the last run makes the code panic.
abbrev pub or_invalid : Option (ℕ × ℕ) → Outcome (ℕ × ℕ)
or_invalid none = panic
or_invalid (some r) = ok r

length-rows : (rows : List Row) (rest : List ℕ) → length rows < length (table_bytes rows ++ rest)
length-rows [] rest = omega arith
length-rows ((u, d) ∷ rows) rest = omega (
  arith,
  length-append (varint_bytes u ++ (varint_bytes d ++ table_bytes rows)) rest,
  length-append (varint_bytes u) (varint_bytes d ++ table_bytes rows),
  length-append (varint_bytes d) (table_bytes rows),
  length-append (table_bytes rows) rest,
  groups_size 4 u,
  length-rows rows rest,
)

pcvalue_loop-rows :
    (rows : List Row) (fuel start target pc val : ℕ) (rest : List ℕ)
    → length rows < fuel
    → start ≤ pc
    → AreRows (pc == start) pc rows
    → (rows ≡ [] → pc ≢ start)
    → pcvalue_loop fuel start target (table_bytes rows ++ rest) pc pc val
      ≡ or_invalid (run_of rows target pc val)
unfolding pcvalue_loop
pcvalue_loop-rows rows zero start target pc val rest f le h ne = absurd (omega arith)
pcvalue_loop-rows [] (suc fuel) start target pc val rest f le h ne =
    unfold step in rw (ne→== pc start (ne refl)) refl
pcvalue_loop-rows ((u, d) ∷ rows) (suc fuel) start target pc val rest f le h ne =
    let stepped =
      step_reads u d pc val (pc == start) (varint_bytes u)
        (varint_bytes d ++ (table_bytes rows ++ rest)) (table_bytes rows ++ rest)
        (varint_bytes-Leads (pc == start) u h.4) (read_delta-bytes u _ h.0)
        (read_delta-bytes d _ h.1) in
    let sum : (pc + d) % 2 ^ 64 ≡ pc + d = omega (arith, h.3) in
    rw
      (
        append_assoc (varint_bytes u) (varint_bytes d ++ table_bytes rows) rest,
        append_assoc (varint_bytes d) (table_bytes rows) rest,
      )
      (rw (stepped, sum)
        (elim (Bool-cases (ltb target (pc + d))) [
          | inl t ↦ rw t refl
          | inr t ↦ rw t (
              pcvalue_loop-rows rows fuel start target (pc + d) (add32 val (zigzag u)) rest
                (omega arith) (omega arith) (rw (ne→== (pc + d) start (omega (arith, h.2))) h.5)
                (λ e q. omega (arith, h.2, q)))
        ]))

-- `pcvalue`, at the place in the table of values where the linker wrote the runs of a function: the
-- value of the run that holds the target and the PC where that run starts, or a panic when the target
-- is past the last run. The runs are not empty, none repeats the value before it but perhaps the
-- first, and PCs do not wrap. Place 0 of the table is no place.
pub pcvalue-rows :
    (md : Moduledata) (f : FuncInfo) (off target : ℕ) (before rest : List ℕ) (rows : List Row)
    → md.pctab ≡ before ++ (table_bytes rows ++ rest)
    → off ≡ length before
    → 0 < off
    → rows ≢ []
    → AreRows true (entry md f) rows
    → pcvalue md f off target ≡ or_invalid (run_of rows target (entry md f) minus_one)
unfolding pcvalue
pcvalue-rows md f off target before rest rows table at pos some_rows h =
    let from : slice_from off md.pctab ≡ ok (table_bytes rows ++ rest) =
      ap (slice_from off) table ∙ slice_from-append before (table_bytes rows ++ rest) off at in
    let read : List ℕ → Outcome (ℕ × ℕ) = λ p.
      pcvalue_loop (suc (length p)) (entry md f) target p (entry md f) (entry md f) minus_one in
    rw (ne→== off 0 (λ e. omega (arith, e, pos))) (
      ap (λ (m : Outcome (List ℕ)). m >>= read) from
      ∙ pcvalue_loop-rows rows (suc (length (table_bytes rows ++ rest))) (entry md f) target
          (entry md f) minus_one rest (omega (arith, length-rows rows rest)) (omega arith)
          (rw (==_refl (entry md f)) h) (λ e. absurd (some_rows e)))
