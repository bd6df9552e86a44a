-- ===== src/WasmBin.antt =====
-- wasmbin.go: the weak parsers of a wasm binary, its custom sections and its data segments. A byte
-- slice is a list of bytes whose capacity is its length.
pub mod Leb
pub mod Bytes
pub mod Sections
pub mod Segments
mod Tests
use wzprof.Base.{
  ℕ, zero, suc, ◌+◌, ◌-◌, ◌*◌, ◌/◌, ◌%◌, ◌^◌, List, [], ◌∷◌, ◌++◌, Bool, true, false, ◌&&◌, Option,
  none, some, ltb, leb, ◌==◌, if◌then◌else◌, length, take, drop, replicate, Outcome, ok, panic,
  stuck, require, ◌>>=◌, ◌>>◌,
}
use wzprof.Base.Words.{sub64, add64}

-- `binary.Uvarint`, as documented: the value with the number of bytes read, `(0, 0)` when the bytes
-- end too early, and a negative count when the value passes 64 bits, on which the callers' slicing
-- panics. The groups of seven bits do not overlap, so `|` adds them.
uvarint_loop : List ℕ → ℕ → ℕ → ℕ → Outcome (ℕ × ℕ)
uvarint_loop [] x s i = ok (0, 0)
uvarint_loop (b ∷ bs) x s i =
    let more = uvarint_loop bs (x + b % 128 * 2 ^ s) (s + 7) (i + 1) in
    if i == 10
    then panic
    else if ltb b 128
    then (if (i == 9) && ltb 1 b then panic else ok (x + b * 2 ^ s, i + 1))
    else more

pub uvarint : List ℕ → Outcome (ℕ × ℕ)
unfolding uvarint_loop
uvarint b = uvarint_loop b 0 0 0

-- `b[n:]` and `b[:n]`, which panic past the end.
abbrev pub slice_from : ℕ → List ℕ → Outcome (List ℕ)
slice_from n b = if leb n (length b) then ok (drop n b) else panic

abbrev pub slice_to : ℕ → List ℕ → Outcome (List ℕ)
slice_to n b = if leb n (length b) then ok (take n b) else panic

-- `b[lo:hi]`.
abbrev pub slice : ℕ → ℕ → List ℕ → Outcome (List ℕ)
slice lo hi b = if leb lo hi && leb hi (length b) then ok (drop lo (take hi b)) else panic

-- Reading a number and moving on: the value, the bytes read, and what follows.
pub take_uvarint : List ℕ → Outcome (ℕ × ℕ × List ℕ)
take_uvarint b = do (v, n) ← uvarint b; rest ← slice_from n b; ok (v, n, rest)

unfoldable pub bytes_eq : List ℕ → List ℕ → Bool
bytes_eq [] [] = true
bytes_eq [] (y ∷ ys) = false
bytes_eq (x ∷ xs) [] = false
bytes_eq (x ∷ xs) (y ∷ ys) = (x == y) && bytes_eq xs ys

-- The loop of `wasmCustomSection`. Each round takes the id's byte at least.
custom_body : List ℕ → ℕ → List ℕ → (List ℕ → Outcome (Option (List ℕ))) → Outcome (Option (List ℕ))
custom_body name len b more = do
  (name_len, n, b) ← take_uvarint b
  m ← slice_to name_len b
  if bytes_eq m name
      then slice name_len (sub64 len n) b >>= (λ s. ok (some s))
      else slice_from (sub64 len n) b >>= more

custom_loop : ℕ → List ℕ → List ℕ → Outcome (Option (List ℕ))
unfolding custom_body
custom_loop zero name b = stuck
custom_loop (suc fuel) name [] = ok none
custom_loop (suc fuel) name (id ∷ b) =
    let round = (do
      (len, n, b) ← take_uvarint b
      if id == 0
          then custom_body name len b (custom_loop fuel name)
          else slice_from len b >>= custom_loop fuel name) in
    if ltb 1 (length b) then round else ok none

pub wasm_custom_section : List ℕ → List ℕ → Outcome (Option (List ℕ))
unfolding custom_loop
wasm_custom_section b name =
    if ltb (length b) 8 then ok none else custom_loop (suc (length b)) name (drop 8 b)

-- `wasmHasCustomSection`.
unfoldable pub wasm_has_custom_section : List ℕ → List ℕ → Outcome Bool
wasm_has_custom_section b name =
    wasm_custom_section b name >>= λ s. ok (elim s [ none ↦ false | some x ↦ true ])

data_loop : ℕ → List ℕ → Outcome (Option (List ℕ))
data_loop zero b = stuck
data_loop (suc fuel) [] = ok none
data_loop (suc fuel) (id ∷ b) =
    let round = (do
      (len, n, b) ← take_uvarint b
      if id == 11
          then slice_to len b >>= (λ s. ok (some s))
          else slice_from len b >>= data_loop fuel) in
    if ltb 1 (length b) then round else ok none

-- `wasmdataSection`.
pub wasmdata_section : List ℕ → Outcome (Option (List ℕ))
unfolding data_loop
wasmdata_section b = slice_from 8 b >>= data_loop (suc (length b))

-- `dataIterator`.
pub record DataIterator : Type 0 where
  pub b : List ℕ
  pub n : ℕ
  pub offset : ℕ

unfoldable pub new_data_iterator : List ℕ → Outcome DataIterator
new_data_iterator b = do
  (segments, r, rest) ← take_uvarint b
  ok (record { b = rest; n = segments; offset = r })

pub skip : ℕ → DataIterator → Outcome DataIterator
skip n d = slice_from n d.b >>= λ b. ok (record d { b = b; offset = d.offset + n })

pub read : ℕ → DataIterator → Outcome (List ℕ × DataIterator)
read n d = do
  front ← slice_to n d.b
  rest ← slice_from n d.b
  ok (front, record d { b = rest; offset = d.offset + n })

first_byte : List ℕ → Outcome ℕ
first_byte [] = panic
first_byte (b ∷ bs) = ok b

pub read_byte : DataIterator → Outcome (ℕ × DataIterator)
unfolding first_byte skip
read_byte d = do b ← first_byte d.b; d ← skip 1 d; ok (b, d)

-- `sleb128`: the value as an `int64` pattern with the bytes read. The bits at `shift` and above are
-- clear, so `|` adds.
sleb_end : ℕ → ℕ → ℕ → ℕ → ℕ
sleb_end size byte result shift =
    if ltb shift size && (byte / 64 % 2 == 1)
    then (result + (2 ^ 64 - 2 ^ shift)) % 2 ^ 64
    else result

sleb_loop : ℕ → List ℕ → ℕ → ℕ → ℕ → Outcome (ℕ × ℕ)
unfolding sleb_end
sleb_loop size [] result shift read = panic
sleb_loop size (byte ∷ b) result shift read =
    let result' = (result + byte % 128 * 2 ^ shift) % 2 ^ 64 in
    let more = sleb_loop size b result' (shift + 7) (read + 1) in
    if ltb byte 128 then ok (sleb_end size byte result' (shift + 7), read + 1) else more

unfoldable pub sleb128 : ℕ → List ℕ → Outcome (ℕ × ℕ)
unfolding sleb_loop
sleb128 size b = sleb_loop size b 0 0 0

pub read_varint : DataIterator → Outcome (ℕ × DataIterator)
unfolding skip
read_varint d = do (x, n) ← sleb128 64 d.b; d ← skip n d; ok (x, d)

pub read_uvarint : DataIterator → Outcome (ℕ × DataIterator)
unfolding skip
read_uvarint d = do (x, n) ← uvarint d.b; d ← skip n d; ok (x, d)

-- `Next`: the address, as an `int64` pattern, with the bytes, or nil at the end.
next_segment : DataIterator → Outcome (ℕ × Option (List ℕ) × DataIterator)
unfolding read_uvarint read_byte read_varint read
next_segment d = do
  (mode, d) ← read_uvarint d
  require (mode == 0)
  (v, d) ← read_byte d
  require (v == 0x41)
  (vaddr, d) ← read_varint d
  (v, d) ← read_byte d
  require (v == 0x0b)
  (len, d) ← read_uvarint d
  (seg, d) ← read len d
  ok (vaddr, some seg, record d { n = sub64 d.n 1 })

unfoldable pub next : DataIterator → Outcome (ℕ × Option (List ℕ) × DataIterator)
unfolding next_segment
next d = if d.n == 0 then ok (0, none, d) else next_segment d

-- `seg[o:]` for an `int` offset, given as the two numbers whose difference it is.
abbrev from_offset : ℕ → ℕ → List ℕ → Outcome (List ℕ)
from_offset high low seg = if leb low high then slice_from (high - low) seg else panic

abbrev pub bytes_of : Option (List ℕ) → List ℕ
bytes_of none = []
bytes_of (some seg) = seg

-- The loop of `SkipToDataOffset`. It has no end when the segments run out before the offset.
skip_loop : ℕ → ℕ → DataIterator → Outcome (ℕ × List ℕ × DataIterator)
skip_loop zero offset d = stuck
skip_loop (suc fuel) offset d =
    let round = (do
      (vaddr, seg, d) ← next d
      let seg = bytes_of seg
      if ltb d.offset offset then skip_loop fuel offset d else (do
        rest ← from_offset (length seg + offset) d.offset seg
        ok (add64 vaddr (length seg + offset - d.offset), rest, d))) in
    if leb d.offset offset then round else ok (0, [], d)

unfoldable pub skip_to_data_offset : ℕ → ℕ → DataIterator → Outcome (ℕ × List ℕ × DataIterator)
unfolding skip_loop
skip_to_data_offset fuel offset d = do
  require (leb d.offset offset)
  require (ltb offset (d.offset + length d.b))
  skip_loop fuel offset d

-- `vmemb`: the memory from `start` on. Addresses are not negative here.
pub record Vmemb : Type 0 where
  pub start : ℕ
  pub b : List ℕ

unfoldable pub has : ℕ → Vmemb → Bool
has addr m = ltb addr (length m.b)

unfoldable pub copy_at_address : ℕ → List ℕ → Vmemb → Outcome Vmemb
copy_at_address addr b m = do
  let end = length m.b + m.start
  require (leb end addr)
  ok (record m { b = m.b ++ (replicate (addr - end) 0 ++ b) })
