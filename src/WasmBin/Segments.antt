-- ===== src/WasmBin/Segments.antt =====
-- The data segments of a wasm binary, written and read back.
use native.Mathlib.Nat.{mod-eq_of_lt, pow-suc}
use wzprof.Base.{
  ℕ, zero, suc, ◌+◌, ◌-◌, ◌*◌, ◌/◌, ◌%◌, ◌^◌, ◌<◌, ◌≡◌, ◌≢◌, refl, sym, ap, ap₂, ◌∙◌, inl, inr,
  List, [], ◌∷◌, ◌++◌, none, some, ltb, ltb→lt, lt→ltb, ge→ltb, ne→==, if◌then◌else◌, Bool-cases,
  length, length-append, Outcome, ok, stuck, ◌>>=◌, arith,
}
use wzprof.Base.Words.{sub64}
use wzprof.WasmBin.{
  DataIterator, new_data_iterator, next, next_segment, read_uvarint, read_varint, read_byte, read,
  first_byte, skip, sleb128, sleb_loop, sleb_end,
}
use wzprof.WasmBin.Leb.{
  groups, uvarint_bytes, uvarint-bytes, take_uvarint-bytes, slice_from-append, slice_to-append,
  low_and_high,
}

-- The groups of a number that is not negative, below `64 * 128 ^ k`: the last has no bit 64, which
-- would be a sign.
unfoldable pub sleb_groups : ℕ → ℕ → List ℕ
sleb_groups zero v = v ∷ []
sleb_groups (suc k) v =
    let more = (128 + v % 128) ∷ sleb_groups k (v / 128) in if ltb v 64 then v ∷ [] else more

-- The encoding of an address below `2 ^ 62`.
abbrev pub address_bytes : ℕ → List ℕ
address_bytes v = sleb_groups 8 v

sleb_end-positive : (byte result shift : ℕ) → byte < 64 → sleb_end 64 byte result shift ≡ result
unfolding sleb_end
sleb_end-positive byte result shift l =
    let bit : byte / 64 % 2 ≡ 0 = omega arith in
    elim (Bool-cases (ltb shift 64)) [ inl h ↦ rw (h, bit) refl | inr h ↦ rw (h) refl ]

sleb_last :
    (v result shift read : ℕ) (rest : List ℕ)
    → v < 64
    → result + v * 2 ^ shift < 2 ^ 63
    → sleb_loop 64 (v ∷ rest) result shift read ≡ ok (result + v * 2 ^ shift, read + 1)
unfolding sleb_loop
sleb_last v result shift read rest l f =
    rw
      (
        lt→ltb v 128 (omega arith),
        sleb_end-positive v ((result + v % 128 * 2 ^ shift) % 2 ^ 64) (shift + 7) l,
      )
      (ap (λ (n : ℕ). ok (n, read + 1))
        (ap (λ (x : ℕ). (result + x * 2 ^ shift) % 2 ^ 64) (omega arith)
          ∙ mod-eq_of_lt (omega (arith, f))))

sleb_step :
    (g result shift read : ℕ) (rest : List ℕ)
    → g < 128
    → result + g * 2 ^ shift < 2 ^ 63
    → sleb_loop 64 ((128 + g) ∷ rest) result shift read
      ≡ sleb_loop 64 rest (result + g * 2 ^ shift) (shift + 7) (read + 1)
unfolding sleb_loop
sleb_step g result shift read rest l f =
    rw (ge→ltb (128 + g) 128 (omega arith), sleb_loop)
      (ap (λ (n : ℕ). sleb_loop 64 rest n (shift + 7) (read + 1))
        (ap (λ (x : ℕ). (result + x * 2 ^ shift) % 2 ^ 64) (omega arith)
          ∙ mod-eq_of_lt (omega (arith, f))))

sleb_loop-groups :
    (k v result shift n : ℕ) (rest : List ℕ)
    → v < 64 * 128 ^ k
    → result + v * 2 ^ shift < 2 ^ 63
    → sleb_loop 64 (sleb_groups k v ++ rest) result shift n
      ≡ ok (result + v * 2 ^ shift, n + length (sleb_groups k v))
unfolding sleb_groups
sleb_loop-groups zero v result shift n rest l f =
    sleb_last v result shift n rest (omega (arith, l)) f
sleb_loop-groups (suc k) v result shift n rest l f = elim (Bool-cases (ltb v 64)) [
  | inl h ↦ rw (h) (sleb_last v result shift n rest (ltb→lt v 64 h) f)
  | inr h ↦
      let halves = low_and_high v shift in
      rw (h, sleb_groups)
        (sleb_step (v % 128) result shift n (sleb_groups k (v / 128) ++ rest) (omega arith)
            (omega (arith, f, halves))
          ∙ sleb_loop-groups k (v / 128) (result + v % 128 * 2 ^ shift) (shift + 7) (n + 1) rest
              (omega (arith, pow-suc 128 k, l)) (omega (arith, f, halves))
          ∙ ap₂ (λ (a b : ℕ). ok (a, b)) (omega (arith, halves)) (omega arith))
]

sleb128-bytes :
    (v : ℕ) (rest : List ℕ)
    → v < 2 ^ 62
    → sleb128 64 (address_bytes v ++ rest) ≡ ok (v, length (address_bytes v))
unfolding sleb128
sleb128-bytes v rest l =
    sleb_loop-groups 8 v 0 0 0 rest (omega arith) (omega arith)
    ∙ ap₂ (λ (a b : ℕ). ok (a, b)) (omega arith) (omega arith)

abbrev pub iterator : List ℕ → ℕ → ℕ → DataIterator
iterator b n offset = record { b = b; n = n; offset = offset }

-- A segment that is put at an address: its mode, a constant expression, and its bytes.
abbrev pub segment_bytes : ℕ × List ℕ → List ℕ → List ℕ
segment_bytes (addr, seg) rest =
    0 ∷ (0x41 ∷ (address_bytes addr ++ (0x0b ∷ (uvarint_bytes (length seg) ++ (seg ++ rest)))))

abbrev pub IsSegment : ℕ × List ℕ → Type 0
IsSegment (addr, seg) = (addr < 2 ^ 62) × (length seg < 2 ^ 62)

skip_front :
    (xs rest : List ℕ) (n offset k : ℕ)
    → k ≡ length xs
    → skip k (iterator (xs ++ rest) n offset) ≡ ok (iterator rest n (offset + k))
unfolding skip
skip_front xs rest n offset k e = rw (slice_from-append xs rest k e) refl

read_uvarint-bytes :
    (v : ℕ) (rest : List ℕ) (n offset : ℕ)
    → v < 2 ^ 64
    → read_uvarint (iterator (uvarint_bytes v ++ rest) n offset)
      ≡ ok (v, iterator rest n (offset + length (uvarint_bytes v)))
unfolding read_uvarint
read_uvarint-bytes v rest n offset l =
    rw
      (
        uvarint-bytes v rest l,
        skip_front (uvarint_bytes v) rest n offset (length (uvarint_bytes v)) refl,
      )
      refl

read_varint-bytes :
    (v : ℕ) (rest : List ℕ) (n offset : ℕ)
    → v < 2 ^ 62
    → read_varint (iterator (address_bytes v ++ rest) n offset)
      ≡ ok (v, iterator rest n (offset + length (address_bytes v)))
unfolding read_varint
read_varint-bytes v rest n offset l =
    rw
      (
        sleb128-bytes v rest l,
        skip_front (address_bytes v) rest n offset (length (address_bytes v)) refl,
      )
      refl

read_byte-cons :
    (b : ℕ) (rest : List ℕ) (n offset : ℕ)
    → read_byte (iterator (b ∷ rest) n offset) ≡ ok (b, iterator rest n (offset + 1))
unfolding read_byte first_byte
read_byte-cons b rest n offset = rw (skip_front (b ∷ []) rest n offset 1 refl) refl

read_front :
    (xs rest : List ℕ) (n offset : ℕ)
    → read (length xs) (iterator (xs ++ rest) n offset)
      ≡ ok (xs, iterator rest n (offset + length xs))
unfolding read
read_front xs rest n offset =
    rw (slice_to-append xs rest (length xs) refl, slice_from-append xs rest (length xs) refl) refl

read_mode :
    (rest : List ℕ) (n offset : ℕ)
    → read_uvarint (iterator (0 ∷ rest) n offset) ≡ ok (0, iterator rest n (offset + 1))
unfolding groups
read_mode rest n offset = read_uvarint-bytes 0 rest n offset (omega arith)

next_segment-bytes :
    (addr : ℕ) (seg rest : List ℕ) (n offset : ℕ)
    → IsSegment (addr, seg)
    → next_segment (iterator (segment_bytes (addr, seg) rest) n offset)
      ≡ ok (
        addr,
        some seg,
        iterator rest (sub64 n 1) (
            offset
            + 1
            + 1
            + length (address_bytes addr)
            + 1
            + length (uvarint_bytes (length seg))
            + length seg),
      )
unfolding next_segment
next_segment-bytes addr seg rest n offset w =
    rw
      (
        read_mode
            (0x41 ∷ (address_bytes addr ++ (0x0b ∷ (uvarint_bytes (length seg) ++ (seg ++ rest)))))
            n offset,
        read_byte-cons 0x41
            (address_bytes addr ++ (0x0b ∷ (uvarint_bytes (length seg) ++ (seg ++ rest)))) n
            (offset + 1),
        read_varint-bytes addr (0x0b ∷ (uvarint_bytes (length seg) ++ (seg ++ rest))) n
            (offset + 1 + 1) w.0,
        read_byte-cons 0x0b (uvarint_bytes (length seg) ++ (seg ++ rest)) n
            (offset + 1 + 1 + length (address_bytes addr)),
        read_uvarint-bytes (length seg) (seg ++ rest) n
            (offset + 1 + 1 + length (address_bytes addr) + 1) (omega (arith, w.1)),
        read_front seg rest n (
            offset + 1 + 1 + length (address_bytes addr) + 1 + length (uvarint_bytes (length seg))),
      )
      refl

-- How long a segment is with its head.
segment_size :
    (addr : ℕ) (seg rest : List ℕ)
    → length (segment_bytes (addr, seg) rest)
      ≡ 3
        + length (address_bytes addr)
        + length (uvarint_bytes (length seg))
        + length seg
        + length rest
segment_size addr seg rest = omega (
  arith,
  length-append (address_bytes addr) (0x0b ∷ (uvarint_bytes (length seg) ++ (seg ++ rest))),
  length-append (uvarint_bytes (length seg)) (seg ++ rest),
  length-append seg rest,
)

-- From the bytes of a segment at an address below `2 ^ 62`, with a count of segments left that is not 0,
-- `Next` returns the address and the segment, counts it, moves to what follows it, and adds to its
-- offset what it moved.
pub next-segment :
    (addr : ℕ) (seg rest : List ℕ) (n offset : ℕ)
    → IsSegment (addr, seg)
    → n ≢ 0
    → n < 2 ^ 64
    → (moved : ℕ) → moved + length rest ≡ length (segment_bytes (addr, seg) rest)
    → next (iterator (segment_bytes (addr, seg) rest) n offset)
      ≡ ok (addr, some seg, iterator rest (n - 1) (offset + moved))
unfolding next
next-segment addr seg rest n offset w z l moved e = rw (ne→== n 0 z) (
    next_segment-bytes addr seg rest n offset w
    ∙ ap₂ (λ (k p : ℕ). ok (addr, some seg, iterator rest k p)) (omega arith)
        (omega (arith, e, segment_size addr seg rest)))

-- Segments in a row, and a data section.
abbrev pub put_segments : List (ℕ × List ℕ) → List ℕ
put_segments [] = []
put_segments (s ∷ segs) = segment_bytes s (put_segments segs)

abbrev pub AreSegments : List (ℕ × List ℕ) → Type 0
AreSegments [] = Unit {0}
AreSegments (s ∷ segs) = IsSegment s × AreSegments segs

abbrev pub data_bytes : List (ℕ × List ℕ) → List ℕ
data_bytes segs = uvarint_bytes (length segs) ++ put_segments segs

pub new_data_iterator-bytes :
    (segs : List (ℕ × List ℕ))
    → length segs < 2 ^ 64
    → new_data_iterator (data_bytes segs)
      ≡ ok (iterator (put_segments segs) (length segs) (length (uvarint_bytes (length segs))))
unfolding new_data_iterator
new_data_iterator-bytes segs l = rw (take_uvarint-bytes (length segs) (put_segments segs) l) refl

-- How much `Next` moves over a segment.
abbrev pub moved_over : ℕ × List ℕ → ℕ
moved_over (addr, seg) =
    3 + length (address_bytes addr) + length (uvarint_bytes (length seg)) + length seg

pub next-first :
    (addr : ℕ) (seg rest : List ℕ) (n offset : ℕ)
    → IsSegment (addr, seg)
    → n ≢ 0
    → n < 2 ^ 64
    → next (iterator (segment_bytes (addr, seg) rest) n offset)
      ≡ ok (addr, some seg, iterator rest (n - 1) (offset + moved_over (addr, seg)))
next-first addr seg rest n offset w z l =
    next-segment addr seg rest n offset w z l (moved_over (addr, seg))
      (sym (segment_size addr seg rest))

pub next-none :
    (b : List ℕ) (offset : ℕ) → next (iterator b 0 offset) ≡ ok (0, none, iterator b 0 offset)
unfolding next
next-none b offset = refl

-- A loop over `Next` until it returns a nil slice, as in `supportedPython`: the segments in order.
abbrev pub read_all : ℕ → DataIterator → Outcome (List (ℕ × List ℕ))
read_all zero d = stuck
read_all (suc fuel) d = do
  (addr, seg, d) ← next d
  elim seg [ none ↦ ok [] | some seg ↦ read_all fuel d >>= (λ segs. ok ((addr, seg) ∷ segs)) ]

read_all-segments :
    (segs : List (ℕ × List ℕ)) (fuel offset : ℕ)
    → AreSegments segs
    → length segs < fuel
    → length segs < 2 ^ 64
    → read_all fuel (iterator (put_segments segs) (length segs) offset) ≡ ok segs
read_all-segments segs zero offset w l m = absurd (omega arith)
read_all-segments [] (suc fuel) offset w l m = rw (next-none [] offset) refl
read_all-segments ((addr, seg) ∷ segs) (suc fuel) offset w l m =
    let moved = offset + moved_over (addr, seg) in
    rw (next-first addr seg (put_segments segs) (suc (length segs)) offset w.0 (omega arith) m) (
      ap
        (λ (n : ℕ).
          read_all fuel (iterator (put_segments segs) n moved)
          >>= (λ segs. ok ((addr, seg) ∷ segs)))
        (omega arith)
      ∙ ap (λ (o : Outcome (List (ℕ × List ℕ))). o >>= (λ segs. ok ((addr, seg) ∷ segs)))
          (read_all-segments segs fuel moved w.1 (omega arith) (omega arith)))

-- The segments of a data section, at addresses and with lengths below 2 ^ 62 and less than 2 ^ 64 of them,
-- are read back by a loop over the iterator's `Next`, which ends: each at its address with
-- its bytes, in order.
pub read_all-data_bytes :
    (segs : List (ℕ × List ℕ))
    → AreSegments segs
    → length segs < 2 ^ 64
    → (new_data_iterator (data_bytes segs) >>= read_all (length segs + 1)) ≡ ok segs
read_all-data_bytes segs w m = rw (new_data_iterator-bytes segs m) (
    read_all-segments segs (length segs + 1) (length (uvarint_bytes (length segs))) w (omega arith)
      m)
