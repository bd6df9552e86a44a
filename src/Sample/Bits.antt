-- ===== src/Sample/Bits.antt =====
-- The bit stack of sample.go is a stack: what its words hold, and the laws of push and pop.
use wzprof.Base.{
  ℕ, zero, suc, ◌+◌, ◌-◌, ◌*◌, ◌/◌, ◌%◌, ◌^◌, ◌≤◌, ◌<◌, bit_and, ◌≡◌, refl, sym, ap, ap₂, ◌∙◌, ◌≢◌,
  inl, inr, List, [], ◌∷◌, ltb, ◌==◌, ==→eq, ==→ne, ltb→lt, Bool-cases, length, get_or, set,
  replicate, length-append, length-set, length-replicate, get_or-set_self, get_or-set_ne,
  get_or-append_left, ok, panic, lt→ltb, ge→ltb, arith,
}
use wzprof.Base.Bits.{
  bit_at, bit_at-and, bit_at-or, bit_at-le-one, bit_at-shift, bit_at-single_self, bit_at-single_ne,
  bit_at-clear_self, bit_at-clear_ne,
}
use wzprof.Sample.{Bitstack, grow, put_bit, push, pop}

-- The bit at position `i`, counted from the bottom of the stack.
abbrev pub read : List ℕ → ℕ → ℕ
read bits i = bit_at (i % 64) (get_or bits (i / 64) 0)

abbrev pub window : List ℕ → ℕ → List ℕ
window bits zero = []
window bits (suc n) = read bits n ∷ window bits n

-- The bits on the stack, the newest first.
abbrev pub contents : Bitstack → List ℕ
contents s = window s.bits s.size

-- Every bit in use has a word, and the size is a `uint`.
pub record IsValid (s : Bitstack) : Type 0 where
  pub room : s.size ≤ 64 * length s.bits
  pub small : s.size < 2 ^ 64

put_bit_self : (w k b : ℕ) → k < 64 → bit_at k (put_bit w k b) ≡ b % 2
unfolding put_bit
put_bit_self w k b h = omega (
  arith,
  bit_at-or k (bit_and w (2 ^ 64 - 1 - 2 ^ k)) (b % 2 * 2 ^ k),
  bit_at-and k w (2 ^ 64 - 1 - 2 ^ k),
  bit_at-clear_self 64 k h,
  bit_at-single_self k (b % 2) (omega arith),
)

put_bit-ne : (w k j b : ℕ) → k < 64 → j < 64 → j ≢ k → bit_at j (put_bit w k b) ≡ bit_at j w
unfolding put_bit
put_bit-ne w k j b hk hj ne = omega (
  arith,
  bit_at-or j (bit_and w (2 ^ 64 - 1 - 2 ^ k)) (b % 2 * 2 ^ k),
  bit_at-and j w (2 ^ 64 - 1 - 2 ^ k),
  bit_at-clear_ne 64 k j hk hj ne,
  bit_at-single_ne j k (b % 2) (omega arith) ne,
  bit_at-le-one j w,
)

length-grow :
    (bits : List ℕ) (i : ℕ) → (i < length (grow bits i)) × (length bits ≤ length (grow bits i))
unfolding grow
length-grow bits i = elim (Bool-cases (ltb i (length bits))) [
  | inl e ↦ rw e (ltb→lt i (length bits) e, omega arith)
  | inr e ↦ rw e (
    omega (
      arith,
      length-append bits (replicate (i + 1 - length bits) 0),
      length-replicate (i + 1 - length bits) (zero),
    ),
    omega (arith, length-append bits (replicate (i + 1 - length bits) 0)),
  )
]

get_or-grow :
    (bits : List ℕ) (i j : ℕ) → j < length bits → get_or (grow bits i) j 0 ≡ get_or bits j 0
unfolding grow
get_or-grow bits i j h = elim (Bool-cases (ltb i (length bits))) [
  | inl e ↦ rw e
  | inr e ↦ rw e (get_or-append_left bits (replicate (i + 1 - length bits) 0) j 0 h)
]

-- Writing bit `r` of word `q` leaves every other bit alone.
set-put_bit_ne :
    (g : List ℕ) (q r p j b : ℕ)
    → q < length g
    → r < 64
    → j < 64
    → (p ≡ q → j ≢ r)
    → bit_at j (get_or (set g q (put_bit (get_or g q 0) r b)) p 0) ≡ bit_at j (get_or g p 0)
set-put_bit_ne g q r p j b hq hr hj ne = elim (Bool-cases (p == q)) [
  | inl t ↦
      let e = ==→eq p q t in
      rw (e, get_or-set_self g q (put_bit (get_or g q 0) r b) 0 hq)
        (put_bit-ne (get_or g q 0) r j b hr hj (ne e))
  | inr t ↦
      ap (bit_at j) (get_or-set_ne g q p (put_bit (get_or g q 0) r b) 0 (λ e. ==→ne p q t (sym e)))
]

module _ (bits : List ℕ) (n b : ℕ) where
  abbrev written : List ℕ
  written =
      let grown = grow bits (n / 64) in
      set grown (n / 64) (put_bit (get_or grown (n / 64) 0) (n % 64) b)

  read-written_self : read written n ≡ b % 2
  read-written_self =
      let grown = grow bits (n / 64) in
      let word = put_bit (get_or grown (n / 64) 0) (n % 64) b in
      rw (get_or-set_self grown (n / 64) word 0 (length-grow bits (n / 64)).0)
        (put_bit_self (get_or grown (n / 64) 0) (n % 64) b (omega arith))

  read-written_below : (i : ℕ) → i < n → n ≤ 64 * length bits → read written i ≡ read bits i
  read-written_below i h room =
      set-put_bit_ne (grow bits (n / 64)) (n / 64) (n % 64) (i / 64) (i % 64) b
        (length-grow bits (n / 64)).0 (omega arith) (omega arith)
        (λ e f. absurd (omega (arith, e, f)))
      ∙ ap (bit_at (i % 64)) (get_or-grow bits (n / 64) (i / 64) (omega arith))

  window-written : (m : ℕ) → m ≤ n → n ≤ 64 * length bits → window written m ≡ window bits m
  window-written zero h room = refl
  window-written (suc m) h room =
      ap₂ ◌∷◌ (read-written_below m (omega arith) room) (window-written m (omega arith) room)

-- `push` adds the lowest bit of its argument on top, whatever the words held above the stack.
pub push-contents :
    (s : Bitstack) (b : ℕ)
    → IsValid s
    → s.size + 1 < 2 ^ 64
    → IsValid (push s b)
      × (contents (push s b) ≡ b % 2 ∷ contents s)
      × ((push s b).size ≡ suc s.size)
unfolding push
push-contents s b v h = (
  record { room = roomy; small = omega arith },
  rw sized (
      ap₂ ◌∷◌ (read-written_self s.bits s.size b)
        (window-written s.bits s.size b s.size (omega arith) v.room)),
  sized,
)
  where
    sized : (s.size + 1) % 2 ^ 64 ≡ suc s.size
    sized = omega arith

    roomy : (s.size + 1) % 2 ^ 64 ≤ 64 * length (written s.bits s.size b)
    roomy = omega (
      arith,
      length-grow s.bits (s.size / 64),
      length-set (grow s.bits (s.size / 64)) (s.size / 64)
          (put_bit (get_or (grow s.bits (s.size / 64)) (s.size / 64) 0) (s.size % 64) b),
    )

IsValid-pop : (s : Bitstack) (n : ℕ) → IsValid s → s.size ≡ suc n → IsValid (record s { size = n })
IsValid-pop s n v e = record { room = omega arith; small = omega arith }

-- `pop` takes the newest bit off.
pub pop-contents :
    (s : Bitstack) (n : ℕ)
    → IsValid s
    → s.size ≡ suc n
    → (pop s ≡ ok (read s.bits n, record s { size = n })) × IsValid (record s { size = n })
unfolding pop
pop-contents s n v h = (
  rw (wrapped, lt→ltb (n / 64) (length s.bits) (omega arith))
      (rw (bit_at-shift (n % 64) (get_or s.bits (n / 64) 0))),
  IsValid-pop s n v h,
)
  where
    wrapped : (s.size + (2 ^ 64 - 1)) % 2 ^ 64 ≡ n
    wrapped = omega arith

-- On the empty stack `size` wraps round, and the slice access panics.
pub pop-empty : (s : Bitstack) → s.size ≡ 0 → length s.bits < 2 ^ 58 → pop s ≡ panic
unfolding pop
pop-empty s e h = rw e (rw (ge→ltb ((2 ^ 64 - 1) / 64) (length s.bits) (omega arith)))

-- Taking off the bit that the contents begin with leaves the rest of them.
pub pop-takes :
    (t : Bitstack) (n bit : ℕ) (rest : List ℕ)
    → IsValid t
    → t.size ≡ suc n
    → contents t ≡ bit ∷ rest
    → (pop t ≡ ok (bit, record t { size = n }))
      × IsValid (record t { size = n })
      × (contents (record t { size = n }) ≡ rest)
pop-takes t n bit rest v e c = ground (arith, pop-contents t n v e, split)
  where
    split : read t.bits n ∷ window t.bits n ≡ bit ∷ rest
    split = rw e at c
