-- ===== src/Pclntab/Load/Layout.antt =====
-- The module data that is loaded from a memory which holds it in the runtime's layout.
use native.Mathlib.Nat.{pow-suc}
use wzprof.Base.{
  ℕ, zero, suc, ◌+◌, ◌*◌, ◌/◌, ◌%◌, ◌^◌, ◌<◌, ◌≤◌, ◌≡◌, refl, ap, ◌∙◌, List, [], ◌∷◌, ◌++◌, some,
  leb, lt→ltb, le→leb, length, get_or, All, Outcome, ok, ◌>>=◌, arith,
}
use wzprof.WasmBin.{slice_from}
use wzprof.Trace.{le_bytes}
use wzprof.Pclntab.{Vmem, deref_array_index, le_number, field}
use wzprof.Pclntab.Load.{slice_loop, deref_go_slice}

-- Bytes read back as the number that they are of.
pub le_number-le_bytes :
    (n v : ℕ) (rest : List ℕ) → v < 256 ^ n → le_number n (le_bytes n v ++ rest) ≡ ok v
unfolding le_number le_bytes
le_number-le_bytes zero v rest l = ap (λ (x : ℕ). ok x) (omega (arith, l))
le_number-le_bytes (suc n) v rest l =
    rw (le_number-le_bytes n (v / 256) rest (omega (arith, pow-suc 256 n, l)))
      (ap (λ (x : ℕ). ok x) (omega arith))

leb-suc : (a b : ℕ) → leb (suc a) (suc b) ≡ leb a b
leb-suc a b = ground arith

slice_from-suc : (n x : ℕ) (ys : List ℕ) → slice_from (suc n) (x ∷ ys) ≡ slice_from n ys
slice_from-suc n x ys = rw (leb-suc n (length ys)) refl

pub slice_from-zero : (ys : List ℕ) → slice_from 0 ys ≡ ok ys
slice_from-zero ys = rw (le→leb 0 (length ys) (omega arith)) refl

slice_from-skip : (xs ys : List ℕ) (n : ℕ) → slice_from (length xs + n) (xs ++ ys) ≡ slice_from n ys
slice_from-skip [] ys n = ap (λ (k : ℕ). slice_from k ys) (omega arith)
slice_from-skip (x ∷ xs) ys n =
    ap (λ (k : ℕ). slice_from k (x ∷ (xs ++ ys))) (omega arith)
    ∙ slice_from-suc (length xs + n) x (xs ++ ys)
    ∙ slice_from-skip xs ys n

-- Words in a row.
abbrev pub words_bytes : List ℕ → List ℕ
words_bytes [] = []
words_bytes (w ∷ ws) = le_bytes 8 w ++ words_bytes ws

pub word_field :
    (k : ℕ) (ws : List ℕ)
    → All (λ (w : ℕ). w < 2 ^ 64) ws
    → k < length ws
    → field 8 (8 * k) (words_bytes ws) ≡ ok (get_or ws k 0)
unfolding field le_bytes
word_field k [] a l = absurd (omega arith)
word_field zero (w ∷ ws) a l =
    ap (λ (n : ℕ). slice_from n (words_bytes (w ∷ ws)) >>= le_number 8) (omega arith)
    ∙ ap (λ (o : Outcome (List ℕ)). o >>= le_number 8) (slice_from-zero (words_bytes (w ∷ ws)))
    ∙ le_number-le_bytes 8 w (words_bytes ws) (omega (arith, a.0))
word_field (suc k) (w ∷ ws) a l =
    ap (λ (n : ℕ). slice_from n (words_bytes (w ∷ ws)) >>= le_number 8) (omega arith)
    ∙ ap (λ (o : Outcome (List ℕ)). o >>= le_number 8)
        (slice_from-skip (le_bytes 8 w) (words_bytes ws) (8 * k))
    ∙ word_field k ws a.1 (omega arith)

-- The elements of an array in memory, from an address on, as bytes of `size` each.
module _ {A : Type 0} (bytes_of : A → List ℕ) (size : ℕ) where
  abbrev pub Elements : Vmem → ℕ → List A → Type 0
  Elements mem p [] = Unit {0}
  Elements mem p (x ∷ xs) = (mem p size ≡ some (bytes_of x)) × Elements mem (p + size) xs

  element_read :
      (mem : Vmem) (p q i : ℕ) (b : List ℕ)
      → mem q size ≡ some b
      → q ≡ p + i * size
      → q < 2 ^ 32
      → deref_array_index mem p i size ≡ ok b
  unfolding deref_array_index
  element_read mem p q i b e h l =
      let there : (p % 2 ^ 32 + i * size % 2 ^ 32) % 2 ^ 32 % 2 ^ 32 ≡ q = omega (arith, h) in
      rw (there, e) refl

  module _ (element : List ℕ → Outcome A) where
    slice_loop-Elements :
        (mem : Vmem) (p q i : ℕ) (xs : List A)
        → All (λ (x : A). element (bytes_of x) ≡ ok x) xs
        → Elements mem q xs
        → q ≡ p + i * size
        → q + length xs * size ≤ 2 ^ 32
        → 0 < size
        → slice_loop element size mem p i (length xs) ≡ ok xs
    unfolding slice_loop
    slice_loop-Elements mem p q i [] a e h l z = refl
    slice_loop-Elements mem p q i (x ∷ xs) a e h l z =
        rw
          (
            element_read mem p q i (bytes_of x) e.0 h (omega (arith, l)),
            a.0,
            slice_loop-Elements mem p (q + size) (i + 1) xs a.1 e.1 (omega (arith, h))
                (omega (arith, l)) z,
          )
          refl

    pub deref_go_slice-Elements :
        (mem : Vmem) (p : ℕ) (xs : List A)
        → All (λ (x : A). element (bytes_of x) ≡ ok x) xs
        → Elements mem p xs
        → p + length xs * size ≤ 2 ^ 32
        → length xs < 2 ^ 63
        → 0 < size
        → deref_go_slice element size mem p (length xs) ≡ ok xs
    unfolding deref_go_slice
    deref_go_slice-Elements mem p xs a e l n z =
        rw (lt→ltb (length xs) (2 ^ 63) n) (slice_loop-Elements mem p p 0 xs a e (omega arith) l z)
