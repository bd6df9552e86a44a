-- ===== src/WasmBin/Leb.antt =====
-- The LEB128 numbers of a wasm binary, written and read back.
use wzprof.Base.{
  ℕ, zero, suc, ◌+◌, ◌*◌, ◌/◌, ◌%◌, ◌^◌, ◌≤◌, ◌<◌, ◌≡◌, refl, subst, ap, ap₂, ◌∙◌, inl, inr, List,
  [], ◌∷◌, ◌++◌, ltb, ◌==◌, ltb→lt, le→leb, ge→ltb, ne→==, ==→eq, if◌then◌else◌, Bool-cases, length,
  length-append, take-append_length, drop-append_length, ok, arith,
}
use native.Mathlib.Nat.{div-add-mod, pow-suc}
use native.Mathlib.Numerals.{towards_suc}
use wzprof.WasmBin.{uvarint_loop, uvarint, take_uvarint, slice_from, slice_to}

-- Groups of seven bits, lowest first, all but the last with the top bit set: at most `k + 1` of them.
unfoldable pub groups : ℕ → ℕ → List ℕ
groups zero v = v ∷ []
groups (suc k) v =
    let more = (128 + v % 128) ∷ groups k (v / 128) in if ltb v 128 then v ∷ [] else more

-- The encoding of a `uint64`.
abbrev pub uvarint_bytes : ℕ → List ℕ
uvarint_bytes v = groups 9 v

pub groups_size : (k v : ℕ) → (0 < length (groups k v)) × (length (groups k v) ≤ k + 1)
unfolding groups
groups_size zero v = omega arith
groups_size (suc k) v = ground (arith, groups_size k (v / 128))

pub next_shift : (s : ℕ) → 2 ^ (s + 7) ≡ 128 * 2 ^ s
next_shift s = simp towards_suc (omega arith)

pub low_and_high : (w s : ℕ) → w * 2 ^ s ≡ w % 128 * 2 ^ s + w / 128 * 2 ^ (s + 7)
low_and_high w s = omega (
  arith,
  ap (λ (t : ℕ). t * 2 ^ s) (div-add-mod w 128),
  ap (λ (t : ℕ). w / 128 * t) (next_shift s),
)

last_group :
    (w x s i : ℕ) (rest : List ℕ)
    → w < 128
    → s ≡ 7 * i
    → i ≤ 9
    → w * 2 ^ s < 2 ^ 64
    → uvarint_loop (w ∷ rest) x s i ≡ ok (x + w * 2 ^ s, i + 1)
unfolding uvarint_loop
last_group w x s i rest h e hi fits = elim (Bool-cases (i == 9)) [
  | inl t ↦ ground (arith, tenth (==→eq i 9 t))
  | inr t ↦ ground arith
]
  where
    tenth : i ≡ 9 → w < 2
    tenth e9 =
        let bound : w * 2 ^ 63 < 2 ^ 64 =
          subst (λ t. w * 2 ^ t < 2 ^ 64) (e ∙ ap (λ (t : ℕ). 7 * t) e9) fits in
        omega arith

inner_group :
    (g x s i : ℕ) (rest : List ℕ)
    → g < 128
    → i < 9
    → uvarint_loop ((128 + g) ∷ rest) x s i ≡ uvarint_loop rest (x + g * 2 ^ s) (s + 7) (i + 1)
unfolding uvarint_loop
inner_group g x s i rest h hi =
    let low : (128 + g) % 128 ≡ g = omega arith in
    rw (ne→== i 10 (omega arith), ge→ltb (128 + g) 128 (omega arith), low)

uvarint_loop-groups :
    (k w x s i : ℕ) (rest : List ℕ)
    → w < 128 ^ suc k
    → s ≡ 7 * i
    → i + k ≤ 9
    → w * 2 ^ s < 2 ^ 64
    → uvarint_loop (groups k w ++ rest) x s i ≡ ok (x + w * 2 ^ s, i + length (groups k w))
unfolding groups
uvarint_loop-groups zero w x s i rest h e hi fits =
    last_group w x s i rest (omega arith) e (omega arith) fits
uvarint_loop-groups (suc k) w x s i rest h e hi fits = elim (Bool-cases (ltb w 128)) [
  | inl t ↦ rw t (last_group w x s i rest (ltb→lt w 128 t) e (omega arith) fits)
  | inr t ↦ rw t (
      inner_group (w % 128) x s i (groups k (w / 128) ++ rest) (omega arith) (omega arith)
      ∙ uvarint_loop-groups k (w / 128) (x + w % 128 * 2 ^ s) (s + 7) (i + 1) rest
          (omega (arith, pow-suc 128 (suc k))) (omega arith) (omega arith)
          (omega (arith, low_and_high w s))
      ∙ ap ok (ap₂ (λ (a b : ℕ). (a, b)) (omega (arith, low_and_high w s)) (omega arith)))
]

pub slice_to-append : (xs ys : List ℕ) (n : ℕ) → n ≡ length xs → slice_to n (xs ++ ys) ≡ ok xs
slice_to-append xs ys n e = rw e (
    rw (
      le→leb (length xs) (length (xs ++ ys)) (omega (arith, length-append xs ys)),
      take-append_length xs ys,
    ))

pub slice_from-append : (xs ys : List ℕ) (n : ℕ) → n ≡ length xs → slice_from n (xs ++ ys) ≡ ok ys
slice_from-append xs ys n e = rw e (
    rw (
      le→leb (length xs) (length (xs ++ ys)) (omega (arith, length-append xs ys)),
      drop-append_length xs ys,
    ))

-- A number reads back, with what follows it.
pub uvarint-bytes :
    (v : ℕ) (rest : List ℕ)
    → v < 2 ^ 64
    → uvarint (uvarint_bytes v ++ rest) ≡ ok (v, length (uvarint_bytes v))
unfolding uvarint
uvarint-bytes v rest h =
    uvarint_loop-groups 9 v 0 0 0 rest (omega arith) refl (omega arith) (omega arith)
    ∙ ap ok (ap₂ (λ (a b : ℕ). (a, b)) (omega arith) (omega arith))

pub take_uvarint-bytes :
    (v : ℕ) (rest : List ℕ)
    → v < 2 ^ 64
    → take_uvarint (uvarint_bytes v ++ rest) ≡ ok (v, length (uvarint_bytes v), rest)
unfolding take_uvarint
take_uvarint-bytes v rest h = rw (
  uvarint-bytes v rest h,
  slice_from-append (uvarint_bytes v) rest (length (uvarint_bytes v)) refl,
)
