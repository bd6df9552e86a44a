-- ===== src/Base/Bits.antt =====
-- Single bits of a word, and how `&` and `|` act on them.
use Prim.Native.Nat.{
  ℕ, zero, suc, ◌+◌, ◌-◌, ◌*◌, ◌/◌, ◌%◌, ◌^◌, ◌≤◌, ◌<◌, min, max, bit_and, bit_or, digits,
  bit_and-bitwise, bit_or-bitwise,
}
use mathlib.Core.Path.{◌≡◌, ◌∙◌, refl, sym, ap}
use mathlib.Core.Logic.{◌≢◌}
use native.Mathlib.Nat.{pow-suc, mul_comm, div-div-eq-div-mul}
use native.Mathlib.Omega.{arith}

-- Bit `k` of a word.
abbrev pub bit_at : ℕ → ℕ → ℕ
bit_at zero w = w % 2
bit_at (suc k) w = bit_at k (w / 2)

-- A digitwise operation as the natives define it, with the fuel in front.
module _ (op : ℕ → ℕ → ℕ) (rest : ℕ → ℕ) where
  abbrev folded : ℕ → ℕ → ℕ → ℕ
  folded fuel x y = digits rest op fuel x y

  folded_none : (fuel y : ℕ) → folded fuel 0 y ≡ rest y
  folded_none zero y = refl
  folded_none (suc fuel) y = refl

  -- Any two fuels that reach the end of the first number give one result.
  folded_same : (y k l x : ℕ) → (x ≤ k) × (x ≤ l) → folded k x y ≡ folded l x y
  folded_same y k l zero both = folded_none k y ∙ sym (folded_none l y)
  folded_same y (suc k) (suc l) (suc x) both =
      omega (arith, folded_same (y / 2) k l (suc x / 2) (omega arith, omega arith))
  folded_same y zero l (suc x) both = absurd (omega arith)
  folded_same y (suc k) zero (suc x) both = absurd (omega arith)

  folded_halves :
      (x y : ℕ)
      → folded (suc x) (suc x) y
        ≡ op (suc x % 2) (y % 2) + 2 * folded (suc x / 2) (suc x / 2) (y / 2)
  folded_halves x y =
      omega (arith, folded_same (y / 2) x (suc x / 2) (suc x / 2) (omega arith, omega arith))

bit_and-halves : (x y : ℕ) → bit_and x y ≡ min (x % 2) (y % 2) + 2 * bit_and (x / 2) (y / 2)
bit_and-halves zero y = rw (bit_and-bitwise 0 y, bit_and-bitwise 0 (y / 2)) (omega arith)
bit_and-halves (suc x) y =
    rw (bit_and-bitwise (suc x) y, bit_and-bitwise (suc x / 2) (y / 2))
      (folded_halves min (λ y. 0) x y)

bit_or-halves : (x y : ℕ) → bit_or x y ≡ max (x % 2) (y % 2) + 2 * bit_or (x / 2) (y / 2)
bit_or-halves zero y = rw (bit_or-bitwise 0 y, bit_or-bitwise 0 (y / 2)) (omega arith)
bit_or-halves (suc x) y =
    rw (bit_or-bitwise (suc x) y, bit_or-bitwise (suc x / 2) (y / 2))
      (folded_halves max (λ y. y) x y)

pub bit_at-and : (k a b : ℕ) → bit_at k (bit_and a b) ≡ min (bit_at k a) (bit_at k b)
bit_at-and zero a b = omega (arith, bit_and-halves a b)
bit_at-and (suc k) a b = rw (halved) (bit_at-and k (a / 2) (b / 2))
  where
    halved : bit_and a b / 2 ≡ bit_and (a / 2) (b / 2)
    halved = omega (arith, bit_and-halves a b)

pub bit_at-or : (k a b : ℕ) → bit_at k (bit_or a b) ≡ max (bit_at k a) (bit_at k b)
bit_at-or zero a b = omega (arith, bit_or-halves a b)
bit_at-or (suc k) a b = rw (halved) (bit_at-or k (a / 2) (b / 2))
  where
    halved : bit_or a b / 2 ≡ bit_or (a / 2) (b / 2)
    halved = omega (arith, bit_or-halves a b)

pub two_pow_pos : (n : ℕ) → 0 < 2 ^ n
two_pow_pos zero = omega arith
two_pow_pos (suc n) = omega (arith, pow-suc 2 n, two_pow_pos n)

pub bit_at-le-one : (k w : ℕ) → bit_at k w ≤ 1
bit_at-le-one zero w = omega arith
bit_at-le-one (suc k) w = bit_at-le-one k (w / 2)

bit_at-zero : (k : ℕ) → bit_at k 0 ≡ 0
bit_at-zero zero = refl
bit_at-zero (suc k) = bit_at-zero k

-- Shifting right by `k` and keeping the lowest bit reads bit `k`.
pub bit_at-shift : (k w : ℕ) → w / 2 ^ k % 2 ≡ bit_at k w
bit_at-shift zero w = omega arith
bit_at-shift (suc k) w = rw (← bit_at-shift k (w / 2)) (
    ap (λ (t : ℕ). t % 2)
      (rw (pow-suc 2 k, mul_comm (2 ^ k) 2) (sym (div-div-eq-div-mul w 2 (2 ^ k)))))

-- The word with bit `s` alone, or no bit.
halve_single : (v s : ℕ) → v * 2 ^ suc s / 2 ≡ v * 2 ^ s
halve_single v s = omega (arith, ap (λ (t : ℕ). v * t) (pow-suc 2 s))

low_single : (v s : ℕ) → v * 2 ^ suc s % 2 ≡ 0
low_single v s = omega (arith, ap (λ (t : ℕ). v * t) (pow-suc 2 s))

pub bit_at-single_self : (s v : ℕ) → v ≤ 1 → bit_at s (v * 2 ^ s) ≡ v
bit_at-single_self zero v h = omega arith
bit_at-single_self (suc s) v h = rw (halve_single v s) (bit_at-single_self s v h)

pub bit_at-single_ne : (k s v : ℕ) → v ≤ 1 → k ≢ s → bit_at k (v * 2 ^ s) ≡ 0
bit_at-single_ne zero zero v b h = absurd (h refl)
bit_at-single_ne zero (suc s) v b h = low_single v s
bit_at-single_ne (suc k) zero v b h =
    let e : v * 2 ^ 0 / 2 ≡ 0 = omega arith in rw e (bit_at-zero k)
bit_at-single_ne (suc k) (suc s) v b h =
    rw (halve_single v s) (bit_at-single_ne k s v b (λ e. h (ap suc e)))

-- All of the lowest `n` bits, and all but bit `s`.
half_ones : (n : ℕ) → (2 ^ suc n - 1) / 2 ≡ 2 ^ n - 1
half_ones n = omega (arith, pow-suc 2 n, two_pow_pos n)

bit_at-ones : (n k : ℕ) → k < n → bit_at k (2 ^ n - 1) ≡ 1
bit_at-ones zero k h = absurd (omega arith)
bit_at-ones (suc n) zero h = omega (arith, pow-suc 2 n, two_pow_pos n)
bit_at-ones (suc n) (suc k) h = rw (half_ones n) (bit_at-ones n k (omega arith))

pow_le : (n s : ℕ) → s < n → 2 ^ s < 2 ^ n
pow_le zero s h = absurd (omega arith)
pow_le (suc n) zero h = omega (arith, pow-suc 2 n, two_pow_pos n)
pow_le (suc n) (suc s) h = omega (arith, pow-suc 2 n, pow-suc 2 s, pow_le n s (omega arith))

half_clear : (n s : ℕ) → s < n → (2 ^ suc n - 1 - 2 ^ suc s) / 2 ≡ 2 ^ n - 1 - 2 ^ s
half_clear n s h = omega (arith, pow-suc 2 n, pow-suc 2 s, pow_le n s h)

pub bit_at-clear_self : (n s : ℕ) → s < n → bit_at s (2 ^ n - 1 - 2 ^ s) ≡ 0
bit_at-clear_self zero s h = absurd (omega arith)
bit_at-clear_self (suc n) zero h = omega (arith, pow-suc 2 n, two_pow_pos n)
bit_at-clear_self (suc n) (suc s) h =
    rw (half_clear n s (omega arith)) (bit_at-clear_self n s (omega arith))

pub bit_at-clear_ne : (n s k : ℕ) → s < n → k < n → k ≢ s → bit_at k (2 ^ n - 1 - 2 ^ s) ≡ 1
bit_at-clear_ne zero s k hs h ne = absurd (omega arith)
bit_at-clear_ne (suc n) zero zero hs h ne = absurd (ne refl)
bit_at-clear_ne (suc n) (suc s) zero hs h ne =
    omega (arith, pow-suc 2 n, pow-suc 2 s, pow_le n s (omega arith))
bit_at-clear_ne (suc n) zero (suc k) hs h ne =
    let e : (2 ^ suc n - 1 - 2 ^ 0) / 2 ≡ 2 ^ n - 1 = omega (arith, pow-suc 2 n, two_pow_pos n) in
    rw e (bit_at-ones n k (omega arith))
bit_at-clear_ne (suc n) (suc s) (suc k) hs h ne =
    rw (half_clear n s (omega arith))
      (bit_at-clear_ne n s k (omega arith) (omega arith) (λ e. ne (ap suc e)))

-- `|` of a number below `2 ^ s` and a multiple of `2 ^ s` is their sum.
pub bit_or_disjoint : (s v g : ℕ) → v < 2 ^ s → bit_or v (g * 2 ^ s) ≡ v + g * 2 ^ s
bit_or_disjoint zero zero g h = omega (arith, bit_or-bitwise 0 (g * 2 ^ 0))
bit_or_disjoint zero (suc v) g h = absurd (omega arith)
bit_or_disjoint (suc s) v g h =
    rw (bit_or-halves v (g * 2 ^ suc s), low_single g s, halve_single g s)
      (rw (bit_or_disjoint s (v / 2) g (omega (arith, pow-suc 2 s)))
        (omega (arith, low_single g s, halve_single g s)))
