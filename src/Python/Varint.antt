-- ===== src/Python/Varint.antt =====
-- What `pysvarint` reads from the groups of a signed number.
use native.Mathlib.Nat.{mod-eq_of_lt}
use native.Mathlib.Numerals.{towards_suc}
use wzprof.Base.{
  ℕ, zero, suc, ◌+◌, ◌*◌, ◌/◌, ◌%◌, ◌^◌, ◌<◌, ◌≡◌, refl, ap, ap₂, ◌∙◌, List, [], ◌∷◌, some, length,
  All, ok, arith,
}
use wzprof.Base.Words.{add32}
use wzprof.Pclntab.{Vmem, deref, le_number}
use wzprof.Python.{deref_u8, svarint_loop, signed, pysvarint}

-- The memory holds bytes from an address on.
abbrev pub Holds : Vmem → ℕ → List ℕ → Type 0
Holds mem p [] = Unit {0}
Holds mem p (b ∷ bs) = (mem (p % 2 ^ 32) 1 ≡ some (b ∷ [])) × Holds mem (suc p) bs

pub deref_u8-Holds :
    (mem : Vmem) (p b : ℕ) (bs : List ℕ) → Holds mem p (b ∷ bs) → deref_u8 mem p ≡ ok b
unfolding deref_u8 deref le_number
deref_u8-Holds mem p b bs h = rw (h.0) (ap (λ (n : ℕ). ok n) (omega arith))

-- A number as groups of six bits, the lowest first, and its bytes: all but the last have the bit 64.
abbrev pub value : ℕ → List ℕ → ℕ
value g [] = g
value g (h ∷ gs) = g + 64 * value h gs

abbrev pub group_bytes : ℕ → List ℕ → List ℕ
group_bytes g [] = g ∷ []
group_bytes g (h ∷ gs) = (g + 64) ∷ group_bytes h gs

abbrev pub AreGroups : ℕ → List ℕ → Type 0
AreGroups g gs = (g < 64) × All (λ (h : ℕ). h < 64) gs

svarint_loop_more :
    (fuel : ℕ) (mem : Vmem) (p read val shift b : ℕ)
    → read / 64 % 2 ≡ 1
    → deref_u8 mem p ≡ ok b
    → svarint_loop (suc fuel) mem p read val shift
      ≡ svarint_loop fuel mem (add32 p 1) b ((val + b % 64 * 2 ^ (shift + 6)) % 2 ^ 32) (shift + 6)
unfolding svarint_loop
svarint_loop_more fuel mem p read val shift b h d = rw (h, d, svarint_loop) refl

svarint_loop_end :
    (fuel : ℕ) (mem : Vmem) (p read val shift : ℕ)
    → read / 64 % 2 ≡ 0
    → svarint_loop (suc fuel) mem p read val shift ≡ ok val
unfolding svarint_loop
svarint_loop_end fuel mem p read val shift h = rw (h) refl

shift_six : (s : ℕ) → 2 ^ (s + 6 + 6) ≡ 64 * 2 ^ (s + 6)
shift_six s = simp towards_suc (omega arith)

small_mod : (a n : ℕ) → n < 2 ^ 32 → a ≡ n → a % 2 ^ 32 ≡ n
small_mod a n l e = ap (λ (x : ℕ). x % 2 ^ 32) e ∙ mod-eq_of_lt l

low_group : (g w : ℕ) → g < 64 → g % 64 * w ≡ g * w
low_group g w l = ap (λ (x : ℕ). x * w) (omega arith)

high_group : (g w : ℕ) → g < 64 → (g + 64) % 64 * w ≡ g * w
high_group g w l = ap (λ (x : ℕ). x * w) (omega arith)

svarint_loop-groups :
    (gs : List ℕ) (fuel : ℕ) (mem : Vmem) (p g read val shift : ℕ)
    → read / 64 % 2 ≡ 1
    → AreGroups g gs
    → Holds mem p (group_bytes g gs)
    → p + length gs + 1 < 2 ^ 32
    → val + value g gs * 2 ^ (shift + 6) < 2 ^ 32
    → length gs + 1 < fuel
    → svarint_loop fuel mem p read val shift ≡ ok (val + value g gs * 2 ^ (shift + 6))
svarint_loop-groups gs zero mem p g read val shift r a m l f e = absurd (omega arith)
svarint_loop-groups [] (suc zero) mem p g read val shift r a m l f e = absurd (omega arith)
svarint_loop-groups [] (suc (suc fuel)) mem p g read val shift r a m l f e =
    svarint_loop_more (suc fuel) mem p read val shift g r (deref_u8-Holds mem p g [] m)
    ∙ svarint_loop_end fuel mem (add32 p 1) g ((val + g % 64 * 2 ^ (shift + 6)) % 2 ^ 32)
        (shift + 6) (omega (arith, a.0))
    ∙ ap (λ (n : ℕ). ok n)
        (small_mod (val + g % 64 * 2 ^ (shift + 6)) (val + g * 2 ^ (shift + 6)) f
          (omega (arith, low_group g (2 ^ (shift + 6)) a.0)))
svarint_loop-groups (h ∷ gs) (suc fuel) mem p g read val shift r a m l f e =
    let w = 2 ^ (shift + 6) in
    let part : val + g * w < 2 ^ 32 = omega (arith, f) in
    let whole : val + g * w + value h gs * 2 ^ (shift + 6 + 6) ≡ val + value g (h ∷ gs) * w =
      omega (arith, ap (λ (x : ℕ). value h gs * x) (shift_six shift)) in
    svarint_loop_more fuel mem p read val shift (g + 64) r
      (deref_u8-Holds mem p (g + 64) (group_bytes h gs) m)
    ∙ ap₂ (λ (q : ℕ) (v : ℕ). svarint_loop fuel mem q (g + 64) v (shift + 6))
        (small_mod (p + 1) (suc p) (omega arith) (omega arith))
        (small_mod (val + (g + 64) % 64 * w) (val + g * w) part (omega (arith, high_group g w a.0)))
    ∙ svarint_loop-groups gs fuel mem (suc p) h (g + 64) (val + g * w) (shift + 6)
        (omega (arith, a.0)) a.1 m.1 (omega arith) (omega (arith, f, whole)) (omega arith)
    ∙ ap (λ (n : ℕ). ok n) whole

-- What the groups come to when the lowest is read twice, where there are several.
abbrev pub seen : ℕ → List ℕ → ℕ
seen g [] = g
seen g (h ∷ gs) = g + 64 * value g (h ∷ gs)

pysvarint_starts :
    (fuel : ℕ) (mem : Vmem) (p b val : ℕ)
    → deref_u8 mem p ≡ ok b
    → svarint_loop fuel mem p b (b % 64) 0 ≡ ok val
    → pysvarint fuel mem p ≡ ok (signed val)
unfolding pysvarint
pysvarint_starts fuel mem p b val d l = rw (d, l) refl

-- Where the memory holds a number in groups of six bits, with the bit 64 on every byte but the last,
-- `pysvarint` gives the sign and size of a number of one group as it is written. Of several groups it
-- reads the lowest twice, so it takes the number `v` for `v % 64 + 64 * v`, if this has 32 bits.
pub pysvarint-groups :
    (fuel : ℕ) (mem : Vmem) (p g : ℕ) (gs : List ℕ)
    → AreGroups g gs
    → Holds mem p (group_bytes g gs)
    → p + length gs + 1 < 2 ^ 32
    → seen g gs < 2 ^ 32
    → length gs + 1 < fuel
    → pysvarint fuel mem p ≡ ok (signed (seen g gs))
pysvarint-groups zero mem p g gs a m l f e = absurd (omega arith)
pysvarint-groups (suc fuel) mem p g [] a m l f e =
    pysvarint_starts (suc fuel) mem p g g (deref_u8-Holds mem p g [] m) (
      svarint_loop_end fuel mem p g (g % 64) 0 (omega (arith, a.0))
      ∙ ap (λ (n : ℕ). ok n) (omega (arith, a.0)))
pysvarint-groups (suc fuel) mem p g (h ∷ gs) a m l f e =
    pysvarint_starts (suc fuel) mem p (g + 64) (seen g (h ∷ gs))
      (deref_u8-Holds mem p (g + 64) (group_bytes h gs) m)
      (ap (λ (v : ℕ). svarint_loop (suc fuel) mem p (g + 64) v 0) (omega (arith, a.0))
        ∙ svarint_loop-groups (h ∷ gs) (suc fuel) mem p g (g + 64) g 0 (omega (arith, a.0)) a m l
            (omega (arith, f)) e
        ∙ ap (λ (n : ℕ). ok n) (omega arith))
