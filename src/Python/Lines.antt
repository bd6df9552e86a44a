-- ===== src/Python/Lines.antt =====
-- `lineForFrame` on the line tables of CPython.
pub mod Table
use native.Mathlib.Nat.{mod-eq_of_lt}
use wzprof.Base.{
  ℕ, zero, suc, ◌+◌, ◌-◌, ◌*◌, ◌/◌, ◌%◌, ◌^◌, ◌<◌, ◌≤◌, ◌≡◌, ◌⊎◌, inl, inr, refl, sym, ap, ap₂,
  subst, Bool-cases, ◌∙◌, List, [], ◌∷◌, ◌++◌, append_assoc, Bool, true, false, Option, some, ltb,
  leb, ◌==◌, lt→ltb, ge→ltb, le→leb, gt→leb, ne→==, ◌&&◌, if◌then◌else◌, length, length-append, All,
  Outcome, ok, ◌>>=◌, arith,
}
use wzprof.Base.Words.{add32}
use wzprof.Pclntab.{Vmem}
use wzprof.Python.{deref_u8, signed, pysvarint, le_int32, line_delta, entry_end, line_loop}
use wzprof.Python.Varint.{Holds, deref_u8-Holds, pysvarint-groups}

-- The kinds of entries: without a change of line, with the next line or the one after, with a change
-- of one byte, and without a line.
pub data Kind : Type 0 where
  same : ℕ → Kind
  one two : Kind
  no_column long : ℕ → Kind
  no_line : Kind

abbrev pub code_of : Kind → ℕ
code_of (same k) = k
code_of one = 11
code_of two = 12
code_of (no_column x) = 13
code_of (long x) = 14
code_of no_line = 15

abbrev pub delta_of : Kind → ℕ
delta_of (same k) = 0
delta_of one = 1
delta_of two = 2
delta_of (no_column x) = signed x
delta_of (long x) = signed x
delta_of no_line = 0

abbrev pub IsKind : Kind → Type 0
IsKind (same k) = k < 11
IsKind one = Unit {0}
IsKind two = Unit {0}
IsKind (no_column x) = x < 64
IsKind (long x) = x < 64
IsKind no_line = Unit {0}

abbrev pub payload_of : Kind → List ℕ → List ℕ
payload_of (same k) rest = rest
payload_of one rest = rest
payload_of two rest = rest
payload_of (no_column x) rest = x ∷ rest
payload_of (long x) rest = x ∷ rest
payload_of no_line rest = rest

-- An entry, for `units + 1` units of code.
pub record LineEntry : Type 0 where
  pub kind : Kind
  pub units : ℕ
  pub rest : List ℕ

abbrev pub payload : LineEntry → List ℕ
payload e = payload_of (e.kind) (e.rest)

abbrev pub start_byte : LineEntry → ℕ
start_byte e = 128 + code_of (e.kind) * 8 + e.units

abbrev pub IsLineEntry : LineEntry → Type 0
IsLineEntry e = IsKind (e.kind) × (e.units < 8) × All (λ (b : ℕ). b < 128) (payload e)

abbrev pub table_bytes : List LineEntry → List ℕ
table_bytes [] = []
table_bytes (e ∷ es) = start_byte e ∷ (payload e ++ table_bytes es)

abbrev pub AreLineEntries : List LineEntry → Type 0
AreLineEntries es = All IsLineEntry es

-- The bytes of code and the line that entries lead to.
abbrev pub code_size : List LineEntry → ℕ
code_size [] = 0
code_size (e ∷ es) = 2 * (e.units + 1) + code_size es

abbrev pub line_after : ℕ → List LineEntry → ℕ
line_after line [] = line
line_after line (e ∷ es) = line_after (add32 line (delta_of (e.kind))) es

-- The line of an entry, -1 for none.
abbrev pub line_or_none : Kind → ℕ → ℕ
line_or_none no_line line = 2 ^ 32 - 1
line_or_none kind line = line

pub Holds-front :
    (mem : Vmem) (p q : ℕ) (a b : List ℕ) → q ≡ p + length a → Holds mem p (a ++ b) → Holds mem q b
Holds-front mem p q [] b e m = subst (λ (n : ℕ). Holds mem n b) (omega (arith, e)) m
Holds-front mem p q (x ∷ a) b e m = Holds-front mem (suc p) q a b (omega (arith, e)) m.1

-- What follows an entry: nothing before the limit, or the start of another.
abbrev pub Follows : Vmem → ℕ → ℕ → Type 0
Follows mem p limit = (limit ≤ p) ⊎ ((b : ℕ) × (deref_u8 mem p ≡ ok b) × (128 ≤ b) × (b < 256))

entry_end_at :
    (fuel : ℕ) (mem : Vmem) (p limit : ℕ)
    → Follows mem p limit
    → entry_end (suc fuel) mem p limit ≡ ok p
unfolding entry_end
entry_end_at fuel mem p limit (inl l) = rw (ge→ltb p limit l) refl
entry_end_at fuel mem p limit (inr (b, d, l, u)) =
    let top : b / 128 % 2 ≡ 1 = omega arith in
    elim (Bool-cases (ltb p limit)) [ inl c ↦ rw (c, d, top) refl | inr c ↦ rw (c) refl ]

entry_end_step :
    (fuel : ℕ) (mem : Vmem) (p limit b : ℕ)
    → p < limit
    → deref_u8 mem p ≡ ok b
    → b < 128
    → entry_end (suc fuel) mem p limit ≡ entry_end fuel mem (add32 p 1) limit
unfolding entry_end
entry_end_step fuel mem p limit b l d s =
    let top : b / 128 % 2 ≡ 0 = omega arith in rw (lt→ltb p limit l, d, top, entry_end) refl

entry_end-payload :
    (bs : List ℕ) (fuel : ℕ) (mem : Vmem) (p q limit : ℕ) (after : List ℕ)
    → All (λ (b : ℕ). b < 128) bs
    → Holds mem p (bs ++ after)
    → q ≡ p + length bs
    → q ≤ limit
    → limit < 2 ^ 32
    → Follows mem q limit
    → length bs < fuel
    → entry_end fuel mem p limit ≡ ok q
entry_end-payload bs zero mem p q limit after a m e l s f u = absurd (omega arith)
entry_end-payload [] (suc fuel) mem p q limit after a m e l s f u =
    ap (λ (n : ℕ). entry_end (suc fuel) mem n limit) (omega (arith, e))
    ∙ entry_end_at fuel mem q limit f
entry_end-payload (b ∷ bs) (suc fuel) mem p q limit after a m e l s f u =
    entry_end_step fuel mem p limit b (omega (arith, e)) (deref_u8-Holds mem p b (bs ++ after) m)
      a.0
    ∙ ap (λ (n : ℕ). entry_end fuel mem n limit) (omega arith)
    ∙ entry_end-payload bs fuel mem (suc p) q limit after a.1 m.1 (omega (arith, e)) l s f
        (omega arith)

pysvarint_after :
    (fuel : ℕ) (mem : Vmem) (p x : ℕ) (more : List ℕ)
    → x < 64
    → Holds mem (suc p) (x ∷ more)
    → p + 2 < 2 ^ 32
    → 1 < fuel
    → pysvarint fuel mem (add32 p 1) ≡ ok (signed x)
pysvarint_after fuel mem p x more w m l f =
    ap (λ (n : ℕ). pysvarint fuel mem n) (omega arith)
    ∙ pysvarint-groups fuel mem (suc p) x [] (w, tt) (m.0, tt) (omega arith) (omega arith)
        (omega arith)

-- The change of line of an entry at `p`.
line_delta-kind :
    (fuel : ℕ) (mem : Vmem) (p : ℕ) (kind : Kind) (rest after : List ℕ)
    → IsKind kind
    → Holds mem (suc p) (payload_of kind rest ++ after)
    → p + 2 < 2 ^ 32
    → 1 < fuel
    → line_delta fuel mem p (code_of kind) ≡ ok (delta_of kind)
unfolding line_delta
line_delta-kind fuel mem p (same k) rest after w m l f =
    rw
      (
        ne→== k 11 (omega arith),
        ne→== k 12 (omega arith),
        ne→== k 13 (omega arith),
        ne→== k 14 (omega arith),
      )
      refl
line_delta-kind fuel mem p one rest after w m l f = refl
line_delta-kind fuel mem p two rest after w m l f = refl
line_delta-kind fuel mem p (no_column x) rest after w m l f =
    pysvarint_after fuel mem p x (rest ++ after) w m l f
line_delta-kind fuel mem p (long x) rest after w m l f =
    pysvarint_after fuel mem p x (rest ++ after) w m l f
line_delta-kind fuel mem p no_line rest after w m l f = refl

pub code_small : (kind : Kind) → IsKind kind → code_of kind < 16
code_small (same k) w = omega arith
code_small one w = omega arith
code_small two w = omega arith
code_small (no_column x) w = omega arith
code_small (long x) w = omega arith
code_small no_line w = omega arith

line_or_none-test :
    (kind : Kind) (line : ℕ)
    → IsKind kind
    → (if (16 + code_of kind) == 31 then 2 ^ 32 - 1 else line) ≡ line_or_none kind line
line_or_none-test (same k) line w = rw (ne→== (16 + k) 31 (omega arith)) refl
line_or_none-test one line w = refl
line_or_none-test two line w = refl
line_or_none-test (no_column x) line w = refl
line_or_none-test (long x) line w = refl
line_or_none-test no_line line w = refl

-- Two numbers that are not negative.
le_int32-le : (a b : ℕ) → a ≤ b → b < 2 ^ 31 → le_int32 a b ≡ true
le_int32-le a b l s = le→leb ((a + 2 ^ 31) % 2 ^ 32) ((b + 2 ^ 31) % 2 ^ 32) (omega arith)

pub le_int32-gt : (a b : ℕ) → b < a → a < 2 ^ 31 → le_int32 a b ≡ false
le_int32-gt a b l s = gt→leb ((a + 2 ^ 31) % 2 ^ 32) ((b + 2 ^ 31) % 2 ^ 32) (omega arith)

line_loop_round :
    (fuel : ℕ) (mem : Vmem) (addrq limit p end line last b delta q : ℕ)
    → le_int32 end addrq ≡ true
    → ltb p limit ≡ true
    → deref_u8 mem p ≡ ok b
    → line_delta fuel mem p (b / 8 % 16) ≡ ok delta
    → entry_end fuel mem (add32 p 1) limit ≡ ok q
    → line_loop (suc fuel) mem addrq limit p end line last
      ≡ line_loop fuel mem addrq limit q
          (add32 end ((b % 8 + 1) * 2))
          (add32 line delta)
          (if b / 8 == 31 then 2 ^ 32 - 1 else add32 line delta)
unfolding line_loop
line_loop_round fuel mem addrq limit p end line last b delta q t l d x e =
    rw (t, l, d, x, e, line_loop) refl

pub line_loop_past :
    (fuel : ℕ) (mem : Vmem) (addrq limit p end line last : ℕ)
    → le_int32 end addrq ≡ false
    → line_loop (suc fuel) mem addrq limit p end line last ≡ ok last
unfolding line_loop
line_loop_past fuel mem addrq limit p end line last t = rw (t) refl

module _ (mem : Vmem) (addrq limit : ℕ) (low : addrq < 2 ^ 31) (fits : limit + 2 < 2 ^ 32) where
  pub line_loop_entry :
      (fuel p q end line last : ℕ) (kind : Kind) (units : ℕ) (rest after : List ℕ)
      → IsKind kind
      → units < 8
      → All (λ (b : ℕ). b < 128) (payload_of kind rest)
      → Holds mem p ((128 + code_of kind * 8 + units) ∷ (payload_of kind rest ++ after))
      → end ≤ addrq
      → q ≡ suc p + length (payload_of kind rest)
      → q ≤ limit
      → Follows mem q limit
      → length (payload_of kind rest) + 1 < fuel
      → line_loop (suc fuel) mem addrq limit p end line last
        ≡ line_loop fuel mem addrq limit q
            (end + 2 * (units + 1))
            (add32 line (delta_of kind))
            (line_or_none kind (add32 line (delta_of kind)))
  line_loop_entry fuel p q end line last kind units rest after w u a m l e s f g =
      let b = 128 + code_of kind * 8 + units in
      let small = code_small kind w in
      let code : b / 8 % 16 ≡ code_of kind = omega (arith, small) in
      let high : b / 8 ≡ 16 + code_of kind = omega (arith, small) in
      let next : ℕ = add32 line (delta_of kind) in
      line_loop_round fuel mem addrq limit p end line last b (delta_of kind) q
        (le_int32-le end addrq l low) (lt→ltb p limit (omega (arith, e)))
        (deref_u8-Holds mem p b (payload_of kind rest ++ after) m)
        (ap (λ (c : ℕ). line_delta fuel mem p c) code
          ∙ line_delta-kind fuel mem p kind rest after w m.1 (omega (arith, e)) (omega arith))
        (ap (λ (n : ℕ). entry_end fuel mem n limit) (omega (arith, e))
          ∙ entry_end-payload (payload_of kind rest) fuel mem (suc p) q limit after a m.1 e s
              (omega arith) f (omega arith))
      ∙ ap₂ (λ (n : ℕ) (v : ℕ). line_loop fuel mem addrq limit q n next v) (omega (arith, small))
          (ap (λ (n : ℕ). if n == 31 then 2 ^ 32 - 1 else next) high
            ∙ line_or_none-test kind next w)
