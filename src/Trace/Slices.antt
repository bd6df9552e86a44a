-- ===== src/Trace/Slices.antt =====
-- Go's slices over a store of arrays, as the builtin `append` and the code use them.
pub mod Moves
pub mod Clones
use wzprof.Base.{
  ℕ, zero, suc, ◌+◌, ◌<◌, ◌≤◌, ◌≡◌, ◌≢◌, refl, ap, ap₂, ◌∙◌, inl, inr, List, [], ◌∷◌, ◌++◌, true,
  false, ◌&&◌, ◌==◌, ltb, if◌then◌else◌, ltb→lt, ltb→ge, Bool-cases, arith,
}

-- A slice: its array, its length and its capacity. The zero slice is nil.
pub record Slice : Type 0 where
  pub array : ℕ
  pub len : ℕ
  pub cap : ℕ

abbrev pub nil_slice : Slice
nil_slice = record { array = 0; len = 0; cap = 0 }

-- The arrays, by number: those below `next` have been allocated.
pub record Arrays (A : Type 0) : Type 0 where
  pub next : ℕ
  pub at : ℕ → ℕ → A

-- How often a slice has an array, which is once at most. A slice of no length and capacity has none.
pub owns : ℕ → Slice → ℕ
owns a s = if s.len + s.cap == 0 then 0 else if s.array == a then 1 else 0

module _ {A : Type 0} where
  pub row : (ℕ → A) → ℕ → ℕ → List A
  row cells i zero = []
  row cells i (suc n) = cells i ∷ row cells (i + 1) n

  -- What a slice holds.
  pub read : Arrays A → Slice → List A
  unfolding row
  read h s = row (h.at s.array) 0 s.len

  -- A write to an element, and a new array with the elements of another and one more at a place.
  abbrev pub write : Arrays A → ℕ → ℕ → A → Arrays A
  write h a i x = record h { at = λ b j. if (b == a) && (j == i) then x else h.at b j }

  abbrev pub copy : Arrays A → ℕ → Arrays A
  copy h a = record { next = suc h.next; at = λ b j. if b == h.next then h.at a j else h.at b j }

  -- `append` of one element. The capacity of a new array is the length with what the runtime adds,
  -- which is the first argument.
  pub append : (ℕ → ℕ) → Arrays A → Slice → A → Arrays A × Slice
  append spare h s x =
      if ltb s.len s.cap then (write h s.array s.len x, record s { len = suc s.len }) else (
        write (copy h s.array) h.next s.len x,
        record { array = h.next; len = suc s.len; cap = suc s.len + spare (suc s.len) },
      )

-- `s[:0]`, which keeps the array.
abbrev pub emptied : Slice → Slice
emptied s = record s { len = 0 }

-- What the code takes from outside for slices of a type: what the runtime adds to the capacity of a new
-- array of a length, and `slices.Clone`.
pub record Slicing (A : Type 0) : Type 0 where
  pub spare : ℕ → ℕ
  pub clone_slice : Arrays A → Slice → Arrays A × Slice
