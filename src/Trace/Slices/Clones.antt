-- ===== src/Trace/Slices/Clones.antt =====
-- What `slices.Clone` promises, and a function that keeps it.
use wzprof.Base.{ℕ, ◌+◌, ◌≡◌, refl, inl, inr, ◌==◌, if◌then◌else◌, Bool-cases, arith}
use wzprof.Trace.Slices.{Slice, Arrays, nil_slice, row, read, copy, Slicing}
use wzprof.Trace.Slices.Moves.{
  Moves, read-eq, row-cong, owns_once, owns_self, owns_other, owns_empty,
}

-- A clone holds the elements of the slice and has at most an array that is new; no old slice changes.
pub record IsCloning {A : Type 0} (of_elements : Slicing A) : Type 0 where
  pub moves :
      (h : Arrays A) (s : Slice)
      → Moves h nil_slice (of_elements.clone_slice h s).0 (of_elements.clone_slice h s).1
  pub reads :
      (h : Arrays A) (s : Slice)
      → read (of_elements.clone_slice h s).0 (of_elements.clone_slice h s).1 ≡ read h s

module _ {A : Type 0} where
  -- A copy of the elements to a new array; no elements need no array.
  abbrev copying : (ℕ → ℕ) → Arrays A → Slice → Arrays A × Slice
  copying spare h s =
      if s.len == 0
      then (h, record s { cap = 0 })
      else (copy h s.array, record { array = h.next; len = s.len; cap = s.len + spare s.len })

  copying-Moves :
      (spare : ℕ → ℕ) (h : Arrays A) (s : Slice)
      → Moves h nil_slice (copying spare h s).0 (copying spare h s).1
  copying-Moves spare h s = elim (Bool-cases (s.len == 0)) [
    | inl e ↦ rw e (record {
      grows = omega arith;
      keeps = λ t apart o. refl;
      from = λ a l. omega (arith, owns_empty a s e);
      below = λ a l. owns_empty a s e;
      once = λ a. owns_once a _;
    })
    | inr e ↦ rw e (record {
      grows = omega arith;
      keeps = λ t apart o.
          read-eq h (copy h s.array) t (λ live j. ground (arith, o t.array, owns_self t live));
      from = λ a l. omega (arith, owns_other a h.next s.len (s.len + spare s.len) (omega arith));
      below = λ a l. owns_other a h.next s.len (s.len + spare s.len) (omega arith);
      once = λ a. owns_once a _;
    })
  ]

  read-copying :
      (spare : ℕ → ℕ) (h : Arrays A) (s : Slice)
      → read (copying spare h s).0 (copying spare h s).1 ≡ read h s
  unfolding read row
  read-copying spare h s = elim (Bool-cases (s.len == 0)) [
    | inl e ↦ rw e refl
    | inr e ↦
        rw e (row-cong ((copy h s.array).at h.next) (h.at s.array) 0 s.len (λ j l. ground arith))
  ]

  abbrev pub copies : (ℕ → ℕ) → Slicing A
  copies spare = record { spare = spare; clone_slice = copying spare }

  pub copies-IsCloning : (spare : ℕ → ℕ) → IsCloning (copies spare)
  copies-IsCloning spare = record { moves = copying-Moves spare; reads = read-copying spare }
