-- ===== src/Trace/Slices/Moves.antt =====
-- What the operations on a slice do to the other slices.
use wzprof.Base.{
  ℕ, zero, suc, ◌+◌, ◌<◌, ◌≤◌, ◌≡◌, ◌≢◌, refl, ap, ap₂, ◌∙◌, inl, inr, List, [], ◌∷◌, ◌++◌, true,
  false, ◌==◌, ltb, ltb→lt, ltb→ge, Bool-cases, arith,
}
use wzprof.Trace.Slices.{Slice, Arrays, nil_slice, owns, row, read, write, copy, append, emptied}

-- Slices that have no array in common.
abbrev pub Apart : Slice → Slice → Type 0
Apart s t = (a : ℕ) → owns a s + owns a t ≤ 1

pub owns_self : (t : Slice) → (t.len + t.cap == 0) ≡ false → owns t.array t ≡ 1
unfolding owns
owns_self t h = ground arith

pub owns_once : (a : ℕ) (t : Slice) → owns a t ≤ 1
unfolding owns
owns_once a t = ground arith

owns_longer :
    (a : ℕ) (s : Slice) → ltb s.len s.cap ≡ true → owns a (record s { len = suc s.len }) ≡ owns a s
unfolding owns
owns_longer a s room = ground arith

pub owns_other : (a n l c : ℕ) → n ≢ a → owns a (record { array = n; len = l; cap = c }) ≡ 0
unfolding owns
owns_other a n l c ne = ground arith

pub owns_empty : (a : ℕ) (s : Slice) → (s.len == 0) ≡ true → owns a (record s { cap = 0 }) ≡ 0
unfolding owns
owns_empty a s e = ground arith

module _ {A : Type 0} where
  pub row-cong : (f g : ℕ → A) (i n : ℕ) → ((j : ℕ) → j < i + n → f j ≡ g j) → row f i n ≡ row g i n
  unfolding row
  row-cong f g i zero h = refl
  row-cong f g i (suc n) h =
      cc (h i (omega arith), row-cong f g (i + 1) n (λ j l. h j (omega arith)))

  row-snoc : (f : ℕ → A) (i n : ℕ) → row f i (suc n) ≡ row f i n ++ (f (i + n) ∷ [])
  unfolding row
  row-snoc f i zero = ap (λ (k : ℕ). f k ∷ []) (omega arith)
  row-snoc f i (suc n) =
      let k : i + 1 + n ≡ i + suc n = omega arith in
      cc (row-snoc f (i + 1) n, ap (λ (m : ℕ). f m ∷ []) k)

  -- An old slice has no array that is not allocated.
  abbrev pub IsOld : Arrays A → Slice → Type 0
  IsOld h t = (a : ℕ) → h.next ≤ a → owns a t ≡ 0

  -- What an operation on a slice does to the arrays and to the others: each slice that is apart from it and
  -- old holds what it held, and the new slice has an array of the old one or a new one.
  pub record Moves (h : Arrays A) (s : Slice) (h' : Arrays A) (s' : Slice) : Type 0 where
    pub grows : h.next ≤ h'.next
    pub keeps : (t : Slice) → Apart s t → IsOld h t → read h' t ≡ read h t
    pub from : (a : ℕ) → a < h.next → owns a s' ≤ owns a s
    pub below : (a : ℕ) → h'.next ≤ a → owns a s' ≡ 0
    pub once : (a : ℕ) → owns a s' ≤ 1

  -- A slice whose array, if it has one, is as before.
  pub read-eq :
      (h h' : Arrays A) (t : Slice)
      → ((t.len + t.cap == 0) ≡ false → (j : ℕ) → h'.at t.array j ≡ h.at t.array j)
      → read h' t ≡ read h t
  unfolding read row
  read-eq h h' t same = elim (Bool-cases (t.len + t.cap == 0)) [
    | inl e ↦ let none : t.len ≡ 0 = ground arith in rw none refl
    | inr e ↦ row-cong (h'.at t.array) (h.at t.array) 0 t.len (λ j l. same e j)
  ]

  pub append-Moves :
      (spare : ℕ → ℕ) (h : Arrays A) (s : Slice) (x : A)
      → IsOld h s
      → Moves h s (append spare h s x).0 (append spare h s x).1
  unfolding append
  append-Moves spare h s x old = elim (Bool-cases (ltb s.len s.cap)) [
    | inl room ↦ rw room (record {
      grows = omega arith;
      keeps = λ t apart o.
          read-eq h (write h s.array s.len x) t
            (λ live j. ground (arith, apart t.array, owns_self t live, owns_self s));
      from = λ a l. omega (arith, owns_longer a s room);
      below = λ a l. owns_longer a s room ∙ old a l;
      once = λ a. owns_once a _;
    })
    | inr full ↦ rw full (record {
      grows = omega arith;
      keeps = λ t apart o.
          read-eq h (write (copy h s.array) h.next s.len x) t
            (λ live j. ground (arith, o t.array, owns_self t live));
      from = λ a l.
          omega
            (arith, owns_other a h.next (suc s.len) (suc s.len + spare (suc s.len)) (omega arith));
      below = λ a l. owns_other a h.next (suc s.len) (suc s.len + spare (suc s.len)) (omega arith);
      once = λ a. owns_once a _;
    })
  ]

  snoc-eq :
      (f g : ℕ → A) (n : ℕ) (x : A)
      → ((j : ℕ) → j < n → g j ≡ f j)
      → g n ≡ x
      → row g 0 (suc n) ≡ row f 0 n ++ (x ∷ [])
  snoc-eq f g n x same last =
      row-snoc g 0 n
      ∙ ap₂ (λ (xs : List A) (y : A). xs ++ (y ∷ []))
          (row-cong g f 0 n (λ j l. same j (omega arith))) (ap g (omega arith) ∙ last)

  pub read-append :
      (spare : ℕ → ℕ) (h : Arrays A) (s : Slice) (x : A)
      → read (append spare h s x).0 (append spare h s x).1 ≡ read h s ++ (x ∷ [])
  unfolding append read
  read-append spare h s x = elim (Bool-cases (ltb s.len s.cap)) [
    | inl room ↦ rw room (
        snoc-eq (h.at s.array) ((write h s.array s.len x).at s.array) s.len x (λ j l. ground arith)
          (ground arith))
    | inr full ↦ rw full (
        snoc-eq (h.at s.array) ((write (copy h s.array) h.next s.len x).at h.next) s.len x
          (λ j l. ground arith) (ground arith))
  ]

  pub moved-Apart :
      (h : Arrays A) (s : Slice) (h' : Arrays A) (s' t : Slice)
      → Moves h s h' s'
      → Apart s t
      → IsOld h t
      → Apart s' t
  moved-Apart h s h' s' t m apart o a = elim (Bool-cases (ltb a h.next)) [
    | inl l ↦ omega (arith, m.from a (ltb→lt a h.next l), apart a)
    | inr g ↦ omega (arith, m.once a, o a (ltb→ge a h.next g))
  ]

  -- One move after another.
  pub Moves-trans :
      (h : Arrays A) (s : Slice) (h' : Arrays A) (s' : Slice) (h'' : Arrays A) (s'' : Slice)
      → Moves h s h' s'
      → Moves h' s' h'' s''
      → Moves h s h'' s''
  Moves-trans h s h' s' h'' s'' m n = record {
    grows = omega (arith, m.grows, n.grows);
    keeps = λ t apart o.
        n.keeps t (moved-Apart h s h' s' t m apart o) (λ a l. o a (omega (arith, m.grows)))
        ∙ m.keeps t apart o;
    from = λ a l. omega (arith, m.from a l, n.from a (omega (arith, m.grows, l)));
    below = n.below;
    once = n.once;
  }

pub owns-emptied : (a : ℕ) (s : Slice) → owns a (emptied s) ≤ owns a s
unfolding owns
owns-emptied a s = ground arith

pub read-emptied : {A : Type 0} (h : Arrays A) (s : Slice) → read h (emptied s) ≡ []
unfolding read row
read-emptied h s = refl

pub owns-nil_slice : (a : ℕ) → owns a nil_slice ≡ 0
unfolding owns
owns-nil_slice a = refl
