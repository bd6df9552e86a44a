-- ===== src/Dwarf/Locations/Rows.antt =====
-- The row that `Locations` picks from the sorted rows, and the subprogram that it picks.
use wzprof.Base.{
  ℕ, ◌<◌, ◌≤◌, ◌≡◌, ◌⊎◌, refl, sym, subst, ◌∙◌, List, [], ◌∷◌, ◌++◌, append_assoc, true, false,
  Option, none, some, length, leb, ◌==◌, leb→le, leb→gt, le→leb, ==→eq, ==→ne, All, arith,
  Bool-cases, inl, inr,
}
use wzprof.Dwarf.{Range, SubprogramRange}
use wzprof.Dwarf.Locations.{Row, in_range, covering, line_of}

abbrev pub AreBelow : ℕ → List Row → Type 0
AreBelow offset rows = All (λ (q : Row). q.address < offset) rows

abbrev pub AreAbove : ℕ → List Row → Type 0
AreAbove offset rows = All (λ (q : Row). offset < q.address) rows

abbrev pub AreSorted : List Row → Type 0
AreSorted [] = Unit {0}
AreSorted (r ∷ rows) = All (λ (q : Row). r.address ≤ q.address) rows × AreSorted rows

-- The row of an offset: the first one at the offset, or, where there is none, the last one below it,
-- if others are above it. No row, where all are below the offset or all above it.
abbrev pub IsRowOf : ℕ → List Row → Option Row → Type 0
IsRowOf offset rows none = AreBelow offset rows ⊎ AreAbove offset rows
IsRowOf offset rows (some r) =
    (before : List Row) × (after : List Row) × (rows ≡ before ++ (r ∷ after))
    × AreBelow offset before
    × ((r.address ≡ offset) ⊎ ((r.address < offset) × (0 < length after) × AreAbove offset after))

above :
    (offset : ℕ) (r : Row) (rows : List Row)
    → offset < r.address
    → All (λ (q : Row). r.address ≤ q.address) rows
    → AreAbove offset rows
above offset r [] l s = tt
above offset r (q ∷ rows) l s = (omega (arith, s.0), above offset r rows l s.1)

below-append :
    (offset : ℕ) (xs ys : List Row)
    → AreBelow offset xs
    → AreBelow offset ys
    → AreBelow offset (xs ++ ys)
below-append offset [] ys bx by = by
below-append offset (x ∷ xs) ys bx by = (bx.0, below-append offset xs ys bx.1 by)

module _ (offset : ℕ) where
  line_of_past :
      (r : Row) (rows : List Row) (prev : Option Row)
      → leb offset (r.address) ≡ false
      → line_of offset prev (r ∷ rows) ≡ line_of offset (some r) rows
  unfolding line_of
  line_of_past r rows prev h = rw (h, line_of) refl

  line_of_at :
      (r : Row) (rows : List Row) (prev : Option Row)
      → leb offset (r.address) ≡ true
      → (r.address == offset) ≡ true
      → line_of offset prev (r ∷ rows) ≡ some r
  unfolding line_of
  line_of_at r rows prev h e = rw (h, e, line_of) refl

  line_of_before :
      (r : Row) (rows : List Row) (prev : Option Row)
      → leb offset (r.address) ≡ true
      → (r.address == offset) ≡ false
      → line_of offset prev (r ∷ rows) ≡ prev
  unfolding line_of
  line_of_before r rows prev h e = rw (h, e, line_of) refl

  line_of_end : (prev : Option Row) → line_of offset prev [] ≡ none
  unfolding line_of
  line_of_end prev = refl

  module _ (init : List Row) (p : Row) (r : Row) (rows : List Row) where
    next_round :
        (o : Option Row)
        → IsRowOf offset ((init ++ (p ∷ [])) ++ (r ∷ rows)) o
        → IsRowOf offset (init ++ (p ∷ (r ∷ rows))) o
    next_round o =
        subst (λ (rs : List Row). IsRowOf offset rs o) (append_assoc init (p ∷ []) (r ∷ rows))

  past_some :
      (init : List Row) (p : Row) (rows : List Row)
      → AreBelow offset init
      → p.address < offset
      → AreSorted rows
      → IsRowOf offset (init ++ (p ∷ rows)) (line_of offset (some p) rows)
  past_some init p [] b l s =
      subst (IsRowOf offset (init ++ (p ∷ []))) (sym (line_of_end (some p)))
        (inl (below-append offset init (p ∷ []) b (l, tt)))
  past_some init p (r ∷ rows) b l s = elim (Bool-cases (leb offset (r.address))) [
    | inr h ↦
        subst (IsRowOf offset (init ++ (p ∷ (r ∷ rows)))) (sym (line_of_past r rows (some p) h)) (
          next_round init p r rows (line_of offset (some r) rows) (
            past_some (init ++ (p ∷ [])) r rows (below-append offset init (p ∷ []) b (l, tt))
              (leb→gt offset (r.address) h) s.1))
    | inl h ↦ elim (Bool-cases (r.address == offset)) [
      | inl e ↦
          subst (IsRowOf offset (init ++ (p ∷ (r ∷ rows)))) (sym (line_of_at r rows (some p) h e)) (
            init ++ (p ∷ []),
            rows,
            sym (append_assoc init (p ∷ []) (r ∷ rows)),
            below-append offset init (p ∷ []) b (l, tt),
            inl (==→eq (r.address) offset e),
          )
      | inr e ↦
          let gt : offset < r.address =
            omega (arith, leb→le offset (r.address) h, ==→ne (r.address) offset e) in
          subst (IsRowOf offset (init ++ (p ∷ (r ∷ rows))))
            (sym (line_of_before r rows (some p) h e))
            (init, r ∷ rows, refl, b, inr (l, omega arith, (gt, above offset r rows gt s.0)))
    ]
  ]

  -- On rows sorted by address, the row that `Locations` picks for an offset is the first one at the
  -- offset, or, where there is none, the last one below it, if other rows are above it. It picks no
  -- row exactly where none of this can be: all rows are below the offset, or all above it.
  pub line_of-row :
      (rows : List Row) → AreSorted rows → IsRowOf offset rows (line_of offset none rows)
  line_of-row [] s = subst (IsRowOf offset []) (sym (line_of_end none)) (inl tt)
  line_of-row (r ∷ rows) s = elim (Bool-cases (leb offset (r.address))) [
    | inr h ↦
        subst (IsRowOf offset (r ∷ rows)) (sym (line_of_past r rows none h))
          (past_some [] r rows tt (leb→gt offset (r.address) h) s.1)
    | inl h ↦ elim (Bool-cases (r.address == offset)) [
      | inl e ↦
          subst (IsRowOf offset (r ∷ rows)) (sym (line_of_at r rows none h e))
            ([], rows, refl, tt, inl (==→eq (r.address) offset e))
      | inr e ↦
          let gt : offset < r.address =
            omega (arith, leb→le offset (r.address) h, ==→ne (r.address) offset e) in
          subst (IsRowOf offset (r ∷ rows)) (sym (line_of_before r rows none h e))
            (inr (gt, above offset r rows gt s.0))
    ]
  ]

covering_step :
    (offset : ℕ) (sr : SubprogramRange) (rest : List SubprogramRange)
    → in_range offset (sr.range) ≡ true
    → covering offset (sr ∷ rest) ≡ some (sr.subprogram)
unfolding covering
covering_step offset sr rest h = rw (h, covering) refl

covering_skip :
    (offset : ℕ) (sr : SubprogramRange) (rest : List SubprogramRange)
    → in_range offset (sr.range) ≡ false
    → covering offset (sr ∷ rest) ≡ covering offset rest
unfolding covering
covering_skip offset sr rest h = rw (h, covering) refl

in_range_end : (r : Range) → r.low ≤ r.high → in_range (r.high) r ≡ true
in_range_end r l = rw (le→leb (r.low) (r.high) l, le→leb (r.high) (r.high) (omega arith)) refl

-- A range ends where the next begins, as the ranges of DWARF do not hold their ends: if a range of a
-- subprogram is not empty and ends where one of the subprogram after it begins, and no range before
-- holds the offset, or ends at it, then `Locations` takes this offset, the first of the
-- later subprogram, to be in the earlier one.
pub covering-adjacent :
    (before : List SubprogramRange) (one next : SubprogramRange) (rest : List SubprogramRange)
    → All (λ (sr : SubprogramRange). in_range (next.range.low) (sr.range) ≡ false) before
    → one.range.low < one.range.high
    → one.range.high ≡ next.range.low
    → covering (next.range.low) (before ++ (one ∷ (next ∷ rest))) ≡ some (one.subprogram)
covering-adjacent [] one next rest b l e =
    covering_step (next.range.low) one (next ∷ rest)
      (subst (λ (n : ℕ). in_range n (one.range) ≡ true) e (in_range_end (one.range) (omega arith)))
covering-adjacent (sr ∷ before) one next rest b l e =
    covering_skip (next.range.low) sr (before ++ (one ∷ (next ∷ rest))) b.0
    ∙ covering-adjacent before one next rest b.1 l e
