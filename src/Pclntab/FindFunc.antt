-- ===== src/Pclntab/FindFunc.antt =====
-- The search of the function table in `FindFunc`.
use wzprof.Base.{
  ℕ, zero, suc, ◌+◌, ◌-◌, ◌^◌, ◌<◌, ◌≤◌, ◌≡◌, refl, sym, ap, ◌∙◌, ◌≢◌, List, [], ◌∷◌, some, leb,
  leb→le, leb→gt, Bool-cases, inl, inr, length, get_elem?, ok, arith,
}
use wzprof.Base.Words.{add32}
use wzprof.Pclntab.{Functab, scan_ftab}

-- Row `i` is there, and its function starts at `e`.
abbrev pub Starts : List Functab → ℕ → ℕ → Type 0
Starts ftab i e = (row : Functab) × (get_elem? ftab i ≡ some row) × (row.entryoff ≡ e)

get_elem?-in :
    (ftab : List Functab) (i : ℕ)
    → i < length ftab
    → (row : Functab) × (get_elem? ftab i ≡ some row)
get_elem?-in [] i h = absurd (omega arith)
get_elem?-in (r ∷ rs) zero h = (r, refl)
get_elem?-in (r ∷ rs) (suc i) h = get_elem?-in rs i (omega arith)

in-get_elem? :
    (ftab : List Functab) (i : ℕ) (row : Functab) → get_elem? ftab i ≡ some row → i < length ftab
in-get_elem? [] i row e = cc
in-get_elem? (r ∷ rs) zero row e = omega arith
in-get_elem? (r ∷ rs) (suc i) row e = omega (arith, in-get_elem? rs i row e)

some_eq : (r q : Functab) → some r ≡ some q → r ≡ q
some_eq r q e = cc

same_row : (ftab : List Functab) (i j e f : ℕ) → i ≡ j → Starts ftab i e → Starts ftab j f → e ≡ f
same_row ftab i j e f p (r, ri, re) (q, qj, qf) =
    let both : some r ≡ some q = sym ri ∙ ap (get_elem? ftab) p ∙ qj in
    sym re ∙ ap (λ (x : Functab). x.entryoff) (some_eq r q both) ∙ qf

-- What the search finds: a row at or after the first whose function starts at the offset or before
-- it, and whose successor starts after it.
abbrev pub Found : List Functab → ℕ → ℕ → ℕ → Type 0
Found ftab pc_off idx j =
    (idx ≤ j)
    × ((e : ℕ) × Starts ftab j e × (e ≤ pc_off))
    × ((e : ℕ) × Starts ftab (j + 1) e × (pc_off < e))

module _ (ftab : List Functab) (pc_off : ℕ) (small : length ftab < 2 ^ 32) where
  scan_from :
      (gap fuel idx e last top : ℕ)
      → idx + gap ≡ last
      → gap < fuel
      → Starts ftab idx e
      → e ≤ pc_off
      → Starts ftab last top
      → pc_off < top
      → (j : ℕ) × (scan_ftab fuel ftab pc_off idx ≡ ok j) × Found ftab pc_off idx j
  unfolding scan_ftab
  scan_from gap zero idx e last top g h s le t above = absurd (omega arith)
  scan_from gap (suc fuel) idx e last top g h s le t above =
      let differ = apart in
      let within = in-get_elem? ftab last t.0 t.1 in
      let (row, there) = get_elem?-in ftab (idx + 1) (omega arith) in
      let next : add32 idx 1 ≡ idx + 1 = omega arith in
      rw (next, there)
        (elim (Bool-cases (leb row.entryoff pc_off)) [
          | inl b ↦
              let (j, ran, found) =
                scan_from (gap - 1) fuel (idx + 1) row.entryoff last top (omega arith) (omega arith)
                  (row, there, refl) (leb→le row.entryoff pc_off b) t above in
              rw b (j, ran, (omega (arith, found.0), found.1, found.2))
          | inr b ↦ rw b (
            idx,
            refl,
            (
              omega arith,
              (e, s, le),
              (row.entryoff, (row, there, refl), leb→gt row.entryoff pc_off b),
            ),
          )
        ])
    where
      apart : idx ≢ last
      apart p = absurd (omega (arith, same_row ftab idx last e top p s t))

-- From a row whose function starts at the offset or before it, the search ends at the last such row
-- before one that starts after it: a row that starts after the offset must follow, as the table's
-- last row does. The table has less than 2 ^ 32 rows.
pub scan_ftab_finds :
    (ftab : List Functab) (pc_off idx e last top : ℕ)
    → length ftab < 2 ^ 32
    → Starts ftab idx e
    → e ≤ pc_off
    → idx ≤ last
    → Starts ftab last top
    → pc_off < top
    → (j : ℕ) × (scan_ftab (suc (length ftab)) ftab pc_off idx ≡ ok j) × Found ftab pc_off idx j
scan_ftab_finds ftab pc_off idx e last top small s le before t above =
    scan_from ftab pc_off small (last - idx) (suc (length ftab)) idx e last top (omega arith)
      (omega (arith, in-get_elem? ftab last t.0 t.1)) s le t above
