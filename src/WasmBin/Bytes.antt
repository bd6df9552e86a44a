-- ===== src/WasmBin/Bytes.antt =====
-- When two byte strings are the same.
use wzprof.Base.{
  ℕ, ◌≡◌, ◌≢◌, refl, sym, subst, ◌∙◌, List, [], ◌∷◌, true, false, ◌==◌, ==_refl, ==→eq, Bool-cases,
  inl, inr,
}
use wzprof.WasmBin.{bytes_eq}

pub bytes_eq→eq : (xs ys : List ℕ) → bytes_eq xs ys ≡ true → xs ≡ ys
unfolding bytes_eq
bytes_eq→eq [] [] h = refl
bytes_eq→eq [] (y ∷ ys) h = cc
bytes_eq→eq (x ∷ xs) [] h = cc
bytes_eq→eq (x ∷ xs) (y ∷ ys) h = elim (Bool-cases (x == y)) [
  | inl e ↦ cc (==→eq x y e, bytes_eq→eq xs ys (rw e at h))
  | inr e ↦ let f : false ≡ true = rw e at h in cc
]

pub bytes_eq_refl : (xs : List ℕ) → bytes_eq xs xs ≡ true
unfolding bytes_eq
bytes_eq_refl [] = refl
bytes_eq_refl (x ∷ xs) = rw (==_refl x) (bytes_eq_refl xs)

pub bytes_eq→ne : (xs ys : List ℕ) → bytes_eq xs ys ≡ false → xs ≢ ys
bytes_eq→ne xs ys h e =
    let f : true ≡ false =
      sym (bytes_eq_refl xs) ∙ subst (λ (zs : List ℕ). bytes_eq xs zs ≡ false) (sym e) h in
    cc
