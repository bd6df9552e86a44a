-- ===== src/Python/Names/Files.antt =====
-- The names that `functionName` gives to the functions of a file, and of a frozen module.
use wzprof.Base.{
  ℕ, ◌-◌, ◌≡◌, ◌≢◌, refl, sym, ap, subst, ◌∙◌, List, [], ◌∷◌, ◌++◌, append_assoc, reverse, Bool,
  true, false, ◌||◌, ◌==◌, Bool-cases, inl, inr, length, Option, none, some, length-append,
  take-append_length, take, ok, panic, arith,
}
use mathlib.Core.List.{reverse-append, reverse-reverse}
use wzprof.WasmBin.Sections.{middle}
use wzprof.Pclntab.Scan.{is_prefix}
use wzprof.Python.Names.{
  frozen_prefix, init_file, slash, dot, has_byte, drop_slashes, last_element, base, ext, in_module,
  module_of, function_name,
}

-- The suffix `.py`.
abbrev pub py : List ℕ
py = dot ∷ 112 ∷ 121 ∷ []

has_slash : (d file : List ℕ) → has_byte slash (d ++ (slash ∷ file)) ≡ true
has_slash [] file = refl
has_slash (c ∷ d) file = elim (Bool-cases (c == slash)) [
  | inl h ↦ simp (h)
  | inr h ↦ simp (h, has_slash d file)
]

has_dot : (stem : List ℕ) → has_byte dot (stem ++ py) ≡ true
has_dot [] = refl
has_dot (c ∷ stem) = elim (Bool-cases (c == dot)) [
  | inl h ↦ simp (h)
  | inr h ↦ simp (h, has_dot stem)
]

last_element-file :
    (d file : List ℕ) → has_byte slash file ≡ false → last_element (d ++ (slash ∷ file)) ≡ file
last_element-file [] file h = rw (h) refl
last_element-file (c ∷ d) file h = rw (has_slash d file) (last_element-file d file h)

ext-py : (stem : List ℕ) → ext (stem ++ py) ≡ py
unfolding ext
ext-py [] = refl
ext-py (c ∷ stem) = elim (Bool-cases (c == dot)) [
  | inl h ↦ simp (h, has_dot stem, ext-py stem)
  | inr h ↦ simp (h, ext-py stem)
]

module_of-py : (stem : List ℕ) → module_of (stem ++ py) ≡ stem
unfolding module_of
module_of-py stem = rw (ext-py stem) (
    ap (λ (n : ℕ). take n (stem ++ py)) (omega (arith, length-append stem py))
    ∙ take-append_length stem py)

has_byte-append : (x : ℕ) (a b : List ℕ) → has_byte x (a ++ b) ≡ has_byte x a || has_byte x b
has_byte-append x [] b = refl
has_byte-append x (c ∷ a) b = elim (Bool-cases (c == x)) [
  | inl h ↦ simp (h)
  | inr h ↦ simp (h, has_byte-append x a b)
]

no_slash-py : (stem : List ℕ) → has_byte slash stem ≡ false → has_byte slash (stem ++ py) ≡ false
no_slash-py stem h = has_byte-append slash stem py ∙ ap (λ (b : Bool). b || false) h

-- A path that ends in `.py` loses no slash.
drop_slashes-py : (front : List ℕ) → reverse (drop_slashes (reverse (front ++ py))) ≡ front ++ py
drop_slashes-py front =
    rw (reverse-append front py)
      (sym (ap reverse (reverse-append front py)) ∙ reverse-reverse (front ++ py))

append_ne : (d : List ℕ) (c : ℕ) (cs : List ℕ) → d ++ (c ∷ cs) ≢ []
append_ne [] c cs h = cc
append_ne (x ∷ d) c cs h = cc

base-eq :
    (path : List ℕ)
    → path ≢ []
    → reverse (drop_slashes (reverse path)) ≡ path
    → base path ≡ last_element path
unfolding base
base-eq [] h e = absurd (h refl)
base-eq (c ∷ cs) h e = rw (e) refl

-- The path of a file, in a directory or by its name alone.
abbrev pub in_dir : Option (List ℕ) → List ℕ → List ℕ
in_dir none file = file
in_dir (some d) file = d ++ (slash ∷ file)

last_element-name : (file : List ℕ) → has_byte slash file ≡ false → last_element file ≡ file
last_element-name [] h = refl
last_element-name (c ∷ cs) h = elim (Bool-cases (c == slash)) [
  | inl e ↦ absurd (slash_first (rw (e) at h))
  | inr e ↦ named e (rw (e) at h)
]
  where
    slash_first : true ≡ false → ⊥
    slash_first h = cc

    named : (c == slash) ≡ false → has_byte slash cs ≡ false → last_element (c ∷ cs) ≡ c ∷ cs
    named e g = rw (e, g) refl

base-py :
    (dir : Option (List ℕ)) (stem : List ℕ)
    → has_byte slash stem ≡ false
    → base (in_dir dir (stem ++ py)) ≡ stem ++ py
base-py none stem h =
    base-eq (stem ++ py) (append_ne stem dot (112 ∷ 121 ∷ [])) (drop_slashes-py stem)
    ∙ last_element-name (stem ++ py) (no_slash-py stem h)
base-py (some d) stem h =
    base-eq (d ++ (slash ∷ (stem ++ py))) (append_ne d slash (stem ++ py)) (
      subst (λ (p : List ℕ). reverse (drop_slashes (reverse p)) ≡ p)
        (append_assoc d (slash ∷ stem) py) (drop_slashes-py (d ++ (slash ∷ stem))))
    ∙ last_element-file d (stem ++ py) (no_slash-py stem h)

-- In a path, of a directory or the file's name alone, that does not begin as that of a frozen
-- module and the last element of which ends in `.py` and is not `__init__.py`, nor ends so, a
-- function is named after the element without `.py`: the module's name alone for the code of the
-- module, and with the function's name behind a dot for another.
pub function_name-file :
    (dir : List ℕ → List ℕ) (d : Option (List ℕ)) (stem function : List ℕ)
    → has_byte slash stem ≡ false
    → is_prefix frozen_prefix (in_dir d (stem ++ py)) ≡ false
    → is_prefix (reverse init_file) (reverse (in_dir d (stem ++ py))) ≡ false
    → function_name dir (in_dir d (stem ++ py)) function ≡ ok (in_module stem function)
unfolding function_name
function_name-file dir d stem function s f i = rw (f, i, base-py d stem s, module_of-py stem) refl

-- A path that is `<frozen `, a name and one byte gives the name, as that of the module, whatever the
-- name. The path `<frozen ` alone makes `functionName` panic.
pub function_name-frozen :
    (dir : List ℕ → List ℕ) (m function : List ℕ) (last : ℕ)
    → (function_name dir (frozen_prefix ++ (m ++ (last ∷ []))) function ≡ ok (in_module m function))
      × (function_name dir frozen_prefix function ≡ panic)
unfolding function_name is_prefix
function_name-frozen dir m function last = (
  rw
      (middle frozen_prefix m (last ∷ []) (length (frozen_prefix ++ (m ++ (last ∷ []))) - 1)
        (omega (arith, length-append m (last ∷ []))))
      refl,
  refl,
)
