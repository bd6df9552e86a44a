-- ===== src/Dwarf/Forest.antt =====
-- DWARF entries as trees, and the subprograms that `Parse` finds in them.
use Prim.Native.String.{String}
use wzprof.Base.{
  ℕ, zero, suc, ◌+◌, ◌<◌, ◌≡◌, refl, sym, ap, ◌∙◌, List, [], ◌∷◌, ◌++◌, append-nil, append_assoc,
  Bool, true, false, Option, none, ok, arith,
}
use wzprof.Dwarf.{
  Tag, null, subprogram, namespace, Entry, Range, EntryRanges, SubprogramRange, is_null, skip_lists,
  skip_children, inline_of, inlines_loop, ranges_found, enter_namespace,
}

-- An entry alone, or with its children.
mutual
  pub data Tree : Type 0 where
    leaf : Entry → Tree
    branch : Entry → Forest → Tree

  pub data Forest : Type 0 where
    nil : Forest
    cons : Tree → Forest → Forest

-- The entry that ends a list of children.
abbrev pub null_entry : Entry
null_entry = record {
  offset = 0;
  tag = null;
  children = false;
  name = none;
  linkage_name = none;
  abstract_origin = none;
  call_file = none;
  call_line = none;
  call_column = none;
}

abbrev pub root : Tree → Entry
root (leaf e) = e
root (branch e f) = e

abbrev pub is_namespace : Tag → Bool
is_namespace namespace = true
is_namespace tag = false

-- The entries in the order of the section, in front of what follows.
abbrev mutual
  pub put_tree : Tree → List Entry → List Entry
  put_tree (leaf e) rest = e ∷ rest
  put_tree (branch e f) rest = e ∷ put_forest f rest

  pub put_forest : Forest → List Entry → List Entry
  put_forest nil rest = null_entry ∷ rest
  put_forest (cons t f) rest = put_tree t (put_forest f rest)

abbrev mutual
  pub size_tree : Tree → ℕ
  size_tree (leaf e) = 1
  size_tree (branch e f) = suc (size_forest f)

  pub size_forest : Forest → ℕ
  size_forest nil = 1
  size_forest (cons t f) = size_tree t + size_forest f

-- The flag tells whether an entry has children, the tag 0 is that of the end of a list alone, and a
-- namespace has children.
abbrev mutual
  pub IsTree : Tree → Type 0
  IsTree (leaf e) = (e.children ≡ false) × (is_null e.tag ≡ false) × (is_namespace e.tag ≡ false)
  IsTree (branch e f) = (e.children ≡ true) × (is_null e.tag ≡ false) × IsForest f

  pub IsForest : Forest → Type 0
  IsForest nil = Unit {0}
  IsForest (cons t f) = IsTree t × IsForest f

module _ (ranges_of : Entry → Option (List Range)) where
  -- The inlined calls among the children.
  abbrev pub inlined : Forest → List EntryRanges
  inlined nil = []
  inlined (cons t f) = inline_of ranges_of (root t) ++ inlined f

  -- What one entry gives, when `below` is what its children give under a namespace.
  abbrev pub found_at :
      Tag
      → Entry
      → String
      → Entry
      → List EntryRanges
      → (String → List SubprogramRange)
      → List SubprogramRange
  found_at subprogram cu ns e inlines below = ranges_found ranges_of cu ns e inlines
  found_at namespace cu ns e inlines below = below (enter_namespace ns e)
  found_at tag cu ns e inlines below = below ns

  abbrev mutual
    pub found_in : Entry → String → Tree → List SubprogramRange
    found_in cu ns (leaf e) = found_at e.tag cu ns e [] (λ ns. [])
    found_in cu ns (branch e f) = found_at e.tag cu ns e (inlined f) (λ ns. found_among cu ns f)

    pub found_among : Entry → String → Forest → List SubprogramRange
    found_among cu ns nil = []
    found_among cu ns (cons t f) = found_in cu ns t ++ found_among cu ns f

skip_leaf :
    (e : Entry) (d : ℕ) (rest : List Entry)
    → IsTree (leaf e)
    → skip_lists (suc d) (e ∷ rest) ≡ skip_lists (suc d) rest
unfolding skip_lists
skip_leaf e d rest (c, n, s) = rw (n, c, skip_lists) refl

skip_branch :
    (e : Entry) (f : Forest) (d : ℕ) (rest : List Entry)
    → IsTree (branch e f)
    → skip_lists (suc d) (e ∷ rest) ≡ skip_lists (suc (suc d)) rest
unfolding skip_lists
skip_branch e f d rest (c, n, w) = rw (n, c, skip_lists) refl

skip_end : (d : ℕ) (rest : List Entry) → skip_lists (suc d) (null_entry ∷ rest) ≡ skip_lists d rest
unfolding skip_lists
skip_end d rest = ap (λ (k : ℕ). skip_lists k rest) (omega arith)

mutual
  skip_lists-tree :
      (t : Tree) (d : ℕ) (rest : List Entry)
      → IsTree t
      → skip_lists (suc d) (put_tree t rest) ≡ skip_lists (suc d) rest
  skip_lists-tree (leaf e) d rest w = skip_leaf e d rest w
  skip_lists-tree (branch e f) d rest w =
      skip_branch e f d (put_forest f rest) w ∙ skip_lists-forest f (suc d) rest w.2

  skip_lists-forest :
      (f : Forest) (d : ℕ) (rest : List Entry)
      → IsForest f
      → skip_lists (suc d) (put_forest f rest) ≡ skip_lists d rest
  skip_lists-forest nil d rest w = skip_end d rest
  skip_lists-forest (cons t f) d rest w =
      skip_lists-tree t d (put_forest f rest) w.0 ∙ skip_lists-forest f d rest w.1

-- After an entry, its children are skipped as a whole.
abbrev pub children_of : Tree → List Entry → List Entry
children_of (leaf e) rest = rest
children_of (branch e f) rest = put_forest f rest

pub skip_children-tree :
    (t : Tree) (rest : List Entry) → IsTree t → skip_children (root t) (children_of t rest) ≡ rest
unfolding skip_children
skip_children-tree (leaf e) rest w = rw w.0 refl
skip_children-tree (branch e f) rest w = rw w.0 (skip_lists-forest f 0 rest w.2)

pub put_tree-root : (t : Tree) (rest : List Entry) → put_tree t rest ≡ root t ∷ children_of t rest
put_tree-root (leaf e) rest = refl
put_tree-root (branch e f) rest = refl

root_not_null : (t : Tree) → IsTree t → is_null (root t).tag ≡ false
root_not_null (leaf e) w = w.1
root_not_null (branch e f) w = w.1

abbrev pub width : Forest → ℕ
width nil = 0
width (cons t f) = suc (width f)

module _ (ranges_of : Entry → Option (List Range)) where
  inlines_loop_step :
      (fuel : ℕ) (e : Entry) (reader : List Entry) (acc : List EntryRanges)
      → is_null e.tag ≡ false
      → inlines_loop ranges_of (suc fuel) (e ∷ reader) acc
        ≡ inlines_loop ranges_of fuel (skip_children e reader) (acc ++ inline_of ranges_of e)
  unfolding inlines_loop
  inlines_loop_step fuel e reader acc n = rw (n, inlines_loop) refl

  inlines_loop_end :
      (fuel : ℕ) (reader : List Entry) (acc : List EntryRanges)
      → inlines_loop ranges_of (suc fuel) (null_entry ∷ reader) acc ≡ ok (acc, reader)
  unfolding inlines_loop
  inlines_loop_end fuel reader acc = refl

  pub inlines_loop-forest :
      (f : Forest) (fuel : ℕ) (rest : List Entry) (acc : List EntryRanges)
      → IsForest f
      → width f < fuel
      → inlines_loop ranges_of fuel (put_forest f rest) acc ≡ ok (acc ++ inlined ranges_of f, rest)
  inlines_loop-forest f zero rest acc w l = absurd (omega arith)
  inlines_loop-forest nil (suc fuel) rest acc w l =
      inlines_loop_end fuel rest acc
      ∙ ap (λ (xs : List EntryRanges). ok (xs, rest)) (sym (append-nil acc))
  inlines_loop-forest (cons t f) (suc fuel) rest acc w l =
      rw
        (
          put_tree-root t (put_forest f rest),
          inlines_loop_step fuel (root t) (children_of t (put_forest f rest)) acc
              (root_not_null t w.0),
          skip_children-tree t (put_forest f rest) w.0,
        )
        (inlines_loop-forest f fuel rest (acc ++ inline_of ranges_of (root t)) w.1 (omega arith)
          ∙ ap (λ (xs : List EntryRanges). ok (xs, rest))
              (append_assoc acc (inline_of ranges_of (root t)) (inlined ranges_of f)))
