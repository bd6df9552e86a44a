-- ===== src/Dwarf/Units.antt =====
-- `Parse` on a section of compile units.
use wzprof.Base.{
  ℕ, zero, suc, ◌<◌, ◌≤◌, ◌≡◌, refl, sym, ap, ◌∙◌, List, [], ◌∷◌, ◌++◌, append-nil, append_assoc,
  Bool, true, false, Option, length, Outcome, ok, ◌>>=◌, arith, Bool-cases, if◌then◌else◌, inl, inr,
}
use wzprof.Dwarf.{
  Entry, Range, SubprogramRange, DwarfParser, is_compile_unit, skip_children, parse_any,
  parse_units, parse,
}
use wzprof.Dwarf.Forest.{
  Tree, leaf, branch, root, put_tree, put_forest, IsTree, found_among, children_of, put_tree-root,
  skip_children-tree,
}
use wzprof.Dwarf.Parse.{
  at, size-le-length_tree, size-le-length, size_tree_pos, parse_any-forest, parse_any_alone,
}

-- The entries of a section, in order.
abbrev pub put_trees : List Tree → List Entry
put_trees [] = []
put_trees (t ∷ ts) = put_tree t (put_trees ts)

abbrev pub AreTrees : List Tree → Type 0
AreTrees [] = Unit {0}
AreTrees (t ∷ ts) = IsTree t × AreTrees ts

trees-le-length : (ts : List Tree) → length ts ≤ length (put_trees ts)
trees-le-length [] = omega arith
trees-le-length (t ∷ ts) =
    omega (arith, trees-le-length ts, size-le-length_tree t (put_trees ts), size_tree_pos t)

module _ (ranges_of : Entry → Option (List Range)) where
  -- What a compile unit gives; another entry at the top gives nothing.
  abbrev pub found_unit : Tree → List SubprogramRange
  found_unit (leaf e) = []
  found_unit (branch e f) = if is_compile_unit e.tag then found_among ranges_of e "" f else []

  abbrev pub found_units : List Tree → List SubprogramRange
  found_units [] = []
  found_units (t ∷ ts) = found_unit t ++ found_units ts

  unit_step :
      (fuel : ℕ) (e : Entry) (reader : List Entry) (subs : List SubprogramRange)
      → is_compile_unit e.tag ≡ true
      → parse_units ranges_of (suc fuel) (at (e ∷ reader) subs) ≡ (
          parse_any ranges_of (suc (length reader)) e "" e.children (at reader subs)
          >>= parse_units ranges_of fuel)
  unfolding parse_units
  unit_step fuel e reader subs h = rw (h, parse_units) refl

  skip_step :
      (fuel : ℕ) (e : Entry) (reader : List Entry) (subs : List SubprogramRange)
      → is_compile_unit e.tag ≡ false
      → parse_units ranges_of (suc fuel) (at (e ∷ reader) subs)
        ≡ parse_units ranges_of fuel (at (skip_children e reader) subs)
  unfolding parse_units
  skip_step fuel e reader subs h = rw (h, parse_units) refl

  parse_units_end :
      (fuel : ℕ) (subs : List SubprogramRange)
      → parse_units ranges_of (suc fuel) (at [] subs) ≡ ok (at [] subs)
  unfolding parse_units
  parse_units_end fuel subs = refl

  -- The children of a compile unit, by its own flag.
  unit_children :
      (t : Tree) (rest : List Entry) (subs : List SubprogramRange)
      → IsTree t
      → is_compile_unit (root t).tag ≡ true
      → parse_any ranges_of
          (suc (length (children_of t rest)))
          (root t)
          ""
          (root t).children
          (at (children_of t rest) subs)
        ≡ ok (at rest (subs ++ found_unit t))
  unit_children (leaf e) rest subs w h =
      ap (λ (b : Bool). parse_any ranges_of (suc (length rest)) e "" b (at rest subs)) (w.0)
      ∙ parse_any_alone ranges_of e (length rest) "" (at rest subs)
      ∙ ap (λ (s : List SubprogramRange). ok (at rest s)) (sym (append-nil subs))
  unit_children (branch e f) rest subs w h =
      ap
        (λ (b : Bool).
          parse_any ranges_of (suc (length (put_forest f rest))) e "" b
            (at (put_forest f rest) subs))
        (w.0)
      ∙ parse_any-forest ranges_of e (suc (length (put_forest f rest))) "" f rest subs (w.0) (w.2)
          (omega (arith, size-le-length f rest))
      ∙ ap (λ (b : Bool). ok (at rest (subs ++ (if b then found_among ranges_of e "" f else []))))
          (sym h)

  not_unit : (t : Tree) → is_compile_unit (root t).tag ≡ false → found_unit t ≡ []
  not_unit (leaf e) h = refl
  not_unit (branch e f) h = ap (λ (b : Bool). if b then found_among ranges_of e "" f else []) h

  parse_units-trees :
      (ts : List Tree) (fuel : ℕ) (subs : List SubprogramRange)
      → AreTrees ts
      → length ts < fuel
      → parse_units ranges_of fuel (at (put_trees ts) subs) ≡ ok (at [] (subs ++ found_units ts))
  parse_units-trees ts zero subs w l = absurd (omega arith)
  parse_units-trees [] (suc fuel) subs w l =
      parse_units_end fuel subs
      ∙ ap (λ (s : List SubprogramRange). ok (at [] s)) (sym (append-nil subs))
  parse_units-trees (t ∷ ts) (suc fuel) subs w l =
      ap (λ (es : List Entry). parse_units ranges_of (suc fuel) (at es subs))
        (put_tree-root t (put_trees ts))
      ∙ elim (Bool-cases (is_compile_unit (root t).tag)) [
        | inl h ↦
            unit_step fuel (root t) (children_of t (put_trees ts)) subs h
            ∙ ap (λ (o : Outcome DwarfParser). o >>= parse_units ranges_of fuel)
                (unit_children t (put_trees ts) subs w.0 h)
            ∙ parse_units-trees ts fuel (subs ++ found_unit t) w.1 (omega arith)
            ∙ ap (λ (s : List SubprogramRange). ok (at [] s))
                (append_assoc subs (found_unit t) (found_units ts))
        | inr h ↦
            skip_step fuel (root t) (children_of t (put_trees ts)) subs h
            ∙ ap (λ (es : List Entry). parse_units ranges_of fuel (at es subs))
                (skip_children-tree t (put_trees ts) w.0)
            ∙ parse_units-trees ts fuel subs w.1 (omega arith)
            ∙ ap (λ (found : List SubprogramRange). ok (at [] (subs ++ (found ++ found_units ts))))
                (sym (not_unit t h))
      ]

  -- If the entries are those of a list of trees, in order and with the entry that ends each list of
  -- children, where an entry has a child exactly where its flag says so, no other entry has the tag 0
  -- and a namespace has children, then `Parse` finds, for each compile unit in order, the ranges of
  -- the subprograms among its children and theirs, each under the names of the namespaces around it and
  -- with the inlined calls among its own children, and goes into no subprogram.
  pub parse-trees :
      (ts : List Tree) → AreTrees ts → parse ranges_of (put_trees ts) ≡ ok (found_units ts)
  unfolding parse
  parse-trees ts w =
      ap (λ (o : Outcome DwarfParser). o >>= (λ d. ok (d.subprograms)))
        (parse_units-trees ts (suc (length (put_trees ts))) [] w
          (omega (arith, trees-le-length ts)))
