-- ===== src/Dwarf/Parse.antt =====
-- `Parse` on the entries of compile units that are trees.
use Prim.Native.String.{String}
use wzprof.Base.{
  ℕ, zero, suc, ◌+◌, ◌<◌, ◌≤◌, ◌≡◌, refl, sym, ap, ◌∙◌, List, [], ◌∷◌, ◌++◌, append-nil,
  append_assoc, Bool, true, false, Option, length, Outcome, ok, arith,
}
use wzprof.Dwarf.{
  Tag, null, compile_unit, subprogram, namespace, inlined_subroutine, variable, other, Entry, Range,
  EntryRanges, SubprogramRange, DwarfParser, is_null, read_inlines, ranges_found, parse_subprogram,
  enter_namespace, parse_entry, parse_any,
}
use wzprof.Dwarf.Forest.{
  Tree, leaf, branch, Forest, nil, cons, null_entry, root, is_namespace, put_tree, put_forest,
  size_tree, size_forest, IsTree, IsForest, inlined, found_at, found_among, children_of, width,
  inlines_loop-forest,
}

abbrev pub at : List Entry → List SubprogramRange → DwarfParser
at reader subprograms = record { reader = reader; subprograms = subprograms }

mutual
  pub size-le-length_tree :
      (t : Tree) (rest : List Entry) → size_tree t + length rest ≤ length (put_tree t rest)
  size-le-length_tree (leaf e) rest = omega arith
  size-le-length_tree (branch e f) rest = omega (arith, size-le-length f rest)

  pub size-le-length :
      (f : Forest) (rest : List Entry) → size_forest f + length rest ≤ length (put_forest f rest)
  size-le-length nil rest = omega arith
  size-le-length (cons t f) rest =
      omega (arith, size-le-length_tree t (put_forest f rest), size-le-length f rest)

pub size_tree_pos : (t : Tree) → 0 < size_tree t
size_tree_pos (leaf e) = omega arith
size_tree_pos (branch e f) = omega arith

size_forest_pos : (f : Forest) → 0 < size_forest f
size_forest_pos nil = omega arith
size_forest_pos (cons t f) = omega (arith, size_tree_pos t)

no_space : {b : Bool} → b ≡ true → b ≡ false → ⊥
no_space h k = cc

width-le-size : (f : Forest) → width f ≤ size_forest f
width-le-size nil = omega arith
width-le-size (cons t f) = omega (arith, width-le-size f, size_tree_pos t)

module _ (ranges_of : Entry → Option (List Range)) where
  abbrev inlines_of : Tree → List EntryRanges
  inlines_of (leaf e) = []
  inlines_of (branch e f) = inlined ranges_of f

  read_inlines-tree :
      (t : Tree) (rest : List Entry)
      → IsTree t
      → read_inlines ranges_of (root t) (children_of t rest) ≡ ok (inlines_of t, rest)
  unfolding read_inlines
  read_inlines-tree (leaf e) rest w = rw (w.0) refl
  read_inlines-tree (branch e f) rest w = rw (w.0) (
      inlines_loop-forest ranges_of f (suc (length (put_forest f rest))) rest [] w.2
        (omega (arith, width-le-size f, size-le-length f rest)))

  parse_subprogram-tree :
      (t : Tree) (cu : Entry) (ns : String) (rest : List Entry) (subs : List SubprogramRange)
      → IsTree t
      → parse_subprogram ranges_of cu ns (root t) (at (children_of t rest) subs)
        ≡ ok (at rest (subs ++ ranges_found ranges_of cu ns (root t) (inlines_of t)))
  unfolding parse_subprogram
  parse_subprogram-tree t cu ns rest subs w = rw (read_inlines-tree t rest w) refl

  module _ (cu : Entry) (ns : String) (e : Entry)
      (inner : String → Bool → DwarfParser → Outcome DwarfParser)
      (again : DwarfParser → Outcome DwarfParser) (start reader rest : List Entry)
      (subs more : List SubprogramRange) (calls : List EntryRanges)
      (below : String → List SubprogramRange)
      (reads : parse_subprogram ranges_of cu ns e (at start subs)
        ≡ ok (at reader (subs ++ ranges_found ranges_of cu ns e calls)))
      (goes_in : inner ns e.children (at start subs) ≡ ok (at reader (subs ++ below ns)))
      (goes_on : (found : List SubprogramRange)
        → again (at reader found) ≡ ok (at rest (found ++ more))) where
    then_more :
        (found : List SubprogramRange)
        → again (at reader (subs ++ found)) ≡ ok (at rest (subs ++ (found ++ more)))
    then_more found =
        goes_on (subs ++ found)
        ∙ ap (λ (s : List SubprogramRange). ok (at rest s)) (append_assoc subs found more)

    parse_entry_found :
        (tag : Tag)
        → is_null tag ≡ false
        → (is_namespace tag ≡ true
            → inner (enter_namespace ns e) cu.children (at start subs)
              ≡ ok (at reader (subs ++ below (enter_namespace ns e))))
        → parse_entry ranges_of tag cu ns e inner again (at start subs)
          ≡ ok (at rest (subs ++ (found_at ranges_of tag cu ns e calls below ++ more)))
    unfolding parse_entry
    parse_entry_found null n space = cc
    parse_entry_found subprogram n space =
        rw reads (then_more (ranges_found ranges_of cu ns e calls))
    parse_entry_found namespace n space = rw (space refl) (then_more (below (enter_namespace ns e)))
    parse_entry_found compile_unit n space = rw goes_in (then_more (below ns))
    parse_entry_found inlined_subroutine n space = rw goes_in (then_more (below ns))
    parse_entry_found variable n space = rw goes_in (then_more (below ns))
    parse_entry_found (other k) n space = rw goes_in (then_more (below ns))

  module _ (cu : Entry) where
    pub parse_any_alone :
        (fuel : ℕ) (ns : String) (d : DwarfParser)
        → parse_any ranges_of (suc fuel) cu ns false d ≡ ok d
    unfolding parse_any
    parse_any_alone fuel ns d = refl

    parse_any_end :
        (fuel : ℕ) (ns : String) (rest : List Entry) (subs : List SubprogramRange)
        → parse_any ranges_of (suc fuel) cu ns true (at (null_entry ∷ rest) subs)
          ≡ ok (at rest subs)
    unfolding parse_any parse_entry
    parse_any_end fuel ns rest subs = refl

    parse_any_step :
        (fuel : ℕ) (ns : String) (e : Entry) (reader : List Entry) (subs : List SubprogramRange)
        → parse_any ranges_of (suc fuel) cu ns true (at (e ∷ reader) subs)
          ≡ parse_entry ranges_of e.tag cu ns e
              (parse_any ranges_of fuel cu)
              (parse_any ranges_of fuel cu ns true)
              (at reader subs)
    unfolding parse_any
    parse_any_step fuel ns e reader subs = refl

    abbrev ParsesTo :
        ℕ
        → String
        → Bool
        → List Entry
        → List Entry
        → List SubprogramRange
        → List SubprogramRange
        → Type 0
    ParsesTo fuel ns children start rest subs found =
        parse_any ranges_of fuel cu ns children (at start subs) ≡ ok (at rest (subs ++ found))

    ParsesTo-alone :
        (fuel : ℕ) (ns : String) (rest : List Entry) (subs : List SubprogramRange)
        → 0 < fuel
        → ParsesTo fuel ns false rest rest subs []
    ParsesTo-alone zero ns rest subs h = absurd (omega arith)
    ParsesTo-alone (suc fuel) ns rest subs h =
        parse_any_alone fuel ns (at rest subs)
        ∙ ap (λ (s : List SubprogramRange). ok (at rest s)) (sym (append-nil subs))

    under_unit :
        (fuel : ℕ) (ns : String) (reader : List Entry) (subs : List SubprogramRange)
        → cu.children ≡ true
        → parse_any ranges_of fuel cu ns cu.children (at reader subs)
          ≡ parse_any ranges_of fuel cu ns true (at reader subs)
    under_unit fuel ns reader subs c =
        ap (λ (b : Bool). parse_any ranges_of fuel cu ns b (at reader subs)) c

    pub parse_any-forest :
        (fuel : ℕ) (ns : String) (f : Forest) (rest : List Entry) (subs : List SubprogramRange)
        → cu.children ≡ true
        → IsForest f
        → size_forest f ≤ fuel
        → ParsesTo fuel ns true (put_forest f rest) rest subs (found_among ranges_of cu ns f)
    parse_any-forest zero ns nil rest subs c w l = absurd (omega arith)
    parse_any-forest zero ns (cons t f) rest subs c w l = absurd (omega (arith, size_tree_pos t))
    parse_any-forest (suc fuel) ns nil rest subs c w l =
        parse_any_end fuel ns rest subs
        ∙ ap (λ (s : List SubprogramRange). ok (at rest s)) (sym (append-nil subs))
    parse_any-forest (suc fuel) ns (cons (leaf e) f) rest subs c w l =
        parse_any_step fuel ns e (put_forest f rest) subs
        ∙ parse_entry_found cu ns e (parse_any ranges_of fuel cu)
            (parse_any ranges_of fuel cu ns true) (put_forest f rest) (put_forest f rest) rest subs
            (found_among ranges_of cu ns f) [] (λ ns. [])
            (parse_subprogram-tree (leaf e) cu ns (put_forest f rest) subs w.0)
            (rw (w.0.0)
              (ParsesTo-alone fuel ns (put_forest f rest) subs (omega (arith, size_forest_pos f))))
            (λ found. parse_any-forest fuel ns f rest found c w.1 (omega arith)) (e.tag) (w.0.1)
            (λ s. absurd (no_space s (w.0.2)))
    parse_any-forest (suc fuel) ns (cons (branch e g) f) rest subs c w l =
        parse_any_step fuel ns e (put_forest g (put_forest f rest)) subs
        ∙ parse_entry_found cu ns e (parse_any ranges_of fuel cu)
            (parse_any ranges_of fuel cu ns true) (put_forest g (put_forest f rest))
            (put_forest f rest) rest subs (found_among ranges_of cu ns f) (inlined ranges_of g)
            (λ ns. found_among ranges_of cu ns g)
            (parse_subprogram-tree (branch e g) cu ns (put_forest f rest) subs w.0)
            (rw (w.0.0) (parse_any-forest fuel ns g (put_forest f rest) subs c w.0.2 (omega arith)))
            (λ found. parse_any-forest fuel ns f rest found c w.1 (omega arith)) (e.tag) (w.0.1)
            (λ s.
              under_unit fuel (enter_namespace ns e) (put_forest g (put_forest f rest)) subs c
              ∙ parse_any-forest fuel (enter_namespace ns e) g (put_forest f rest) subs c w.0.2
                  (omega arith))
