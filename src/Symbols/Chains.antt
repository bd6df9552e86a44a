-- ===== src/Symbols/Chains.antt =====
-- The chain of inlined calls at a PC, and the locations that `Locations` makes of it.
use wzprof.Base.{
  ℕ, suc, ◌≡◌, refl, sym, ap, ◌∙◌, List, [], ◌∷◌, ◌++◌, reverse, append-nil, append_assoc, ◌&&◌,
  ◌==◌, if◌then◌else◌, Bool-cases, inl, inr, length, Outcome, ok, ◌>>=◌, >>=-eq-ok, ne→==, ◌≢◌,
}
use wzprof.Pclntab.{Moduledata, FuncInfo, Vmem, sym_pc}
use wzprof.Symbols.{
  InlineFrame, GoLocation, elide_wrapper_calling, func_id_wrapper, inline_next, src_func_id,
  location_at, locations_loop, new_inline_unwinder, locations,
}

-- A frame of the chain: the ID of its function, and its PC.
abbrev pub Logical : Type 0
Logical = ℕ × ℕ

-- The PCs of the frames that are kept: a wrapper is not, unless it calls a function that panics.
abbrev pub kept : List Logical → ℕ → List ℕ
kept [] callee = []
kept ((id, pc) ∷ frames) callee =
    if (id == func_id_wrapper) && elide_wrapper_calling callee
    then kept frames callee
    else pc ∷ kept frames id

same : (xs ys : List GoLocation) → ok xs ≡ ok ys → xs ≡ ys
same xs ys e = cc

module _ (mem : Vmem) (md : Moduledata) (funcinl_at : FuncInfo → Outcome (List ℕ × ℕ)) where
  -- The locations of some PCs.
  abbrev pub located : List ℕ → Outcome (List GoLocation)
  located [] = ok []
  located (pc ∷ pcs) =
      location_at mem md funcinl_at pc >>= (λ loc. located pcs >>= (λ locs. ok (loc ++ locs)))

  -- The frames from one on, up to the one after the outermost function, whose PC is 0.
  abbrev pub IsChain : FuncInfo → ℕ → InlineFrame → List Logical → Type 0
  IsChain f tree uf [] = uf.pc ≡ 0
  IsChain f tree uf ((id, pc) ∷ frames) =
      (uf.pc ≡ pc)
      × (pc ≢ 0)
      × (src_func_id mem md funcinl_at f tree uf ≡ ok id)
      × ((outer : InlineFrame) × (inline_next mem md funcinl_at f tree uf ≡ ok outer)
          × IsChain f tree outer frames)

  locations_loop-kept :
      (f : FuncInfo) (tree : ℕ) (frames : List Logical) (uf : InlineFrame) (callee : ℕ)
      (locs more : List GoLocation)
      → IsChain f tree uf frames
      → located (kept frames callee) ≡ ok more
      → locations_loop mem md funcinl_at (suc (length frames)) f tree uf callee locs
        ≡ ok (locs ++ more)
  unfolding locations_loop
  locations_loop-kept f tree [] uf callee locs more chain h =
      rw chain
        (ap ok (sym (append-nil locs) ∙ ap (λ (m : List GoLocation). locs ++ m) (same [] more h)))
  locations_loop-kept f tree ((id, pc) ∷ frames) uf callee locs more
        (at, some_pc, src, (outer, next, chain)) h =
      elim (Bool-cases ((id == func_id_wrapper) && elide_wrapper_calling callee)) [
        | inl e ↦
            rw (ne→== uf.pc 0 (λ z. some_pc (sym at ∙ z)), src, e, next)
              (locations_loop-kept f tree frames outer callee locs more chain (rw e at h))
        | inr e ↦
            let (loc, loc_eq, rest) = >>=-eq-ok (location_at mem md funcinl_at pc) _ (rw e at h) in
            let (after, after_eq, last) = >>=-eq-ok (located (kept frames id)) _ rest in
            let here : location_at mem md funcinl_at uf.pc ≡ ok loc =
              ap (location_at mem md funcinl_at) at ∙ loc_eq in
            rw (ne→== uf.pc 0 (λ z. some_pc (sym at ∙ z)), src, e, here, next)
              (locations_loop-kept f tree frames outer id (locs ++ loc) after chain after_eq
                ∙ ap ok (
                    append_assoc locs loc after
                    ∙ ap (λ (m : List GoLocation). locs ++ m) (same (loc ++ after) more last)))
      ]

  -- `Locations`, where the calls inlined at the PC form a chain that ends: the locations of the frames
  -- that are kept, the outermost first. Each PC of them has its location, and the fuel is more than
  -- the chain is long.
  pub locations_kept :
      (f : FuncInfo) (pc tree : ℕ) (frames : List Logical) (uf : InlineFrame)
      (found : List GoLocation)
      → new_inline_unwinder mem md funcinl_at f (sym_pc md f pc) ≡ ok (tree, uf)
      → IsChain f tree uf frames
      → located (kept frames 0) ≡ ok found
      → locations mem md funcinl_at (suc (length frames)) f pc ≡ ok (pc, reverse found)
  unfolding locations
  locations_kept f pc tree frames uf found start chain h =
      rw (start, locations_loop-kept f tree frames uf 0 [] found chain h) refl
