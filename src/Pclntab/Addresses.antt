-- ===== src/Pclntab/Addresses.antt =====
-- Conversions of addresses in pclntab.go: function ids, text offsets, and the PC to symbolize.
use wzprof.Base.{
  ℕ, ◌+◌, ◌-◌, ◌^◌, ◌<◌, ◌≤◌, ◌≡◌, ap, List, [], ◌∷◌, some, ltb, ge→ltb, Bool-cases, inl, inr,
  length, arith, ◌⊎◌,
}
use wzprof.Pclntab.{
  Textsect, Moduledata, text_off, text_addr, text_off_loop, text_addr_loop, pc_to_fid, fid_to_pc,
  FuncInfo, entry, sym_pc,
}

-- A function id read back from any PC of the function: a PC has the function in its upper 48 bits
-- and the block in its lower 16. The id is that of a function of the module, past the imported ones,
-- and the shifted number fits 48 bits.
pub pc_to_fid-fid_to_pc :
    (imported f block : ℕ)
    → imported ≤ f
    → f < 2 ^ 32
    → block < 2 ^ 16
    → pc_to_fid imported (fid_to_pc imported f + block) ≡ f
unfolding pc_to_fid fid_to_pc
pc_to_fid-fid_to_pc imported f block h small b = omega arith

-- `symPC` gives the call's PC inside the function, never one before its entry.
sym_pc_bounds :
    (md : Moduledata) (f : FuncInfo) (pc : ℕ)
    → entry md f ≤ pc
    → pc < 2 ^ 64
    → (entry md f ≤ sym_pc md f pc) × (sym_pc md f pc ≤ pc) × (pc ≤ sym_pc md f pc + 1)
unfolding sym_pc
sym_pc_bounds md f pc h small = ground arith

-- Sections whose offsets are those of one buffer and whose addresses go up with them, with no room
-- for another section's address in between.
abbrev pub AreLaidOut : ℕ → ℕ → List Textsect → Type 0
AreLaidOut off addr [] = Unit {0}
AreLaidOut off addr (s ∷ sects) =
    (off ≤ s.vaddr)
    × (addr ≤ s.baseaddr)
    × (s.vaddr ≤ s.end)
    × (s.end < 2 ^ 32)
    × (s.baseaddr + s.end < 2 ^ 63)
    × AreLaidOut s.end (s.baseaddr + s.end - s.vaddr) sects

-- The offset lies inside a section, before its end.
abbrev pub IsInside : ℕ → List Textsect → Type 0
IsInside off [] = ⊥
IsInside off (s ∷ sects) = ((s.vaddr ≤ off) × (off < s.end)) ⊎ IsInside off sects

inside_some : (off : ℕ) (sects : List Textsect) → IsInside off sects → 0 < length sects
inside_some off [] h = elim h [ ]
inside_some off (s ∷ sects) h = omega arith

module _ (off res n : ℕ) where
  text_addr_above :
      (sects : List Textsect) (i o a : ℕ)
      → AreLaidOut o a sects
      → IsInside off sects
      → i + length sects ≡ n
      → (o ≤ off) × (a ≤ text_addr_loop off res n i sects)
  unfolding text_addr_loop
  text_addr_above [] i o a l h e = elim h [ ]
  text_addr_above (s ∷ sects) i o a l (inl h) e = ground arith
  text_addr_above (s ∷ sects) i o a l (inr h) e = ground (
    arith,
    text_addr_above sects (i + 1) s.end (s.baseaddr + s.end - s.vaddr) l.5 h (omega arith),
    inside_some off sects h,
  )

  text_off_loop-addr :
      (sects : List Textsect) (i o a other : ℕ)
      → AreLaidOut o a sects
      → IsInside off sects
      → i + length sects ≡ n
      → text_off_loop (text_addr_loop off res n i sects) other n i sects ≡ some off
  unfolding text_off_loop text_addr_loop
  text_off_loop-addr [] i o a other l h e = elim h [ ]
  text_off_loop-addr (s ∷ sects) i o a other l (inl h) e = ground arith
  text_off_loop-addr (s ∷ sects) i o a other l (inr h) e = ground (
    arith,
    text_addr_above sects (i + 1) s.end (s.baseaddr + s.end - s.vaddr) l.5 h (omega arith),
    inside_some off sects h,
    text_off_loop-addr sects (i + 1) s.end (s.baseaddr + s.end - s.vaddr) other l.5 h (omega arith),
  )

-- `textOff` undoes `textAddr`: with one text section at most on every offset, and with more on every
-- offset inside a section, when the sections are laid out as one buffer at rising addresses.
pub text_off-text_addr :
    (md : Moduledata) (off : ℕ)
    → off < 2 ^ 32
    → ((length md.textsectmap ≤ 1) ⊎ (AreLaidOut 0 0 md.textsectmap × IsInside off md.textsectmap))
    → text_off md (text_addr md off) ≡ some off
unfolding text_off text_addr
text_off-text_addr md off small (inl one) =
    rw (ge→ltb 1 (length md.textsectmap) one) (ap some (omega arith))
text_off-text_addr md off small (inr (laid, inside)) =
    elim (Bool-cases (ltb 1 (length md.textsectmap))) [
      | inl e ↦ rw e (
          text_off_loop-addr off _ (length md.textsectmap) md.textsectmap 0 0 0 _ laid inside
            (omega arith))
      | inr e ↦ rw e (ap some (omega arith))
    ]
