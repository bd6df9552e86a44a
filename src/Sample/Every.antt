-- ===== src/Sample/Every.antt =====
-- `sampledFunctionListener`: the wrapped listener is told of every `cycle`-th call, by its start and
-- by its end, and of no other.
use wzprof.Base.{
  ℕ, suc, ◌+◌, ◌-◌, ◌/◌, ◌%◌, ◌^◌, ◌≤◌, ◌<◌, ◌≡◌, refl, sym, ap, ◌∙◌, inl, inr, List, ◌∷◌, Bool,
  true, false, ◌==◌, ==→eq, ==→ne, if◌then◌else◌, Bool-cases, Outcome, ok, ◌>>=◌, arith,
}
use native.Mathlib.Nat.{
  add-zero, zero-add, mod-add-mod, mod-lt, mod-eq_of_lt, mod_self, div_self, div-eq_of_lt,
  mod-add-div', add-mul-div_right,
}
use wzprof.Sample.{
  Bitstack, push, Listener, Sampled, sampled_before, sampled_after, sampled_abort, sampled_start,
  fresh_stack,
}
use wzprof.Sample.Bits.{IsValid, contents, push-contents, pop-takes}
use wzprof.Sample.Calls.{Calls, done, call, size, depth, join, run, run-join}

-- The calls that stand at a multiple of `cycle` when `p` calls came before; the calls inside one
-- that is left out take its place.
unfoldable pub every_nth : ℕ → ℕ → Calls → Calls
every_nth cycle p done = done
every_nth cycle p (call n flag aborts inside later) =
    let inner = every_nth cycle (p + 1) inside in
    let after = every_nth cycle (p + 1 + size inside) later in
    if (p + 1) % cycle == 0 then call n flag aborts inner after else join inner after

-- The listener's state when `p` calls came before.
abbrev pub at : ℕ → ℕ → Bitstack → Sampled
at cycle p stack = record { count = cycle - p % cycle; cycle = cycle; stack = stack }

mod_next :
    (p cycle : ℕ)
    → 0 < cycle
    → (p + 1) % cycle ≡ (if p % cycle + 1 == cycle then 0 else p % cycle + 1)
mod_next p cycle h = elim (Bool-cases (p % cycle + 1 == cycle)) [
  | inl e ↦ rw e (sym (mod-add-mod p cycle 1) ∙ rw (==→eq (p % cycle + 1) cycle e) (mod_self cycle))
  | inr e ↦ rw e (
      sym (mod-add-mod p cycle 1)
      ∙ mod-eq_of_lt (omega (arith, ==→ne (p % cycle + 1) cycle e, mod-lt p h)))
]

module _ {L : Type 0} (inner : Listener L) where
  pub sampled_finish : Bool → ℕ → Sampled × L → Outcome (Sampled × L)
  unfolding sampled_after sampled_abort
  sampled_finish aborts n st = if aborts then sampled_abort inner n st else sampled_after inner n st

  -- The listener over a run of the guest.
  pub run_sampled : Calls → Sampled × L → Outcome (Sampled × L)
  run_sampled done st = ok st
  run_sampled (call n flag aborts inside later) st = do
    inside_done ← run_sampled inside (sampled_before inner n st)
    call_done ← sampled_finish aborts n inside_done
    run_sampled later call_done

  pub before-at :
      (cycle p n : ℕ) (b : Bitstack) (l : L)
      → 0 < cycle
      → cycle < 2 ^ 32
      → sampled_before inner n (at cycle p b, l) ≡ (
          if (p + 1) % cycle == 0
          then (at cycle (p + 1) (push b 1), inner.before n l)
          else (at cycle (p + 1) (push b 0), l))
  unfolding sampled_before
  before-at cycle p n b l h k = ground (arith, mod_next p cycle h, mod-lt p h)

  pub finish-at :
      (s : Sampled) (aborts : Bool) (n m bit : ℕ) (rest : List ℕ) (l : L)
      → IsValid s.stack
      → s.stack.size ≡ suc m
      → contents s.stack ≡ bit ∷ rest
      → sampled_finish aborts n (s, l)
        ≡ ok (
          record s { stack = record (s.stack) { size = m } },
          if bit == 0 then l else if aborts then inner.abort n l else inner.after n l,
        )
  unfolding sampled_finish
  finish-at s true n m bit rest l v e c = rw (pop-takes s.stack m bit rest v e c).0
  finish-at s false n m bit rest l v e c = rw (pop-takes s.stack m bit rest v e c).0

  -- What a run of the listener comes to: the wrapped listener's state, the count of calls, and the
  -- stack as it was.
  abbrev Ran : ℕ → ℕ → Bitstack → L → Outcome (Sampled × L) → Type 0
  Ran cycle p b l out =
      (c : Bitstack) × (out ≡ ok (at cycle p c, l))
      × IsValid c
      × (contents c ≡ contents b)
      × (c.size ≡ b.size)

  -- One call, from what the calls inside it and after it come to.
  call-Ran :
      (cycle p q r n bit : ℕ) (aborts : Bool) (b : Bitstack) (l₁ l₂ l₃ l₄ : L)
      (inside later : Calls)
      → bit ≤ 1
      → IsValid b
      → b.size + 1 < 2 ^ 64
      → (if bit == 0 then l₂ else if aborts then inner.abort n l₂ else inner.after n l₂) ≡ l₃
      → Ran cycle q (push b bit) l₂ (run_sampled inside (at cycle p (push b bit), l₁))
      → ((c : Bitstack)
          → IsValid c
          → c.size ≡ b.size
          → Ran cycle r c l₄ (run_sampled later (at cycle q c, l₃)))
      → Ran cycle r b l₄ (do
        inside_done ← run_sampled inside (at cycle p (push b bit), l₁)
        call_done ← sampled_finish aborts n inside_done
        run_sampled later call_done)
  call-Ran cycle p q r n bit aborts b l₁ l₂ l₃ l₄ inside later small v d e (c, ran, vc, cc', sc)
        next =
      let (_, pushed, size) = push-contents b bit v d in
      let held : contents c ≡ bit % 2 ∷ contents b = cc' ∙ pushed in
      let sized : c.size ≡ suc (b.size) = sc ∙ size in
      let (_, vt, ct) = pop-takes c (b.size) (bit % 2) (contents b) vc sized held in
      let t : Bitstack = record c { size = b.size } in
      let (u, ran', vu, cu, su) = next t vt refl in
      (
        u,
        rw (ran, finish-at (at cycle q c) aborts n (b.size) (bit % 2) (contents b) l₂ vc sized held)
            (rw lowest (rw e ran')),
        vu,
        cu ∙ ct,
        su,
      )
    where
      lowest : bit % 2 ≡ bit
      lowest = omega arith

  run_sampled-Ran :
      (cs : Calls) (cycle p : ℕ) (b : Bitstack) (l : L)
      → 0 < cycle
      → cycle < 2 ^ 32
      → IsValid b
      → b.size + depth cs < 2 ^ 64
      → Ran cycle
          (p + size cs)
          b
          (run inner (every_nth cycle p cs) l)
          (run_sampled cs (at cycle p b, l))
  unfolding run_sampled every_nth run
  run_sampled-Ran done cycle p b l h k v d = (b, rw add-zero, v, refl, refl)
  run_sampled-Ran (call n flag aborts inside later) cycle p b l h k v d =
      let q = p + 1 + size inside in
      let place : p + suc (size inside + size later) ≡ q + size later = omega arith in
      rw (before-at cycle p n b l h k, place)
        (elim (Bool-cases ((p + 1) % cycle == 0)) [
          | inl e ↦ rw e (
              call-Ran cycle (p + 1) q (q + size later) n 1 aborts b (inner.before n l) _ _ _ inside
                later (omega arith) v (omega arith) refl
                (run_sampled-Ran inside cycle (p + 1) (push b 1) (inner.before n l) h k
                  (push-contents b 1 v (omega arith)).0
                  (omega (arith, (push-contents b 1 v (omega arith)).2)))
                (λ c vc sc. run_sampled-Ran later cycle q c _ h k vc (omega arith)))
          | inr e ↦
              rw (e, run-join)
                (call-Ran cycle (p + 1) q (q + size later) n 0 aborts b l _ _ _ inside later
                  (omega arith) v (omega arith) refl
                  (run_sampled-Ran inside cycle (p + 1) (push b 0) l h k
                    (push-contents b 0 v (omega arith)).0
                    (omega (arith, (push-contents b 0 v (omega arith)).2)))
                  (λ c vc sc. run_sampled-Ran later cycle q c _ h k vc (omega arith)))
        ])

  -- A run under `Sample` at a rate between 0 and 1, from the listener's first call on: the wrapped
  -- listener is told of the calls at the multiples of `cycle`, of each by its start and by its end,
  -- in order, and of no other; the listener does not panic and its stack is empty at the end. `cycle`
  -- is a positive `uint32`, and the calls nest less than 2 ^ 64 deep.
  pub sampled-every_nth :
      (cs : Calls) (cycle : ℕ) (l : L)
      → 0 < cycle
      → cycle < 2 ^ 32
      → depth cs < 2 ^ 64
      → (c : Bitstack) × (run_sampled cs (sampled_start cycle, l)
          ≡ ok (at cycle (size cs) c, run inner (every_nth cycle 0 cs) l))
        × (c.size ≡ 0)
  unfolding sampled_start
  sampled-every_nth cs cycle l h k d =
      let (c, ran, _, _, emptied) =
        run_sampled-Ran cs cycle 0 fresh_stack l h k
          (record { room = omega arith; small = omega arith }) (omega arith) in
      (c, rw (counting, zero-add (size cs)) at ran, emptied)
    where
      counting : cycle - 0 % cycle ≡ cycle
      counting = omega (arith, mod-eq_of_lt {n = 0} {m = cycle} h)

-- How many calls stand at a multiple of `cycle`.
size-join : (cs ds : Calls) → size (join cs ds) ≡ size cs + size ds
size-join done ds = omega arith
size-join (call n flag aborts inside later) ds = omega (arith, size-join later ds)

next-div :
    (p cycle : ℕ)
    → 0 < cycle
    → (p + 1) / cycle ≡ p / cycle + (if (p + 1) % cycle == 0 then 1 else 0)
next-div p cycle h = elim (Bool-cases (p % cycle + 1 == cycle)) [
  | inl e ↦
      let e' = ==→eq (p % cycle + 1) cycle e in
      ground (arith, parts, mod_next p cycle h, ap (λ (t : ℕ). t / cycle) e', div_self h)
  | inr e ↦
      let small : p % cycle + 1 < cycle =
        omega (arith, mod-lt p h, ==→ne (p % cycle + 1) cycle e) in
      ground (arith, parts, mod_next p cycle h, div-eq_of_lt small)
]
  where
    parts : (p + 1) / cycle ≡ (p % cycle + 1) / cycle + p / cycle
    parts =
        ap (λ (t : ℕ). t / cycle) (omega (arith, mod-add-div' p cycle))
        ∙ add-mul-div_right (p % cycle + 1) (p / cycle) h

size-every_nth :
    (cs : Calls) (cycle p : ℕ)
    → 0 < cycle
    → size (every_nth cycle p cs) + p / cycle ≡ (p + size cs) / cycle
unfolding every_nth
size-every_nth done cycle p h = rw (zero-add, add-zero)
size-every_nth (call n flag aborts inside later) cycle p h = ground (
  arith,
  next-div p cycle h,
  size-every_nth inside cycle (p + 1) h,
  size-every_nth later cycle (p + 1 + size inside) h,
  size-join (every_nth cycle (p + 1) inside) (every_nth cycle (p + 1 + size inside) later),
  ap (λ (t : ℕ). t / cycle) place,
)
  where
    place : p + suc (size inside + size later) ≡ p + 1 + size inside + size later
    place = omega arith

-- A listener that counts the calls that it is told of.
abbrev pub counter : Listener ℕ
counter = record { before = λ n l. suc l; after = λ n l. l; abort = λ n l. l }

run-counter : (cs : Calls) (l : ℕ) → run counter cs l ≡ l + size cs
unfolding run
run-counter done l = omega arith
run-counter (call n flag aborts inside later) l =
    ground (arith, run-counter inside (suc l), run-counter later (run counter inside (suc l)))

-- Of the calls of a run `Sample` lets one in `cycle` through, rounded down, wherever they stand and
-- however they nest. `cycle` is a positive `uint32`, and the calls nest less than 2 ^ 64 deep.
sampled-counts :
    (cs : Calls) (cycle : ℕ)
    → 0 < cycle
    → cycle < 2 ^ 32
    → depth cs < 2 ^ 64
    → (s : Sampled) × (run_sampled counter cs (sampled_start cycle, 0) ≡ ok (s, size cs / cycle))
sampled-counts cs cycle h k d =
    let (c, ran, _) = sampled-every_nth counter cs cycle 0 h k d in
    (at cycle (size cs) c, rw counted at ran)
  where
    counted : run counter (every_nth cycle 0 cs) 0 ≡ size cs / cycle
    counted = omega (
      arith,
      run-counter (every_nth cycle 0 cs) 0,
      size-every_nth cs cycle 0 h,
      div-eq_of_lt h,
      ap (λ (t : ℕ). t / cycle) (zero-add (size cs)),
    )
