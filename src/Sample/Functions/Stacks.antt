-- ===== src/Sample/Functions/Stacks.antt =====
-- The counters and stacks of the listeners of all functions.
use wzprof.Base.{
  ℕ, suc, ◌+◌, ◌%◌, ◌^◌, ◌<◌, ◌≡◌, refl, sym, ap, subst, ◌∙◌, inl, inr, List, ◌∷◌, false, ◌==◌,
  ==→eq, Bool-cases, arith,
}
use wzprof.Sample.{push, Sampled}
use wzprof.Sample.Bits.{IsValid, contents, push-contents, pop-takes}
use wzprof.Sample.Every.{at}
use wzprof.Sample.Functions.{put}

-- A listener when `q` calls of its function came before, with these bits on its stack.
pub record IsAt (cycle q : ℕ) (bits : List ℕ) (k : ℕ) (s : Sampled) : Type 0 where
  pub counts : s ≡ at cycle q s.stack
  pub has_valid : IsValid s.stack
  pub held : contents s.stack ≡ bits
  pub sized : s.stack.size ≡ k

-- The listeners of all functions.
abbrev pub AreAt : ℕ → (ℕ → ℕ) → (ℕ → List ℕ) → (ℕ → ℕ) → (ℕ → Sampled) → Type 0
AreAt cycle p bits k S = (g : ℕ) → IsAt cycle (p g) (bits g) (k g) (S g)

pub put-AreAt :
    (cycle : ℕ) (p k : ℕ → ℕ) (bits : ℕ → List ℕ) (S : ℕ → Sampled) (f m : ℕ) (bs : List ℕ)
    (s : Sampled)
    → IsAt cycle (p f) bs m s
    → ((g : ℕ) → (g == f) ≡ false → IsAt cycle (p g) (bits g) (k g) (S g))
    → AreAt cycle p (put f bs bits) (put f m k) (put f s S)
put-AreAt cycle p k bits S f m bs s h others g = elim (Bool-cases (g == f)) [
  | inl e ↦ rw e (subst (λ (x : ℕ). IsAt cycle (p x) bs m s) (sym (==→eq g f e)) h)
  | inr e ↦ rw e (others g e)
]

pub IsAt-push :
    (cycle q bit k : ℕ) (bits : List ℕ) (s : Sampled)
    → IsAt cycle q bits k s
    → k + 1 < 2 ^ 64
    → IsAt cycle (q + 1) (bit % 2 ∷ bits) (suc k) (at cycle (q + 1) (push s.stack bit))
IsAt-push cycle q bit k bits s h small =
    let (v, c, z) = push-contents s.stack bit h.has_valid (omega (arith, h.sized, small)) in
    record {
      counts = refl;
      has_valid = v;
      held = c ∙ ap (λ (x : List ℕ). bit % 2 ∷ x) h.held;
      sized = omega (arith, z, h.sized);
    }

pub IsAt-pop :
    (cycle q bit k : ℕ) (bits : List ℕ) (s : Sampled)
    → IsAt cycle q (bit ∷ bits) (suc k) s
    → IsAt cycle q bits k (record s { stack = record (s.stack) { size = k } })
IsAt-pop cycle q bit k bits s h =
    let (t, v, c) = pop-takes s.stack k bit bits h.has_valid h.sized h.held in
    record {
      counts = ap (λ (x : Sampled). record x { stack = record (s.stack) { size = k } }) h.counts;
      has_valid = v;
      held = c;
      sized = refl;
    }

pub IsAt-eq :
    (cycle q r k : ℕ) (bits : List ℕ) (s : Sampled)
    → q ≡ r
    → IsAt cycle q bits k s
    → IsAt cycle r bits k s
IsAt-eq cycle q r k bits s e h = subst (λ (x : ℕ). IsAt cycle x bits k s) e h
