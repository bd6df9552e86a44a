-- ===== src/Sample/Functions/Runs.antt =====
-- What the listeners of all functions tell the profiler that they wrap.
use wzprof.Base.{
  ℕ, suc, ◌+◌, ◌-◌, ◌%◌, ◌^◌, ◌≤◌, ◌<◌, ◌≡◌, refl, sym, ap, subst, ◌∙◌, inl, inr, List, [], ◌∷◌,
  Bool, ◌==◌, ==→eq, ==_refl, if◌then◌else◌, Bool-cases, Outcome, ok, arith,
}
use wzprof.Sample.{push, Listener, Sampled, sampled_before, sampled_start, fresh_stack}
use wzprof.Sample.Calls.{Calls, done, call, depth, run, run-join}
use wzprof.Sample.Every.{at, before-at, finish-at}
use native.Mathlib.Nat.{mod-eq_of_lt}
use wzprof.Sample.Functions.{
  put, calls_of, bump, advance, every_nth_of, functions_before, functions_finish, run_functions,
}
use wzprof.Sample.Functions.Stacks.{IsAt, AreAt, put-AreAt, IsAt-push, IsAt-pop, IsAt-eq}

module _ (fn_of : ℕ → ℕ) {L : Type 0} (inner : Listener L) (cycle : ℕ) where
  abbrev go : Calls → (ℕ → Sampled) × L → Outcome ((ℕ → Sampled) × L)
  go = run_functions fn_of inner

  -- What a run of the listeners comes to.
  abbrev Runs : (ℕ → ℕ) → (ℕ → List ℕ) → (ℕ → ℕ) → L → Outcome ((ℕ → Sampled) × L) → Type 0
  Runs r bits k l out = (T : ℕ → Sampled) × (out ≡ ok (T, l)) × AreAt cycle r bits k T

  bumped :
      (p k : ℕ → ℕ) (bits : ℕ → List ℕ) (S : ℕ → Sampled) (f bit : ℕ)
      → AreAt cycle p bits k S
      → k f + 1 < 2 ^ 64
      → AreAt cycle
          (bump fn_of p f)
          (put f (bit % 2 ∷ bits f) bits)
          (put f (suc (k f)) k)
          (put f (at cycle (p f + 1) (push (S f).stack bit)) S)
  bumped p k bits S f bit h small =
      put-AreAt cycle (bump fn_of p f) k bits S f (suc (k f)) (bit % 2 ∷ bits f)
        (at cycle (p f + 1) (push (S f).stack bit))
        (rw (==_refl f) (IsAt-push cycle (p f) bit (k f) (bits f) (S f) (h f) small))
        (λ g e.
          IsAt-eq cycle (p g) (bump fn_of p f g) (k g) (bits g) (S g) (rw e (omega arith)) (h g))

  -- The end of a call takes its bit off the stack of its function.
  popped :
      (p k : ℕ → ℕ) (bits : ℕ → List ℕ) (S : ℕ → Sampled) (f bit : ℕ)
      → AreAt cycle p (put f (bit ∷ bits f) bits) (put f (suc (k f)) k) S
      → AreAt cycle p bits k
          (put f (record (S f) { stack = record ((S f).stack) { size = k f } }) S)
  popped p k bits S f bit h g = elim (Bool-cases (g == f)) [
    | inl e ↦ rw e (
        subst
          (λ (x : ℕ).
            IsAt cycle (p x) (bits x) (k x)
              (record (S f) { stack = record ((S f).stack) { size = k f } }))
          (sym (==→eq g f e))
          (IsAt-pop cycle (p f) bit (k f) (bits f) (S f) (rw (==_refl f) at (h f))))
    | inr e ↦ rw e (rw e at (h g))
  ]

  -- One call, from what the calls inside it and after it come to.
  call-AreAt :
      (p r k : ℕ → ℕ) (bits : ℕ → List ℕ) (S : ℕ → Sampled) (l l₁ l₂ l₃ l₄ : L) (n bit : ℕ)
      (flag aborts : Bool) (inside later : Calls)
      → bit ≤ 1
      → AreAt cycle p bits k S
      → k (fn_of n) + 1 < 2 ^ 64
      → sampled_before inner n (S (fn_of n), l)
        ≡ (at cycle (p (fn_of n) + 1) (push (S (fn_of n)).stack bit), l₁)
      → (if bit == 0 then l₂ else if aborts then inner.abort n l₂ else inner.after n l₂) ≡ l₃
      → ((T : ℕ → Sampled)
          → AreAt cycle
              (bump fn_of p (fn_of n))
              (put (fn_of n) (bit % 2 ∷ bits (fn_of n)) bits)
              (put (fn_of n) (suc (k (fn_of n))) k)
              T
          → Runs
              (advance fn_of (bump fn_of p (fn_of n)) inside)
              (put (fn_of n) (bit % 2 ∷ bits (fn_of n)) bits)
              (put (fn_of n) (suc (k (fn_of n))) k)
              l₂
              (go inside (T, l₁)))
      → ((T : ℕ → Sampled)
          → AreAt cycle (advance fn_of (bump fn_of p (fn_of n)) inside) bits k T
          → Runs r bits k l₄ (go later (T, l₃)))
      → Runs r bits k l₄ (go (call n flag aborts inside later) (S, l))
  unfolding run_functions functions_before functions_finish
  call-AreAt p r k bits S l l₁ l₂ l₃ l₄ n bit flag aborts inside later low h small begun ended
        within next =
      let f = fn_of n in
      let (T, ran, held) = within _ (bumped p k bits S f bit h small) in
      let at_f : IsAt cycle _ (bit % 2 ∷ bits f) (suc (k f)) (T f) = rw (==_refl f) at (held f) in
      let finished =
        finish-at inner (T f) aborts n (k f) (bit % 2) (bits f) l₂ at_f.has_valid at_f.sized
          at_f.held in
      let (U, ran₂, held₂) = next _ (popped _ k bits T f (bit % 2) held) in
      let lowest : bit % 2 ≡ bit = omega arith in
      (U, rw (begun, ran, finished, lowest, ended) ran₂, held₂)

  deeper :
      (k : ℕ → ℕ) (f d e : ℕ)
      → ((g : ℕ) → k g + d < 2 ^ 64)
      → suc e ≤ d
      → (g : ℕ) → put f (suc (k f)) k g + e < 2 ^ 64
  deeper k f d e h l g = elim (Bool-cases (g == f)) [
    | inl y ↦ rw y (omega (arith, h f, l))
    | inr n ↦ rw n (omega (arith, h g, l))
  ]

  run_functions-AreAt :
      (cs : Calls) (p k : ℕ → ℕ) (bits : ℕ → List ℕ) (S : ℕ → Sampled) (l : L)
      → 0 < cycle
      → cycle < 2 ^ 32
      → AreAt cycle p bits k S
      → ((g : ℕ) → k g + depth cs < 2 ^ 64)
      → Runs
          (advance fn_of p cs)
          bits
          k
          (run inner (every_nth_of fn_of cycle p cs) l)
          (go cs (S, l))
  unfolding run_functions every_nth_of run calls_of
  run_functions-AreAt done p k bits S l low high h d =
      (S, refl, λ g. IsAt-eq cycle (p g) _ (k g) (bits g) (S g) (omega arith) (h g))
  run_functions-AreAt (call n flag aborts inside later) p k bits S l low high h d =
      let f = fn_of n in
      let q = bump fn_of p f in
      let r = advance fn_of q inside in
      let begun =
        ap (λ (s : Sampled). sampled_before inner n (s, l)) (h f).counts
        ∙ before-at inner cycle (p f) n (S f).stack l low high in
      let deep =
        deeper k f (depth (call n flag aborts inside later)) (depth inside) d (omega arith) in
      let within =
        λ (bit : ℕ) (l : L) (T : ℕ → Sampled)
            (t : AreAt cycle q (put f (bit % 2 ∷ bits f) bits) (put f (suc (k f)) k) T).
          run_functions-AreAt inside q (put f (suc (k f)) k) (put f (bit % 2 ∷ bits f) bits) T l low
            high t deep in
      let next = λ (l : L) (T : ℕ → Sampled) (t : AreAt cycle r bits k T).
        run_functions-AreAt later r k bits T l low high t (λ g. omega (arith, d g)) in
      let (T, ran, held) : Runs (advance fn_of r later) bits k
          (run inner (every_nth_of fn_of cycle p (call n flag aborts inside later)) l)
          (go (call n flag aborts inside later) (S, l)) =
        elim (Bool-cases ((p f + 1) % cycle == 0)) [
          | inl e ↦ rw e (
              call-AreAt p (advance fn_of r later) k bits S l (inner.before n l) _ _ _ n 1 flag
                aborts inside later (omega arith) h (omega (arith, d f)) (rw e at begun) refl
                (within 1 (inner.before n l)) (next _))
          | inr e ↦
              rw (e, run-join)
                (call-AreAt p (advance fn_of r later) k bits S l l _ _ _ n 0 flag aborts inside
                  later (omega arith) h (omega (arith, d f)) (rw e at begun) refl (within 0 l)
                  (next _))
        ] in
      (T, ran, λ g. IsAt-eq cycle _ _ (k g) (bits g) (T g) (omega arith) (held g))

  -- A run of the guest under the listeners that `Sample` makes at a rate between 0 and 1: what they wrap is
  -- told of the calls that stand at a multiple of `cycle` among those of their function, of each by its
  -- start and by its end, in order, and of no other; no listener panics. `cycle` is a positive `uint32`,
  -- and the calls nest less than 2 ^ 64 deep.
  pub run_functions-every_nth :
      (cs : Calls) (l : L)
      → 0 < cycle
      → cycle < 2 ^ 32
      → depth cs < 2 ^ 64
      → (T : ℕ → Sampled) × (run_functions fn_of inner cs ((λ g. sampled_start cycle), l)
          ≡ ok (T, run inner (every_nth_of fn_of cycle (λ g. 0) cs) l))
  unfolding sampled_start
  run_functions-every_nth cs l low high d =
      let fresh : AreAt cycle (λ g. 0) (λ g. []) (λ g. 0) (λ g. sampled_start cycle) = λ g. record {
        counts = ap (λ (c : ℕ). record { count = c; cycle = cycle; stack = fresh_stack }) counting;
        has_valid = record { room = omega arith; small = omega arith };
        held = refl;
        sized = refl;
      } in
      let (T, ran, held) =
        run_functions-AreAt cs (λ g. 0) (λ g. 0) (λ g. []) (λ g. sampled_start cycle) l low high
          fresh (λ g. omega (arith, d)) in
      (T, ran)
    where
      counting : cycle ≡ cycle - 0 % cycle
      counting = omega (arith, mod-eq_of_lt {n = 0} {m = cycle} low)
