-- ===== src/Sample/Functions.antt =====
-- The factory that `Sample` returns makes a listener for each function, with a counter and a stack of its
-- own; the listeners that they wrap share one profiler.
pub mod Stacks
pub mod Runs
use wzprof.Base.{
  ℕ, suc, ◌+◌, ◌%◌, ◌^◌, ◌≤◌, ◌<◌, ◌≡◌, ◌≢◌, refl, sym, ap, subst, ◌∙◌, inl, inr, List, [], ◌∷◌,
  Bool, true, false, ◌==◌, ==→eq, ==→ne, ne→==, ==_refl, if◌then◌else◌, Bool-cases, Outcome, ok,
  ◌>>=◌, arith,
}
use wzprof.Sample.{Bitstack, push, Listener, Sampled, sampled_before, sampled_start, fresh_stack}
use wzprof.Sample.Bits.{IsValid, contents, push-contents, pop-takes}
use wzprof.Sample.Calls.{Calls, done, call, size, depth, join, run, run-join}
use wzprof.Sample.Every.{at, sampled_finish, before-at, finish-at}

-- A value for each function, and for one of them another.
abbrev pub put : {A : Type 0} → ℕ → A → (ℕ → A) → ℕ → A
put f x F g = if g == f then x else F g

-- The function of each call.
module _ (fn_of : ℕ → ℕ) where
  -- The calls of a function.
  unfoldable pub calls_of : ℕ → Calls → ℕ
  calls_of f done = 0
  calls_of f (call n flag aborts inside later) =
      (if f == fn_of n then 1 else 0) + calls_of f inside + calls_of f later

  abbrev pub bump : (ℕ → ℕ) → ℕ → ℕ → ℕ
  bump p f g = p g + (if g == f then 1 else 0)

  abbrev pub advance : (ℕ → ℕ) → Calls → ℕ → ℕ
  advance p cs g = p g + calls_of g cs

  -- The calls that stand at a multiple of `cycle` among those of their function, when `p f` calls of
  -- the function `f` came before; the calls inside one that is left out take its place.
  unfoldable pub every_nth_of : ℕ → (ℕ → ℕ) → Calls → Calls
  every_nth_of cycle p done = done
  every_nth_of cycle p (call n flag aborts inside later) =
      let within = every_nth_of cycle (bump p (fn_of n)) inside in
      let after = every_nth_of cycle (advance (bump p (fn_of n)) inside) later in
      if (p (fn_of n) + 1) % cycle == 0 then call n flag aborts within after else join within after

  module _ {L : Type 0} (inner : Listener L) where
    pub functions_before : ℕ → (ℕ → Sampled) × L → (ℕ → Sampled) × L
    functions_before n (S, l) =
        let (s, l) = sampled_before inner n (S (fn_of n), l) in (put (fn_of n) s S, l)

    pub functions_finish : Bool → ℕ → (ℕ → Sampled) × L → Outcome ((ℕ → Sampled) × L)
    functions_finish aborts n (S, l) =
        sampled_finish inner aborts n (S (fn_of n), l) >>= (λ (s, l). ok (put (fn_of n) s S, l))

    -- The listeners over a run of the guest.
    pub run_functions : Calls → (ℕ → Sampled) × L → Outcome ((ℕ → Sampled) × L)
    unfolding functions_before functions_finish
    run_functions done st = ok st
    run_functions (call n flag aborts inside later) st = do
      inside_done ← run_functions inside (functions_before n st)
      call_done ← functions_finish aborts n inside_done
      run_functions later call_done
