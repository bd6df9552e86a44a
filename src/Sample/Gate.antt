-- ===== src/Sample/Gate.antt =====
-- `Flag`'s listener: the wrapped listener is told of the calls that start while the flag is set.
use wzprof.Base.{
  ℕ, suc, ◌+◌, ◌%◌, ◌^◌, ◌<◌, ◌≡◌, refl, ◌∙◌, List, ◌∷◌, Bool, true, false, ◌==◌, if◌then◌else◌,
  Outcome, ok, ◌>>=◌, arith,
}
use wzprof.Sample.{
  Bitstack, push, Listener, Flagged, flagged_before, flagged_after, flagged_abort, flagged_start,
  fresh_stack,
}
use wzprof.Sample.Bits.{IsValid, contents, push-contents, pop-takes}
use wzprof.Sample.Calls.{Calls, done, call, depth, join, run, run-join}

-- The calls that start while the flag is set; the calls inside one that is left out take its place.
pub while_set : Calls → Calls
while_set done = done
while_set (call n flag aborts inside later) =
    let inner = while_set inside in
    let after = while_set later in if flag then call n flag aborts inner after else join inner after

module _ {L : Type 0} (inner : Listener L) where
  pub flagged_finish : Bool → ℕ → Flagged × L → Outcome (Flagged × L)
  unfolding flagged_after flagged_abort
  flagged_finish aborts n st = if aborts then flagged_abort inner n st else flagged_after inner n st

  -- The listener over a run of the guest, in which the application sets and clears the flag at will.
  pub run_flagged : Calls → Flagged × L → Outcome (Flagged × L)
  run_flagged done st = ok st
  run_flagged (call n flag aborts inside later) st = do
    inside_done ← run_flagged inside (flagged_before inner flag n st)
    call_done ← flagged_finish aborts n inside_done
    run_flagged later call_done

  abbrev on : Bitstack → Flagged
  on b = record { stack = b }

  finish-on :
      (t : Bitstack) (aborts : Bool) (n m bit : ℕ) (rest : List ℕ) (l : L)
      → IsValid t
      → t.size ≡ suc m
      → contents t ≡ bit ∷ rest
      → flagged_finish aborts n (on t, l)
        ≡ ok (
          on (record t { size = m }),
          if bit == 0 then l else if aborts then inner.abort n l else inner.after n l,
        )
  unfolding flagged_finish
  finish-on t true n m bit rest l v e c = rw (pop-takes t m bit rest v e c).0
  finish-on t false n m bit rest l v e c = rw (pop-takes t m bit rest v e c).0

  abbrev Ran : Bitstack → L → Outcome (Flagged × L) → Type 0
  Ran b l out =
      (c : Bitstack) × (out ≡ ok (on c, l))
      × IsValid c
      × (contents c ≡ contents b)
      × (c.size ≡ b.size)

  -- One call, from what the calls inside it and after it come to.
  call-Ran :
      (n bit : ℕ) (aborts : Bool) (b : Bitstack) (l₁ l₂ l₄ : L) (inside later : Calls)
      → IsValid b
      → b.size + 1 < 2 ^ 64
      → Ran (push b bit) l₂ (run_flagged inside (on (push b bit), l₁))
      → ((c : Bitstack)
          → IsValid c
          → c.size ≡ b.size
          → Ran c l₄ (
              run_flagged later (
                on c,
                if bit % 2 == 0 then l₂ else if aborts then inner.abort n l₂ else inner.after n l₂,
              )))
      → Ran b l₄ (do
        inside_done ← run_flagged inside (on (push b bit), l₁)
        call_done ← flagged_finish aborts n inside_done
        run_flagged later call_done)
  call-Ran n bit aborts b l₁ l₂ l₄ inside later v d (c, ran, vc, cc', sc) next =
      let (_, pushed, size) = push-contents b bit v d in
      let held : contents c ≡ bit % 2 ∷ contents b = cc' ∙ pushed in
      let sized : c.size ≡ suc (b.size) = sc ∙ size in
      let (_, vt, ct) = pop-takes c (b.size) (bit % 2) (contents b) vc sized held in
      let t : Bitstack = record c { size = b.size } in
      let (u, ran', vu, cu, su) = next t vt refl in
      (
        u,
        rw (ran, finish-on c aborts n (b.size) (bit % 2) (contents b) l₂ vc sized held) ran',
        vu,
        cu ∙ ct,
        su,
      )

  run_flagged-Ran :
      (cs : Calls) (b : Bitstack) (l : L)
      → IsValid b
      → b.size + depth cs < 2 ^ 64
      → Ran b (run inner (while_set cs) l) (run_flagged cs (on b, l))
  unfolding run_flagged while_set run flagged_before
  run_flagged-Ran done b l v d = (b, refl, v, refl, refl)
  run_flagged-Ran (call n true aborts inside later) b l v d =
      let (vp, _, sp) = push-contents b 1 v (omega arith) in
      call-Ran n 1 aborts b (inner.before n l) _ _ inside later v (omega arith)
        (run_flagged-Ran inside (push b 1) (inner.before n l) vp (omega arith))
        (λ c vc sc. run_flagged-Ran later c _ vc (omega arith))
  run_flagged-Ran (call n false aborts inside later) b l v d =
      let (vp, _, sp) = push-contents b 0 v (omega arith) in
      rw run-join (
        call-Ran n 0 aborts b l _ _ inside later v (omega arith)
          (run_flagged-Ran inside (push b 0) l vp (omega arith))
          (λ c vc sc. run_flagged-Ran later c _ vc (omega arith)))

  -- A run under `Flag`, from the listener's first call on: the wrapped listener is told of the calls
  -- that start while the flag is set, of each by its start and by its end, whatever becomes of the
  -- flag in between, and of no other; the listener does not panic and its stack is empty at the end.
  -- The calls nest less than 2 ^ 64 deep.
  pub flagged-while_set :
      (cs : Calls) (l : L)
      → depth cs < 2 ^ 64
      → (c : Bitstack) × (run_flagged cs (flagged_start, l)
          ≡ ok (record { stack = c }, run inner (while_set cs) l))
        × (c.size ≡ 0)
  unfolding flagged_start
  flagged-while_set cs l d =
      let (c, ran, _, _, emptied) =
        run_flagged-Ran cs fresh_stack l (record { room = omega arith; small = omega arith })
          (omega arith) in
      (c, ran, emptied)
