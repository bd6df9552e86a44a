-- ===== src/Sample/Tests.antt =====
-- Runs of the sampling listeners, and their theorems at concrete inputs.
use wzprof.Base.{ℕ, ◌≡◌, refl, List, [], ◌∷◌, true, false, ok, arith}
use wzprof.Sample.{Bitstack, Listener, sampled_start, flagged_start}
use wzprof.Sample.Calls.{Calls, done, call, run}
use wzprof.Sample.Every.{every_nth, at, run_sampled, sampled-every_nth}
use wzprof.Sample.Gate.{while_set, run_flagged, flagged-while_set}

-- Call 1 makes calls 2 and 3, the second of which aborts, and call 4 follows.
abbrev nested : Calls
nested =
    call 1 true false (call 2 false false done (call 3 true true done done))
      (call 4 false false done done)

-- What the listener is told, the newest first.
abbrev recorder : Listener (List (ℕ × ℕ))
recorder = record {
  before = λ n l. (0, n) ∷ l;
  after = λ n l. (1, n) ∷ l;
  abort = λ n l. (2, n) ∷ l;
}

every_second : run recorder (every_nth 2 0 nested) [] ≡ (1, 4) ∷ (0, 4) ∷ (1, 2) ∷ (0, 2) ∷ []
unfolding run every_nth
every_second = refl

sampled-every_nth_example :
    (c : Bitstack) × (run_sampled recorder nested (sampled_start 2, [])
      ≡ ok (at 2 4 c, run recorder (every_nth 2 0 nested) []))
    × (c.size ≡ 0)
sampled-every_nth_example =
    sampled-every_nth recorder nested 2 [] (omega arith) (omega arith) (omega arith)

flagged-while_set_example :
    (c : Bitstack) × (run_flagged recorder nested (flagged_start, [])
      ≡ ok (record { stack = c }, run recorder (while_set nested) []))
    × (c.size ≡ 0)
flagged-while_set_example = flagged-while_set recorder nested [] (omega arith)
