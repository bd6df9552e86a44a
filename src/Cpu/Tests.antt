-- ===== src/Cpu/Tests.antt =====
-- Runs of the CPU profiler, and its theorems at concrete inputs.
use wzprof.Base.{
  ℕ, ◌+◌, ◌*◌, ◌%◌, ◌^◌, ◌≤◌, if◌then◌else◌, ltb, ◌≡◌, refl, List, [], ◌∷◌, true, false, some, none,
  ok, arith,
}
use wzprof.Trace.{StackFrame, Counts}
use wzprof.Cpu.Handler.{second, bad_request, respond, respond_deadline}
use wzprof.Cpu.{CpuProfiler, start_profile, stop_profile}
use wzprof.Cpu.Time
use wzprof.Cpu.Time.{run-Ran, Ran}
use wzprof.Sample.{Sampled, sampled_start}
use wzprof.Sample.Calls as Guest
use wzprof.Sample.Functions.{calls_of, every_nth_of, run_functions}
use wzprof.Trace.Counts.{sum_count, sum_total}
use wzprof.Cpu.Sampled.{Reading, cpu_listener, timed, sampled_run-totals}
use wzprof.Cpu.Sessions
use wzprof.Cpu.Sessions.{start-stop_protocol}

abbrev main_at : ℕ → List StackFrame
main_at pc =
    record { fn = record { module_name = "m"; index = 1; name = "main"; is_host = false }; pc = pc }
    ∷ []

abbrev toy_hash : List ℕ → ℕ
toy_hash [] = 0
toy_hash (b ∷ bs) = b

abbrev recording : CpuProfiler
recording = record { counts = some []; frames = []; traces = []; start = 5; host = false }

-- A call from 10 to 30 that makes a call from 12 to 19.
abbrev two_calls : Time.Calls
two_calls =
    Time.Calls.call 10 (main_at 1) 30
      (Time.Calls.call 12 (main_at 2) 19 Time.Calls.done Time.Calls.done) Time.Calls.done

run-Ran_example : Ran toy_hash two_calls recording [] (Time.run toy_hash two_calls recording)
run-Ran_example = run-Ran toy_hash two_calls recording [] refl (omega arith)

abbrev idle : CpuProfiler
idle = record { counts = none; frames = []; traces = []; start = 0; host = false }

start-stop_protocol_example :
    (recording.counts ≡ none
      → (start_profile 7 recording ≡ (true, record recording { counts = some []; start = 7 }))
        × ((stop_profile recording).0 ≡ none))
    × ((m : Counts)
        → recording.counts ≡ some m
        → (start_profile 7 recording ≡ (false, recording))
          × (out : Counts) × ((stop_profile recording).0 ≡ some out)
          × (recording.host ≡ true → out ≡ m)
          × (recording.host ≡ false → Sessions.Guests m out))
    × ((stop_profile recording).1 ≡ record recording { counts = none })
    × ((stop_profile (stop_profile recording).1).0 ≡ none)
    × (start_profile 7 (stop_profile recording).1
        ≡ (true, record recording { counts = some []; start = 7 }))
start-stop_protocol_example = start-stop_protocol recording 7

-- Ten seconds at a deadline in five, and ten thousand million.
respond_deadline_example :
    (respond (some 10) (some (5 * second)) 7 (λ q. q) idle ≡ (
      if ltb (5 * second) (10 * second)
      then (bad_request, idle)
      else respond (some 10) none 7 (λ q. q) idle))
    × (2 ^ 63 ≤ 10 ^ 10 * second)
    × (respond (some (10 ^ 10)) (some (5 * second)) 7 (λ q. q) idle
        ≡ respond (some (10 ^ 10)) none 7 (λ q. q) idle)
respond_deadline_example =
    respond_deadline 10 (10 ^ 10) (5 * second) 7 (λ q. q) idle (omega arith) (omega arith)
      (omega arith) (omega arith) (omega arith) (omega arith)

-- Call `n` lasts from 10 n + 1 to 10 n + 8; the even calls are of one function, and the odd of another.
abbrev reading : ℕ → Reading
reading n = record { start = 10 * n + 1; stack = main_at n; finish = 10 * n + 8 }

abbrev parity : ℕ → ℕ
parity n = n % 2

abbrev four_calls : Guest.Calls
four_calls =
    Guest.call 1 true false (Guest.call 2 true false Guest.done Guest.done)
      (Guest.call 3 true true Guest.done (Guest.call 4 true false Guest.done Guest.done))

-- The second calls of each function are let through.
second_calls :
    every_nth_of parity 2 (λ g. 0) four_calls
    ≡ Guest.call 3 true true Guest.done (Guest.call 4 true false Guest.done Guest.done)
unfolding every_nth_of calls_of
second_calls = refl

sampled_run-totals_example :
    (T : ℕ → Sampled) × (q : CpuProfiler) × (n : Counts) × (run_functions parity
        (cpu_listener toy_hash reading)
        four_calls
        ((λ g. sampled_start 2), ok recording)
      ≡ ok (T, ok q))
    × (q.counts ≡ some n)
    × (sum_count n % 2 ^ 64
        ≡ (sum_count [] + Guest.size (every_nth_of parity 2 (λ g. 0) four_calls)) % 2 ^ 64)
    × (sum_total n % 2 ^ 64
        ≡ (sum_total []
            + Time.elapsed (timed toy_hash reading (every_nth_of parity 2 (λ g. 0) four_calls)))
          % 2 ^ 64)
sampled_run-totals_example =
    sampled_run-totals toy_hash reading parity 2 four_calls recording [] (omega arith) (omega arith)
      (omega arith) refl (λ n. omega arith)
