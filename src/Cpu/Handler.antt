-- ===== src/Cpu/Handler.antt =====
-- cpu.go: the HTTP handler of the CPU profiler. Durations are `int64` patterns, in nanoseconds.
use wzprof.Base.{
  ℕ, ◌*◌, ◌%◌, ◌^◌, ◌<◌, ◌≤◌, ◌≡◌, refl, Bool, false, ◌&&◌, Option, none, some, ltb, if◌then◌else◌,
  arith,
}
use wzprof.Base.Words.{add64}
use wzprof.Trace.{Counts}
use wzprof.Cpu.{CpuProfiler, start_profile, stop_profile}

abbrev pub second : ℕ
second = 10 ^ 9

-- The duration of the profile that the form's field asks for: the number that `ParseInt` reads,
-- or `none` for none.
unfoldable pub duration_of : Option ℕ → ℕ
duration_of none = 30 * second
duration_of (some n) = if ltb 0 n && ltb n (2 ^ 63) then n * second % 2 ^ 64 else 30 * second

-- `duration > timeout`, on signed words.
abbrev pub exceeds : ℕ → ℕ → Bool
exceeds duration timeout = ltb (add64 timeout (2 ^ 63)) (add64 duration (2 ^ 63))

-- What is written: an error, or the profile of the samples that `StopProfile` hands over.
pub data Response : Type 0 where
  bad_request already_running : Response
  profile : Option Counts → Response

-- The handler behind the test of the deadline. `meanwhile` is what becomes of the profiler until the
-- duration is over or the request is cancelled.
pub record_profile : ℕ → (CpuProfiler → CpuProfiler) → CpuProfiler → Response × CpuProfiler
record_profile now meanwhile p =
    let (started, p) = start_profile now p in
    let (samples, q) = stop_profile (meanwhile p) in
    if started then (profile samples, q) else (already_running, p)

-- The handler of `NewHandler`. The context may have a deadline, which is some time away.
pub respond :
    Option ℕ → Option ℕ → ℕ → (CpuProfiler → CpuProfiler) → CpuProfiler → Response × CpuProfiler
unfolding record_profile
respond seconds none now meanwhile p = record_profile now meanwhile p
respond seconds (some timeout) now meanwhile p =
    if exceeds (duration_of seconds) timeout
    then (bad_request, p)
    else record_profile now meanwhile p

-- Under a deadline that is not past, a request for `m` seconds, which fit an `int64` as
-- nanoseconds, is refused exactly where the deadline is nearer, and then leaves the profiler as it
-- was; else it is answered as one without a deadline. A request for `n` seconds whose nanoseconds
-- do not fit, and wrap to a negative number, is never refused, however near the deadline is: it is
-- answered as one without.
pub respond_deadline :
    (m n timeout now : ℕ) (meanwhile : CpuProfiler → CpuProfiler) (p : CpuProfiler)
    → 0 < m
    → m * second < 2 ^ 63
    → 0 < n
    → n < 2 ^ 63
    → 2 ^ 63 ≤ n * second % 2 ^ 64
    → timeout < 2 ^ 63
    → (respond (some m) (some timeout) now meanwhile p ≡ (
        if ltb timeout (m * second)
        then (bad_request, p)
        else respond (some m) none now meanwhile p))
      × (2 ^ 63 ≤ n * second)
      × (respond (some n) (some timeout) now meanwhile p ≡ respond (some n) none now meanwhile p)
unfolding respond duration_of
respond_deadline m n timeout now meanwhile p a b c d e f =
    (rw (fits m timeout a b f) refl, omega arith, rw (wraps n timeout c d e f) refl)
  where
    fits :
        (m timeout : ℕ)
        → 0 < m
        → m * second < 2 ^ 63
        → timeout < 2 ^ 63
        → exceeds (duration_of (some m)) timeout ≡ ltb timeout (m * second)
    fits m timeout a b f = ground arith

    wraps :
        (n timeout : ℕ)
        → 0 < n
        → n < 2 ^ 63
        → 2 ^ 63 ≤ n * second % 2 ^ 64
        → timeout < 2 ^ 63
        → exceeds (duration_of (some n)) timeout ≡ false
    wraps n timeout c d e f = ground arith
