-- ===== src/Sample/Calls.antt =====
-- A run of the guest as the listeners see it: calls that nest, each ending by a return or an abort.
use wzprof.Base.{ℕ, suc, ◌+◌, max, ◌≡◌, refl, Bool, if◌then◌else◌}
use wzprof.Sample.{Listener}

-- `call n flag aborts inside later`: call number `n`, made when the flag has the value `flag`, which
-- makes the calls `inside`, ends by an abort or not, and is followed by the calls `later`.
pub data Calls : Type 0 where
  done : Calls
  call : ℕ → Bool → Bool → Calls → Calls → Calls

abbrev pub size : Calls → ℕ
size done = 0
size (call n flag aborts inside later) = suc (size inside + size later)

abbrev pub depth : Calls → ℕ
depth done = 0
depth (call n flag aborts inside later) = max (suc (depth inside)) (depth later)

-- The calls of both, in order.
abbrev pub join : Calls → Calls → Calls
join done ds = ds
join (call n flag aborts inside later) ds = call n flag aborts inside (join later ds)

-- What a listener's state comes to when it is told of every call.
module _ {L : Type 0} (inner : Listener L) where
  unfoldable pub run : Calls → L → L
  run done l = l
  run (call n flag aborts inside later) l =
      let ended = run inside (inner.before n l) in
      run later (if aborts then inner.abort n ended else inner.after n ended)

  pub run-join : (cs ds : Calls) (l : L) → run (join cs ds) l ≡ run ds (run cs l)
  unfolding run
  run-join done ds l = refl
  run-join (call n flag aborts inside later) ds l =
      let ended = run inside (inner.before n l) in
      run-join later ds (if aborts then inner.abort n ended else inner.after n ended)
