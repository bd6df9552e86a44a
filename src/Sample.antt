-- ===== src/Sample.antt =====
-- sample.go: the listeners that let some calls through to another listener (`Flag`, `Sample`), and
-- the stack of bits on which they remember, for each call under way, whether it was let through.
pub mod Bits
pub mod Calls
pub mod Every
pub mod Functions
pub mod Gate
mod Tests
use wzprof.Base.{
  ℕ, zero, suc, ◌+◌, ◌-◌, ◌*◌, ◌/◌, ◌%◌, ◌^◌, ◌≤◌, ◌<◌, bit_and, bit_or, List, [], ◌∷◌, ◌++◌, Bool,
  true, false, ltb, ◌==◌, if◌then◌else◌, length, get_or, set, replicate, Outcome, ok, panic, ◌>>=◌,
}
use wzprof.Base.Words.{sub32}

-- `bitstack`. `uint` has 64 bits.
pub record Bitstack : Type 0 where
  pub size : ℕ
  pub bits : List ℕ

-- The `make` and `copy` of `push`, which run when the index is past the end.
grow : List ℕ → ℕ → List ℕ
grow bits index =
    if ltb index (length bits) then bits else bits ++ replicate (index + 1 - length bits) 0

-- `s.bits[index] &= ^(uint64(1) << shift)`, then `|= uint64(bit&1) << shift`.
put_bit : ℕ → ℕ → ℕ → ℕ
put_bit word shift bit = bit_or (bit_and word (2 ^ 64 - 1 - 2 ^ shift)) (bit % 2 * 2 ^ shift)

pub push : Bitstack → ℕ → Bitstack
unfolding grow put_bit
push s bit =
    let index = s.size / 64 in
    let bits = grow s.bits index in
    record {
      size = (s.size + 1) % 2 ^ 64;
      bits = set bits index (put_bit (get_or bits index 0) (s.size % 64) bit);
    }

-- `size` wraps on the empty stack; the index is checked by the slice access.
pub pop : Bitstack → Outcome (ℕ × Bitstack)
pop s =
    let size = (s.size + (2 ^ 64 - 1)) % 2 ^ 64 in
    let index = size / 64 in
    if ltb index (length s.bits)
    then ok (get_or s.bits index 0 / 2 ^ (size % 64) % 2, record s { size = size })
    else panic

-- `experimental.FunctionListener`, as far as the wrappers use it: what its three methods do to its
-- state, for the call with the given number.
pub record Listener (L : Type 0) : Type 0 where
  pub before : ℕ → L → L
  pub after : ℕ → L → L
  pub abort : ℕ → L → L

-- The stack as the constructors make it: one word, and no bit in use.
abbrev pub fresh_stack : Bitstack
fresh_stack = record { size = 0; bits = 0 ∷ [] }

-- `sampledFunctionListener`, without the wrapped listener.
pub record Sampled : Type 0 where
  pub count : ℕ
  pub cycle : ℕ
  pub stack : Bitstack

-- `Flag`'s wrapper, without the wrapped listener. The flag is the application's: it is read in
-- `before` and given there.
pub record Flagged : Type 0 where
  pub stack : Bitstack

module _ {L : Type 0} (inner : Listener L) where
  pub sampled_before : ℕ → Sampled × L → Sampled × L
  sampled_before call (s, l) =
      let count = sub32 s.count 1 in
      if count == 0
      then (record s { count = s.cycle; stack = push s.stack 1 }, inner.before call l)
      else (record s { count = count; stack = push s.stack 0 }, l)

  -- `After` and `Abort` differ in the method that they forward to.
  pub sampled_after : ℕ → Sampled × L → Outcome (Sampled × L)
  sampled_after call (s, l) = do
    (bit, stack) ← pop s.stack
    ok (record s { stack = stack }, if bit == 0 then l else inner.after call l)

  pub sampled_abort : ℕ → Sampled × L → Outcome (Sampled × L)
  sampled_abort call (s, l) = do
    (bit, stack) ← pop s.stack
    ok (record s { stack = stack }, if bit == 0 then l else inner.abort call l)

  pub flagged_before : Bool → ℕ → Flagged × L → Flagged × L
  flagged_before flag call (s, l) =
      if flag
      then (record { stack = push s.stack 1 }, inner.before call l)
      else (record { stack = push s.stack 0 }, l)

  pub flagged_after : ℕ → Flagged × L → Outcome (Flagged × L)
  flagged_after call (s, l) = do
    (bit, stack) ← pop s.stack
    ok (record { stack = stack }, if bit == 0 then l else inner.after call l)

  pub flagged_abort : ℕ → Flagged × L → Outcome (Flagged × L)
  flagged_abort call (s, l) = do
    (bit, stack) ← pop s.stack
    ok (record { stack = stack }, if bit == 0 then l else inner.abort call l)

-- The state that `Sample` gives a listener at a rate between 0 and 1: the first call let through is
-- the `cycle`-th. `cycle` is `uint32(math.Ceil(1 / sampleRate))`.
pub sampled_start : ℕ → Sampled
sampled_start cycle = record { count = cycle; cycle = cycle; stack = fresh_stack }

pub flagged_start : Flagged
flagged_start = record { stack = fresh_stack }

-- The factory that `Sample` returns. A rate is a Go float; the argument is what the code asks of it.
pub data Factory : Type 0 where
  empty : Factory
  same : Factory
  every : ℕ → Factory

pub record Rate : Type 0 where
  pub at_most_zero : Bool
  pub at_least_one : Bool
  pub ceil_inverse : ℕ

pub sample : Rate → Factory
sample rate =
    if rate.at_most_zero
    then empty
    else if rate.at_least_one
    then same
    else every (rate.ceil_inverse % 2 ^ 32)
