-- ===== src/Spin.antt =====
-- include/omni/detail/wait_strategy.hpp: `SpinWaitWithYield`, over a shared state that other threads
-- change. A look is the call of `try_operation`; what the others do before the look at time `t` is
-- an argument, and so is the predicate.
pub mod Looks
pub mod Rounds
use omni_mailbox.Base.{ℕ, zero, suc, ◌+◌, Bool, true, false, if◌then◌else◌}

-- `SPIN_COUNT`
abbrev pub spin_count : ℕ
spin_count = 1000

-- The time after the call, the state that the last look found, and whether the thread yielded.
pub record Waited (S : Type 0) : Type 0 where
  pub time : ℕ
  pub state : S
  pub yielded : Bool

module _ {S : Type 0} (others : ℕ → S → S) (try_operation : S → Bool) where
  -- The loop, with `n` looks left.
  unfoldable pub spin_loop : ℕ → ℕ → S → Waited S
  spin_loop zero t s = record { time = t; state = s; yielded = true }
  spin_loop (suc n) t s =
      let rest = spin_loop n (t + 1) (others t s) in
      if try_operation (others t s)
      then record { time = t + 1; state = others t s; yielded = false }
      else rest

  unfoldable pub spin_wait_with_yield : ℕ → S → Waited S
  spin_wait_with_yield t s = spin_loop spin_count t s
