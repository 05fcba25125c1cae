-- ===== src/Tests/Spins.antt =====
-- Spins over a counter, and waiting calls with their spins where the other thread does nothing.
use omni_mailbox.Base.{true, some, ◌*◌, ◌+◌, ◌≡◌, [], ◌∷◌, refl, false, ltb, arith}
use omni_mailbox.Spin.{spin_loop, spin_wait_with_yield}
use omni_mailbox.Spin.Looks.{Spun, spin_wait_with_yield_lem}
use omni_mailbox.Config.{PushResult}
use omni_mailbox.Helpers.{is_valid_message_size, read_size_prefix}
use omni_mailbox.Helpers.Bytes.{memcpy_from}
use omni_mailbox.Spsc.{SpscQueue}
use omni_mailbox.Spsc.Invariant.{IsValid}
use omni_mailbox.Producer.{Producer, count_failure}
use omni_mailbox.Blocking.{milliseconds_max}
use omni_mailbox.Blocking.Spinning.Expired.{default_timeout_expires}
use omni_mailbox.Blocking.Push.{Returned}
use omni_mailbox.Blocking.Pop.{PopReturned}
use omni_mailbox.Spin.Rounds.{Met, MetLate}
use omni_mailbox.Blocking.Spinning.{has_room, has_message, spinning_push, spinning_pop}
use omni_mailbox.Blocking.Spinning.Push.{spinning_push_returns}
use omni_mailbox.Blocking.Spinning.Pop.{spinning_pop_returns}
use omni_mailbox.Tests.Fixtures.{idle, idle-IsValid, reader, wrapped, wrapped-IsValid}

-- Three looks at a counter that grows by one before each.
counted :
    spin_wait_with_yield (λ t s. s + 1) (ltb 2) 5 0
    ≡ record { time = 8; state = 3; yielded = false }
unfolding spin_wait_with_yield spin_loop
counted = refl

spin_wait_with_yield_lem_example :
    Spun (λ t s. s + 1) (ltb 2) 1000 5 0 (spin_wait_with_yield (λ t s. s + 1) (ltb 2) 5 0)
spin_wait_with_yield_lem_example = spin_wait_with_yield_lem (λ t s. s + 1) (ltb 2) 5 0

spinning_push_returns_example :
    Returned
      (5 ∷ [])
      (Met (λ t q. q) has_room idle.queue)
      (MetLate (λ t q. q) has_room idle.queue (λ t. t * 1000000 + 7) 3000007)
      (spinning_push (λ t q. q) (λ t. t * 1000000 + 7) 7 3 4 (5 ∷ []) idle)
spinning_push_returns_example =
    spinning_push_returns (λ t q. q) (λ t. t * 1000000 + 7) (λ t q v. v) (λ t q. refl) (5 ∷ []) 7 3
      3 idle (omega arith) (λ t h. omega arith) idle-IsValid refl

spinning_pop_returns_example :
    PopReturned
      (Met (λ t q. q) has_message reader.queue)
      (MetLate (λ t q. q) has_message reader.queue (λ t. t + 7) 10)
      (spinning_pop (λ t q. q) (λ t. t + 7) 7 3 4 reader)
spinning_pop_returns_example =
    spinning_pop_returns (λ t q. q) (λ t. t + 7) (λ t q v. v) 7 3 3 reader (λ t h. omega arith)
      wrapped-IsValid

-- Three messages, in slots 3, 0 and 1: the queue is full.
abbrev packed : SpscQueue
packed = record wrapped {
  write_index = 2;
  buffer =
      2 ∷ 0 ∷ 0 ∷ 0 ∷ 8 ∷ 9 ∷ 0 ∷ 0 ∷ 1 ∷ 0 ∷ 0 ∷ 0 ∷ 6 ∷ 0 ∷ 0 ∷ 0 ∷ 0 ∷ 0 ∷ 0 ∷ 0 ∷ 0 ∷ 0 ∷ 0 ∷ 0
      ∷ 1 ∷ 0 ∷ 0 ∷ 0 ∷ 7 ∷ 0 ∷ 0 ∷ 0 ∷ [];
}

packed-IsValid : IsValid packed
unfolding memcpy_from read_size_prefix
packed-IsValid = record {
  power = (2, refl);
  capacity_high = omega arith;
  message_high = omega arith;
  slot_low = omega arith;
  slot_high = omega arith;
  storage = refl;
  fits_w = omega arith;
  fits_r = omega arith;
  room = omega arith;
  sized = omega arith;
}

abbrev stuck : Producer
stuck = record idle { queue = packed }

five_fits : is_valid_message_size 1 packed.max_message_size ≡ true
unfolding is_valid_message_size
five_fits = refl

default_timeout_expires_example :
    spinning_push (λ t q. q) (λ t. t + 7) 7 milliseconds_max 1 (5 ∷ []) stuck
    ≡ some (PushResult.timeout, count_failure stuck)
default_timeout_expires_example =
    default_timeout_expires (λ t q. q) (λ t. t + 7) (5 ∷ []) stuck
      (record { queue_valid = packed-IsValid; reserved = λ k e. cc }) refl 7 0 (omega arith)
      (omega arith) five_fits packed-IsValid refl (omega arith)
