-- ===== src/Blocking.antt =====
-- `ProducerHandle::BlockingPush` of src/producer_handle.cpp and `ConsumerHandle::BlockingPop` of
-- src/consumer_handle.cpp with a finite timeout, as rounds of their loops. What the other thread
-- does to the queue by each round and what the clock reads in it are arguments; the spin
-- between two rounds only reads. The fuel bounds the number of rounds.
pub mod Found
pub mod Push
pub mod Pop
pub mod Unbounded
pub mod Collect
pub mod Spinning
use omni_mailbox.Base.{
  ◌-◌, ◌*◌, ◌%◌, ◌^◌, ltb, true, false, ℕ, zero, suc, ◌+◌, Bool, Option, none, some, List, length,
  if◌then◌else◌, not, leb,
}
use omni_mailbox.Config.{PushResult, PopResult}
use omni_mailbox.Helpers.{is_valid_message_size}
use omni_mailbox.Spsc.{SpscQueue}
use omni_mailbox.Producer
use omni_mailbox.Producer.{Producer, reserve, fill_and_commit}
use omni_mailbox.Consumer
use omni_mailbox.Consumer.{Consumer, Message, try_pop}

-- The handle as a round finds it.
abbrev pub arrives : SpscQueue → Producer → Producer
arrives q p = record p { queue = q }

pub blocking_push_loop :
    (others : ℕ → SpscQueue → SpscQueue) (clock : ℕ → ℕ) (deadline : ℕ)
    → ℕ
    → ℕ
    → List ℕ
    → Producer
    → Option (PushResult × Producer)
blocking_push_loop others clock deadline zero i source p = none
blocking_push_loop others clock deadline (suc fuel) i source p =
    let seen = arrives (others i p.queue) p in
    let (result, p') = reserve (length source) seen in
    let rest = blocking_push_loop others clock deadline fuel (i + 1) source p' in
    if not seen.queue.consumer_alive
    then some (PushResult.channel_closed, Producer.count_failure seen)
    else elim result [
      | some r ↦ some (fill_and_commit r.destination source p')
      | none ↦
          if leb deadline (clock i)
          then some (PushResult.timeout, Producer.count_failure p')
          else rest
    ]

-- `std::chrono::milliseconds::max()`
abbrev pub milliseconds_max : ℕ
milliseconds_max = 2 ^ 63 - 1

-- `steady_clock::now() + timeout`: milliseconds are added to a signed count of nanoseconds, of 64
-- bits. A sum that does not fit wraps to a negative count, which lies before every reading.
unfoldable pub deadline_after : (start timeout : ℕ) → ℕ
deadline_after start timeout =
    let sum = (start + timeout * 1000000) % 2 ^ 64 in if ltb sum (2 ^ 63) then sum else 0

-- The call, with a clock that reads `start` when it begins, in nanoseconds.
pub blocking_push :
    (others : ℕ → SpscQueue → SpscQueue) (clock : ℕ → ℕ) (start timeout : ℕ)
    → ℕ
    → List ℕ
    → Producer
    → Option (PushResult × Producer)
blocking_push others clock start timeout fuel source p =
    let rounds = blocking_push_loop others clock (deadline_after start timeout) fuel 0 source p in
    if not (is_valid_message_size (length source) p.queue.max_message_size)
    then some (PushResult.invalid_size, Producer.count_failure p)
    else rounds

-- The codes at which `BlockingPop` returns at once.
abbrev pub is_final : PopResult → Bool
is_final PopResult.success = true
is_final PopResult.channel_closed = true
is_final _ = false

pub blocking_pop_loop :
    (others : ℕ → SpscQueue → SpscQueue) (clock : ℕ → ℕ) (deadline : ℕ)
    → ℕ
    → ℕ
    → Consumer
    → Option (PopResult × Option Message × Consumer)
blocking_pop_loop others clock deadline zero i c = none
blocking_pop_loop others clock deadline (suc fuel) i c =
    let (r, m, c') = try_pop (record c { queue = others i c.queue }) in
    let rest = blocking_pop_loop others clock deadline fuel (i + 1) c' in
    if is_final r
    then some (r, m, c')
    else if leb deadline (clock i)
    then some (PopResult.timeout, none, Consumer.count_failure c')
    else rest

-- The call with a finite timeout, with a clock that reads `start` when it begins.
pub blocking_pop :
    (others : ℕ → SpscQueue → SpscQueue) (clock : ℕ → ℕ) (start timeout : ℕ)
    → ℕ
    → Consumer
    → Option (PopResult × Option Message × Consumer)
blocking_pop others clock start timeout fuel c =
    let (r, m, c') = try_pop c in
    let rounds = blocking_pop_loop others clock (start + timeout) fuel 0 c' in
    if is_final r then some (r, m, c') else rounds
