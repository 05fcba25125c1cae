-- ===== src/Blocking/Collect.antt =====
-- `ConsumerHandle::BatchPop` of src/consumer_handle.cpp with a timeout: it waits for the first message
-- by `BlockingPop`, and then takes what else is stored. What the producer does before each step of
-- the wait, and before each round of the loop that follows, are functions of their number.
pub mod Among
pub mod Within
pub mod Ends
pub mod Unbounded
use omni_mailbox.Base.{
  ℕ, zero, suc, ◌+◌, ◌-◌, ◌^◌, Option, none, some, List, [], ◌∷◌, if◌then◌else◌, ◌==◌,
}
use omni_mailbox.Config.{PopResult}
use omni_mailbox.Helpers.{is_queue_empty}
use omni_mailbox.Spsc.{SpscQueue}
use omni_mailbox.Consumer.{Consumer, Message, front_message, advance, batch_pop}
use omni_mailbox.Blocking.{milliseconds_max}
use omni_mailbox.Blocking.Spinning.{spinning_pop}
use omni_mailbox.Blocking.Unbounded.{popping, unbounded_pop}

-- The loop of `BatchPop` with room for `n` more messages, from its round `t`: each loads the indices
-- again, and may find what the producer has pushed since the round before.
unfoldable pub drain_among :
    (later : ℕ → SpscQueue → SpscQueue) → ℕ → ℕ → Consumer → List Message × Consumer
drain_among later zero t c = ([], c)
drain_among later (suc n) t c =
    let seen = record c { queue = later t c.queue } in
    let q = seen.queue in
    let (ms, c') = drain_among later n (t + 1) (advance seen) in
    if is_queue_empty q.read_index q.write_index q.capacity
    then ([], seen)
    else (front_message q ∷ ms, c')

-- What follows the wait, which returned the first message or gave up. `msg.value()` throws on a
-- success without a message, which no `TryPop` returns.
pub collect :
    (later : ℕ → SpscQueue → SpscQueue)
    → ℕ
    → PopResult × Option Message × Consumer
    → Option (PopResult × List Message × Consumer)
collect later max_count (PopResult.success, some m, c) =
    let (ms, c') = drain_among later (max_count - 1) 0 c in some (PopResult.success, m ∷ ms, c')
collect later max_count (PopResult.success, none, c) = none
collect later max_count (r, m, c) = some (r, [], c)

-- `BlockingPop`, which has a deadline unless the timeout is the greatest one.
pub first_pop :
    (others : ℕ → SpscQueue → SpscQueue) (clock : ℕ → ℕ) (start timeout : ℕ)
    → ℕ
    → Consumer
    → Option (PopResult × Option Message × Consumer)
first_pop others clock start timeout fuel c =
    if timeout == milliseconds_max
    then unbounded_pop others fuel 0 popping c
    else spinning_pop others clock start timeout fuel c

pub batch_pop_within :
    (others later : ℕ → SpscQueue → SpscQueue) (clock : ℕ → ℕ) (start timeout : ℕ)
    → ℕ
    → ℕ
    → Consumer
    → Option (PopResult × List Message × Consumer)
batch_pop_within others later clock start timeout fuel max_count c =
    if max_count == 0
    then some (PopResult.empty, [], c)
    else if timeout == 0
    then some (batch_pop max_count c)
    else elim (first_pop others clock start timeout fuel c) [
      | none ↦ none
      | some first ↦ collect later max_count first
    ]
