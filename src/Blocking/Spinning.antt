-- ===== src/Blocking/Spinning.antt =====
-- `BlockingPush` of src/producer_handle.cpp and `BlockingPop` of src/consumer_handle.cpp with a
-- finite timeout, with the spin between two attempts: the other thread may change the queue before
-- each look of the spin, not only once in a round. Time counts the attempts and the looks; what the
-- other thread does before each, and what the clock reads, are functions of it.
pub mod Met
pub mod Push
pub mod Expired
pub mod Pop
use omni_mailbox.Base.{
  ℕ, zero, suc, ◌+◌, Bool, Option, none, some, List, length, if◌then◌else◌, not, leb,
}
use omni_mailbox.Config.{PushResult, PopResult}
use omni_mailbox.Helpers.{is_valid_message_size, is_queue_full, is_queue_empty}
use omni_mailbox.Spsc.{SpscQueue}
use omni_mailbox.Producer
use omni_mailbox.Producer.{Producer, reserve, fill_and_commit}
use omni_mailbox.Consumer
use omni_mailbox.Consumer.{Consumer, Message, try_pop}
use omni_mailbox.Spin.{spin_wait_with_yield}
use omni_mailbox.Blocking.{arrives, deadline_after, is_final}

-- The predicate of the spin of `BlockingPush`.
unfoldable pub has_room : SpscQueue → Bool
has_room q = not (is_queue_full q.write_index q.read_index q.capacity)

-- The predicate of the spin of `BlockingPop`.
unfoldable pub has_message : SpscQueue → Bool
has_message q = not (is_queue_empty q.read_index q.write_index q.capacity)

module _ (others : ℕ → SpscQueue → SpscQueue) (clock : ℕ → ℕ) where
  -- The loop of `BlockingPush` from time `t`; the fuel bounds the number of attempts.
  pub spinning_push_loop :
      (deadline : ℕ) → ℕ → ℕ → List ℕ → Producer → Option (PushResult × Producer)
  spinning_push_loop deadline zero t source p = none
  spinning_push_loop deadline (suc fuel) t source p =
      let seen = arrives (others t p.queue) p in
      let (result, p') = reserve (length source) seen in
      let w = spin_wait_with_yield others has_room (t + 1) p'.queue in
      let rest = spinning_push_loop deadline fuel w.time source (arrives w.state p') in
      if not seen.queue.consumer_alive
      then some (PushResult.channel_closed, Producer.count_failure seen)
      else elim result [
        | some r ↦ some (fill_and_commit r.destination source p')
        | none ↦
            if leb deadline (clock t)
            then some (PushResult.timeout, Producer.count_failure p')
            else rest
      ]

  pub spinning_push : (start timeout : ℕ) → ℕ → List ℕ → Producer → Option (PushResult × Producer)
  spinning_push start timeout fuel source p =
      let attempts = spinning_push_loop (deadline_after start timeout) fuel 0 source p in
      if not (is_valid_message_size (length source) p.queue.max_message_size)
      then some (PushResult.invalid_size, Producer.count_failure p)
      else attempts

  -- The loop of `BlockingPop` from time `t`.
  pub spinning_pop_loop :
      (deadline : ℕ) → ℕ → ℕ → Consumer → Option (PopResult × Option Message × Consumer)
  spinning_pop_loop deadline zero t c = none
  spinning_pop_loop deadline (suc fuel) t c =
      let (r, m, c') = try_pop (record c { queue = others t c.queue }) in
      let w = spin_wait_with_yield others has_message (t + 1) c'.queue in
      let rest = spinning_pop_loop deadline fuel w.time (record c' { queue = w.state }) in
      if is_final r
      then some (r, m, c')
      else if leb deadline (clock t)
      then some (PopResult.timeout, none, Consumer.count_failure c')
      else rest

  pub spinning_pop :
      (start timeout : ℕ) → ℕ → Consumer → Option (PopResult × Option Message × Consumer)
  spinning_pop start timeout fuel c =
      let (r, m, c') = try_pop c in
      let attempts = spinning_pop_loop (start + timeout) fuel 0 c' in
      if is_final r then some (r, m, c') else attempts
