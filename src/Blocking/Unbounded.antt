-- ===== src/Blocking/Unbounded.antt =====
-- `ConsumerHandle::BlockingPop` of src/consumer_handle.cpp with the timeout `milliseconds::max()`,
-- the default: it sleeps in `write_index.wait` in place of looking at a clock. What the other
-- thread does to the queue before each step is an argument. `wait` returns when it sees another
-- value than the one it was given: a store that changes `write_index` is followed by a
-- `notify_one`, and a notification that comes without a change does not end the wait.
pub mod Steps
pub mod Returns
pub mod Sleep
pub mod Overtaken
use omni_mailbox.Base.{ℕ, zero, suc, ◌+◌, Option, none, some, if◌then◌else◌, not, ◌==◌}
use omni_mailbox.Config.{PopResult}
use omni_mailbox.Spsc.{SpscQueue}
use omni_mailbox.Consumer
use omni_mailbox.Consumer.{Consumer, Message, try_pop}
use omni_mailbox.Blocking.{is_final}

-- Where the call stands.
pub data Pause : Type 0 where
  popping : Pause  -- before a `TryPop`
  looking : Pause  -- before the loads of both indices
  checking : (current_write : ℕ) → Pause  -- before the load of `producer_alive`
  asleep : (current_write : ℕ) → Pause  -- in `write_index.wait`

-- What a step leads to.
pub data Progress : Type 0 where
  waits : (at : Pause) (c : Consumer) → Progress
  returns : (r : PopResult) (m : Option Message) (c : Consumer) → Progress

pub pause_step : Pause → Consumer → Progress
pause_step popping c =
    let (r, m, c') = try_pop c in if is_final r then returns r m c' else waits looking c'
pause_step looking c =
    let current_write = c.queue.write_index in
    let current_read = c.queue.read_index in
    waits (if not (current_write == current_read) then popping else checking current_write) c
pause_step (checking w) c =
    if not c.queue.producer_alive
    then returns PopResult.channel_closed none (Consumer.count_failure c)
    else waits (asleep w) c
pause_step (asleep w) c = waits (if c.queue.write_index == w then asleep w else looking) c

-- The handle as a step finds it.
abbrev pub meets : SpscQueue → Consumer → Consumer
meets q c = record c { queue = q }

-- The steps of a call that stands at a given place, in the `i`-th of which the other thread has
-- done `others i`.
pub unbounded_pop :
    (others : ℕ → SpscQueue → SpscQueue)
    → ℕ
    → ℕ
    → Pause
    → Consumer
    → Option (PopResult × Option Message × Consumer)
unbounded_pop others zero i at c = none
unbounded_pop others (suc fuel) i at c = elim (pause_step at (meets (others i c.queue) c)) [
  | waits at' c' ↦ unbounded_pop others fuel (i + 1) at' c'
  | returns r m c' ↦ some (r, m, c')
]
