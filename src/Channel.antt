-- ===== src/Channel.antt =====
-- A channel: the shared queue with the two handles over it. A call on a handle runs on the queue
-- as it then is, and leaves its changes in it; the calls of the two threads are taken one at a
-- time, in any order.
pub mod Agree
pub mod Refine
pub mod Queries
pub mod Overwritten
pub mod Api
pub mod Answers
use omni_mailbox.Base.{ℕ, Bool, false, List, [], ◌∷◌, Option, none, some}
use mathlib.Core.List.{map}
use omni_mailbox.Config.{PushResult, PopResult}
use omni_mailbox.Fifo
use omni_mailbox.Fifo.{Fifo}
use omni_mailbox.Spsc.{SpscQueue}
use omni_mailbox.Producer.{Producer, try_push, batch_push, close_producer}
use omni_mailbox.Consumer.{Consumer, try_pop, batch_pop, close_consumer, message_bytes}
use omni_mailbox.Consumer.Pop.{popped_bytes}

pub record Channel : Type 0 where
  pub queue : SpscQueue
  pub producer : Producer
  pub consumer : Consumer

-- The producer's handle as its thread finds it.
abbrev pub sender : Channel → Producer
sender ch = record ch.producer { queue = ch.queue }

abbrev pub receiver : Channel → Consumer
receiver ch = record ch.consumer { queue = ch.queue }

abbrev pub after_producer : Channel → Producer → Channel
after_producer ch p = record ch { queue = p.queue; producer = p }

abbrev pub after_consumer : Channel → Consumer → Channel
after_consumer ch c = record ch { queue = c.queue; consumer = c }

-- The calls of the two threads that keep no reservation and do not wait.
pub data Call : Type 0 where
  push : List ℕ → Call
  push_batch : List (List ℕ) → Call
  pop : Call
  pop_batch : ℕ → Call
  end_producer : Call
  end_consumer : Call

-- What a call returns, with the bytes that a returned message shows at that moment.
pub data Reply : Type 0 where
  pushed : PushResult → Reply
  batch_pushed : ℕ → Reply
  popped : PopResult → Option (List ℕ) → Reply
  batch_popped : PopResult → List (List ℕ) → Reply
  ended : Reply

pub step : Call → Channel → Reply × Channel
step (push m) ch = let (r, p) = try_push m (sender ch) in (pushed r, after_producer ch p)
step (push_batch ms) ch =
    let (n, p) = batch_push ms (sender ch) in (batch_pushed n, after_producer ch p)
step pop ch =
    let (r, m, c) = try_pop (receiver ch) in
    (popped r (popped_bytes c.queue.buffer m), after_consumer ch c)
step (pop_batch n) ch =
    let (r, ms, c) = batch_pop n (receiver ch) in
    (batch_popped r (map (message_bytes c.queue.buffer) ms), after_consumer ch c)
step end_producer ch = (ended, record ch { queue = close_producer (sender ch) })
step end_consumer ch = (ended, record ch { queue = close_consumer (receiver ch) })

pub run : List Call → Channel → List Reply
run [] ch = []
run (x ∷ xs) ch = (step x ch).0 ∷ run xs (step x ch).1

-- The same calls on the bounded queue.
unfoldable pub fifo_step : Call → Fifo → Reply × Fifo
fifo_step (push m) f = let (r, f') = Fifo.push m f in (pushed r, f')
fifo_step (push_batch ms) f = let (n, f') = Fifo.push_batch ms f in (batch_pushed n, f')
fifo_step pop f = let (r, m, f') = Fifo.pop f in (popped r m, f')
fifo_step (pop_batch n) f = let (r, ms, f') = Fifo.pop_batch n f in (batch_popped r ms, f')
fifo_step end_producer f = (ended, record f { producer_alive = false })
fifo_step end_consumer f = (ended, record f { consumer_alive = false })

pub fifo_run : List Call → Fifo → List Reply
fifo_run [] f = []
fifo_run (x ∷ xs) f = (fifo_step x f).0 ∷ fifo_run xs (fifo_step x f).1
