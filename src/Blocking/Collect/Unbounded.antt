-- ===== src/Blocking/Collect/Unbounded.antt =====
-- `ConsumerHandle::BatchPop` of src/consumer_handle.cpp with the timeout `milliseconds::max()`: its
-- wait is the unbounded `BlockingPop`.
use omni_mailbox.Base.{
  ℕ, zero, suc, ◌+◌, ◌<◌, ◌≡◌, ◌≢◌, refl, ap, ◌∙◌, false, Option, none, some, List, [],
  if◌then◌else◌, ◌==◌, ≢→==, arith,
}
use mathlib.Core.List.{map}
use omni_mailbox.Config.{PopResult}
use omni_mailbox.Fifo
use omni_mailbox.Fifo.{Fifo, view}
use omni_mailbox.Spsc.{SpscQueue}
use omni_mailbox.Spsc.Invariant.{IsValid, stored}
use omni_mailbox.Consumer.{Consumer, Message, message_bytes}
use omni_mailbox.Blocking.Pop.{PopEnded}
use omni_mailbox.Blocking.Unbounded.{popping, unbounded_pop}
use omni_mailbox.Blocking.Unbounded.Returns.{ProducerWork, WaitEnded, unbounded_pop_returns}
use omni_mailbox.Blocking.Collect.{collect}
use omni_mailbox.Blocking.Collect.Ends.{BatchEnded, BatchReturned, collect_ended}

pub batch_pop_unbounded :
    (others later : ℕ → SpscQueue → SpscQueue)
    → ℕ
    → ℕ
    → Consumer
    → Option (PopResult × List Message × Consumer)
batch_pop_unbounded others later fuel max_count c =
    if max_count == 0
    then some (PopResult.empty, [], c)
    else elim (unbounded_pop others fuel 0 popping c) [
      | none ↦ none
      | some first ↦ collect later max_count first
    ]

-- How the call may end: with the answer of the bounded queue to a batch of `n`, other than empty,
-- on the queue that it met in some step, or closed, when it met a producer that is gone.
pub data BatchWaitEnded (queues : ℕ → SpscQueue) (n : ℕ) (r : PopResult) (ms : List Message)
    (c' : Consumer) : Type 0 where
  collected :
      (i : ℕ)
      → (r, map (message_bytes c'.queue.buffer) ms, view c'.queue)
        ≡ Fifo.pop_batch n (view (queues i))
      → r ≢ PopResult.empty
      → BatchWaitEnded queues n r ms c'
  closed :
      (i : ℕ)
      → r ≡ PopResult.channel_closed
      → ms ≡ []
      → c'.queue ≡ queues i
      → (queues i).producer_alive ≡ false
      → BatchWaitEnded queues n r ms c'

-- A call that returned, with what it returned.
pub record BatchReceived (queues : ℕ → SpscQueue) (n : ℕ)
    (o : Option (PopResult × List Message × Consumer)) : Type 0 where
  pub code : PopResult
  pub messages : List Message
  pub consumer : Consumer
  pub produced : o ≡ some (code, messages, consumer)
  pub valid : IsValid consumer.queue
  pub ended : BatchWaitEnded queues n code messages consumer

module _ (queues : ℕ → SpscQueue) (work : ProducerWork queues) (n : ℕ) where
  abbrev InStep : SpscQueue → Type 0
  InStep q = (i : ℕ) × (q ≡ queues i)

  -- The wait never gives up.
  without_deadline :
      {o : Option (PopResult × List Message × Consumer)}
      → BatchReturned (suc n) InStep (λ q. ⊥) o
      → BatchReceived queues (suc n) o
  without_deadline r = record {
    code = r.code;
    messages = r.messages;
    consumer = r.consumer;
    produced = r.produced;
    valid = r.valid;
    ended = elim r.ended [
      | BatchEnded.collected q (i, at) v same other ↦
          BatchWaitEnded.collected i (same ∙ ap (λ s. Fifo.pop_batch (suc n) (view s)) at) other
      | BatchEnded.gave_up code no_messages late nothing ↦ absurd late
    ];
  }

  collect_received :
      (r : PopResult) (m : Option Message) (c : Consumer)
      → IsValid c.queue
      → WaitEnded queues r m c
      → BatchReceived queues (suc n) (collect (λ i q. q) (suc n) (r, m, c))
  collect_received r m c v (WaitEnded.popped i same other) = without_deadline (
      collect_ended n InStep (λ q. ⊥) r m c v
        (PopEnded.popped (queues i) (i, refl) (work.valid i) same other))
  collect_received r m c v (WaitEnded.closed i e nothing at dead) =
      unfold collect in
      rw e (record {
        code = PopResult.channel_closed;
        messages = [];
        consumer = c;
        produced = refl;
        valid = v;
        ended = BatchWaitEnded.closed i refl refl at dead;
      })

-- If every queue that the producer's work leaves is valid, never holds fewer messages than the one
-- before and has the consumer's index untouched, a message is stored before step `k`, and the
-- producer does nothing between the end of the wait and the return of the call, an unbounded `BatchPop` of `max_count > 0` messages returns within `k + 4` steps of its wait and
-- leaves the queue valid: with the answer of `Fifo.pop_batch`, other than empty, on a queue that it
-- met, or with `ChannelClosed` and no message on a queue whose producer is gone.
pub batch_pop_unbounded_returns :
    (queues : ℕ → SpscQueue) (k max_count : ℕ) (c : Consumer)
    → ProducerWork queues
    → 0 < max_count
    → stored (queues k) ≢ 0
    → BatchReceived queues max_count
        (batch_pop_unbounded (λ i q. queues i) (λ i q. q) (k + 4) max_count c)
batch_pop_unbounded_returns queues k zero c work some_room some_left = absurd (omega arith)
batch_pop_unbounded_returns queues k (suc n) c work some_room some_left =
    let r = unbounded_pop_returns queues k c work some_left in
    unfold batch_pop_unbounded in
    rw (≢→== (suc n) 0 (omega arith), r.produced)
      (collect_received queues work n r.code r.message r.consumer r.valid r.ended)
