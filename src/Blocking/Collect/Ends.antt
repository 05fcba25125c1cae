-- ===== src/Blocking/Collect/Ends.antt =====
-- What `BatchPop` with a timeout returns after its wait, when the producer does nothing while the
-- loop takes the other messages.
use omni_mailbox.Base.{
  ℕ, suc, ◌-◌, ◌≡◌, ◌≢◌, refl, sym, ap, ◌∙◌, Option, none, some, List, [], ◌∷◌, take, drop, ≢→==,
  arith,
}
use mathlib.Core.List.{map}
use omni_mailbox.Config.{PopResult}
use omni_mailbox.Fifo
use omni_mailbox.Fifo.{Fifo, view, pop_items, pop_batch_items}
use omni_mailbox.Spsc.{SpscQueue}
use omni_mailbox.Spsc.Invariant.{IsValid, stored}
use omni_mailbox.Consumer.{Consumer, Message, message_bytes, drain}
use omni_mailbox.Consumer.Batch.{drain_lem}
use omni_mailbox.Channel.Agree.{shown, taken, left}
use omni_mailbox.Blocking.Pop.{PopEnded}
use omni_mailbox.Blocking.Collect.{collect}
use omni_mailbox.Blocking.Collect.Among.{drain_among-still}

-- How the call may end: with the answer of the bounded queue to a batch of `n`, other than empty,
-- on a queue that the call found, or with a timeout on an empty queue, found late.
pub data BatchEnded (n : ℕ) (Found Late : SpscQueue → Type 0) (r : PopResult) (ms : List Message)
    (c' : Consumer) : Type 0 where
  collected :
      (q : SpscQueue)
      → Found q
      → IsValid q
      → (r, map (message_bytes c'.queue.buffer) ms, view c'.queue) ≡ Fifo.pop_batch n (view q)
      → r ≢ PopResult.empty
      → BatchEnded n Found Late r ms c'
  gave_up :
      r ≡ PopResult.timeout
      → ms ≡ []
      → Late c'.queue
      → stored c'.queue ≡ 0
      → BatchEnded n Found Late r ms c'

-- A call that returned, with what it returned.
pub record BatchReturned (n : ℕ) (Found Late : SpscQueue → Type 0)
    (o : Option (PopResult × List Message × Consumer)) : Type 0 where
  pub code : PopResult
  pub messages : List Message
  pub consumer : Consumer
  pub produced : o ≡ some (code, messages, consumer)
  pub valid : IsValid consumer.queue
  pub ended : BatchEnded n Found Late code messages consumer

-- A pop that takes a message is the start of a batch.
pop_items_then :
    (n : ℕ) (xs : List (List ℕ)) (f f' : Fifo) (o : Option (List ℕ))
    → (PopResult.success, o, f') ≡ pop_items xs f
    → (b : List ℕ) × (o ≡ some b)
      × (pop_batch_items xs (suc n) f
          ≡ (PopResult.success, b ∷ take n f'.items, record f' { items = drop n f'.items }))
unfolding pop_items pop_batch_items
pop_items_then n [] f f' o e = absurd (let code = ap (λ t. t.0) e in ground arith)
pop_items_then n (x ∷ xs) f f' o e =
    let rest : f' ≡ record f { items = xs } = ap (λ t. t.2) e in (x, ap (λ t. t.1) e, rw rest refl)

pub pop_then_batch :
    (n : ℕ) (f f' : Fifo) (o : Option (List ℕ))
    → (PopResult.success, o, f') ≡ Fifo.pop f
    → (b : List ℕ) × (o ≡ some b)
      × (Fifo.pop_batch (suc n) f
          ≡ (PopResult.success, b ∷ take n f'.items, record f' { items = drop n f'.items }))
unfolding Fifo.pop Fifo.pop_batch
pop_then_batch n f f' o e =
    let (b, some_b, batch) = pop_items_then n f.items f f' o e in
    (b, some_b, rw (≢→== (suc n) 0 (omega arith)) batch)

-- A pop that finds the channel closed is a batch that does.
pop_items_closed :
    (n : ℕ) (xs : List (List ℕ)) (f f' : Fifo) (o : Option (List ℕ))
    → (PopResult.channel_closed, o, f') ≡ pop_items xs f
    → pop_batch_items xs (suc n) f ≡ (PopResult.channel_closed, [], f')
unfolding pop_items pop_batch_items
pop_items_closed n [] f f' o e = ap (λ t. (t.0, [], t.2)) (sym e)
pop_items_closed n (x ∷ xs) f f' o e = absurd (let code = ap (λ t. t.0) e in ground arith)

pop_closed_batch :
    (n : ℕ) (f f' : Fifo) (o : Option (List ℕ))
    → (PopResult.channel_closed, o, f') ≡ Fifo.pop f
    → Fifo.pop_batch (suc n) f ≡ (PopResult.channel_closed, [], f')
unfolding Fifo.pop Fifo.pop_batch
pop_closed_batch n f f' o e =
    rw (≢→== (suc n) 0 (omega arith)) (pop_items_closed n f.items f f' o e)

pop_items_in_time :
    (xs : List (List ℕ)) (f f' : Fifo) (o : Option (List ℕ))
    → (PopResult.timeout, o, f') ≢ pop_items xs f
unfolding pop_items
pop_items_in_time [] f f' o e = let code = ap (λ t. t.0) e in ground arith
pop_items_in_time (x ∷ xs) f f' o e = let code = ap (λ t. t.0) e in ground arith

pub pop_in_time : (f f' : Fifo) (o : Option (List ℕ)) → (PopResult.timeout, o, f') ≢ Fifo.pop f
unfolding Fifo.pop
pop_in_time f f' o = pop_items_in_time f.items f f' o

-- The first message and those that the loop takes after it answer as a batch does.
answer :
    (n : ℕ) (q : SpscQueue) (m : Message) (c : Consumer)
    → IsValid c.queue
    → (PopResult.success, some (message_bytes c.queue.buffer m), view c.queue) ≡ Fifo.pop (view q)
    → let (ms, c') = drain n c in
      (PopResult.success, map (message_bytes c'.queue.buffer) (m ∷ ms), view c'.queue)
      ≡ Fifo.pop_batch (suc n) (view q)
answer n q m c v same =
    let (b, found, batch) = pop_then_batch n (view q) (view c.queue) _ same in
    let t = drain_lem n c v in
    let first : message_bytes c.queue.buffer m ≡ b = cc in
    let bytes = ap (λ (q : SpscQueue). message_bytes q.buffer m) t.kept ∙ first in
    (λ i. (PopResult.success, bytes i ∷ (shown t ∙ sym (taken t).0) i, sym (left t) i)) ∙ sym batch

module _ (n : ℕ) (Found Late : SpscQueue → Type 0) where
  -- The first message and those that the loop takes after it.
  collect-some :
      (q : SpscQueue) (m : Message) (c : Consumer)
      → Found q
      → IsValid q
      → IsValid c.queue
      → (PopResult.success, some (message_bytes c.queue.buffer m), view c.queue) ≡ Fifo.pop (view q)
      → BatchReturned (suc n) Found Late (collect (λ i q. q) (suc n) (PopResult.success, some m, c))
  unfolding collect
  collect-some q m c at vq v same =
      let (b, found, batch) = pop_then_batch n (view q) (view c.queue) _ same in
      let t = drain_lem n c v in
      let one_less : suc n - 1 ≡ n = omega arith in
      rw (one_less, drain_among-still n 0 c)
        (record {
          code = PopResult.success;
          messages = m ∷ (drain n c).0;
          consumer = (drain n c).1;
          produced = refl;
          valid = t.valid;
          ended = collected q at vq (answer n q m c v same) (ground arith);
        })

  pub collect_ended :
      (r : PopResult) (m : Option Message) (c : Consumer)
      → IsValid c.queue
      → PopEnded Found Late r m c
      → BatchReturned (suc n) Found Late (collect (λ i q. q) (suc n) (r, m, c))
  unfolding collect
  collect_ended r m c v (PopEnded.gave_up e none_left over nothing) = rw e (record {
    code = PopResult.timeout;
    messages = [];
    consumer = c;
    produced = refl;
    valid = v;
    ended = gave_up refl refl over nothing;
  })
  collect_ended PopResult.success (some m) c v (PopEnded.popped q at vq same other) =
      collect-some q m c at vq v same
  collect_ended PopResult.success none c v (PopEnded.popped q at vq same other) =
      absurd
        (let (b, found, batch) = pop_then_batch n (view q) (view c.queue) none same in ground arith)
  collect_ended PopResult.channel_closed m c v (PopEnded.popped q at vq same other) = record {
    code = PopResult.channel_closed;
    messages = [];
    consumer = c;
    produced = refl;
    valid = v;
    ended =
        collected q at vq (sym (pop_closed_batch n (view q) (view c.queue) _ same)) (ground arith);
  }
  collect_ended PopResult.timeout m c v (PopEnded.popped q at vq same other) =
      absurd (pop_in_time (view q) (view c.queue) _ same)
  collect_ended PopResult.empty m c v (PopEnded.popped q at vq same other) = absurd (other refl)
