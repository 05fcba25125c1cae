-- ===== src/Blocking/Collect/Within.antt =====
-- `BatchPop` with a finite timeout returns when the deadline is reached, and what it returns.
use omni_mailbox.Base.{
  ℕ, zero, suc, ◌+◌, ◌-◌, ◌≤◌, ◌<◌, ◌≡◌, ◌≢◌, refl, ap, Option, none, some, List, [], ◌∷◌, ≢→==,
  arith,
}
use omni_mailbox.Config.{PopResult}
use omni_mailbox.Fifo
use omni_mailbox.Fifo.{Fifo, view, pop_items}
use omni_mailbox.Spsc.{SpscQueue}
use omni_mailbox.Spsc.Invariant.{IsValid, stored}
use omni_mailbox.Consumer.{Consumer, Message, message_bytes}
use omni_mailbox.Spin.Rounds.{Met, MetLate}
use omni_mailbox.Blocking.{milliseconds_max}
use omni_mailbox.Blocking.Pop.{PopEnded}
use omni_mailbox.Blocking.Spinning.{has_message}
use omni_mailbox.Blocking.Spinning.Pop.{spinning_pop_returns}
use omni_mailbox.Blocking.Collect.{drain_among, collect, first_pop, batch_pop_within}
use omni_mailbox.Blocking.Collect.Among.{Drained, drain_among-Drained}
use omni_mailbox.Blocking.Collect.Ends.{pop_then_batch, pop_in_time}

-- How the call may end: with the first message, popped from a queue that the wait found, and those
-- that the loop took after it, `n + 1` at most; closed, as the wait found the queue; or with a
-- timeout on an empty queue, found late.
pub data WithinEnded (later : ℕ → SpscQueue → SpscQueue) (n : ℕ) (Found Late : SpscQueue → Type 0)
    (r : PopResult) (ms : List Message) (c' : Consumer) : Type 0 where
  collected :
      (q q' : SpscQueue) (m : Message) (rest : List Message)
      → Found q
      → IsValid q
      → r ≡ PopResult.success
      → ms ≡ m ∷ rest
      → (PopResult.success, some (message_bytes q'.buffer m), view q') ≡ Fifo.pop (view q)
      → Drained later n 0 q' rest c'.queue
      → WithinEnded later n Found Late r ms c'
  closed :
      (q : SpscQueue)
      → Found q
      → IsValid q
      → r ≡ PopResult.channel_closed
      → ms ≡ []
      → (PopResult.channel_closed, none, view c'.queue) ≡ Fifo.pop (view q)
      → WithinEnded later n Found Late r ms c'
  gave_up :
      r ≡ PopResult.timeout
      → ms ≡ []
      → Late c'.queue
      → stored c'.queue ≡ 0
      → WithinEnded later n Found Late r ms c'

-- A call that returned, with what it returned.
pub record WithinReturned (later : ℕ → SpscQueue → SpscQueue) (n : ℕ)
    (Found Late : SpscQueue → Type 0) (o : Option (PopResult × List Message × Consumer))
    : Type 0 where
  pub code : PopResult
  pub messages : List Message
  pub consumer : Consumer
  pub produced : o ≡ some (code, messages, consumer)
  pub valid : IsValid consumer.queue
  pub ended : WithinEnded later n Found Late code messages consumer

-- A closed channel hands out no message.
items_closed :
    (xs : List (List ℕ)) (f f' : Fifo) (b : List ℕ)
    → (PopResult.channel_closed, some b, f') ≢ pop_items xs f
unfolding pop_items
items_closed [] f f' b e = let none_found = ap (λ t. t.1) e in ground arith
items_closed (x ∷ xs) f f' b e = let code = ap (λ t. t.0) e in ground arith

pop_closed_none : (f f' : Fifo) (b : List ℕ) → (PopResult.channel_closed, some b, f') ≢ Fifo.pop f
unfolding Fifo.pop
pop_closed_none f f' b = items_closed f.items f f' b

module _ (later : ℕ → SpscQueue → SpscQueue)
    (keeps : (t : ℕ) (q : SpscQueue) → IsValid q → IsValid (later t q)) (n : ℕ)
    (Found Late : SpscQueue → Type 0) where
  abbrev Ends : Option (PopResult × List Message × Consumer) → Type 0
  Ends o = WithinReturned later n Found Late o

  after_first :
      (q : SpscQueue) (m : Message) (c : Consumer)
      → Found q
      → IsValid q
      → IsValid c.queue
      → (PopResult.success, some (message_bytes c.queue.buffer m), view c.queue) ≡ Fifo.pop (view q)
      → Ends (collect later (suc n) (PopResult.success, some m, c))
  unfolding collect
  after_first q m c at vq v same =
      let (drained, valid) = drain_among-Drained later keeps n 0 c v in
      let one_less : suc n - 1 ≡ n = omega arith in
      rw one_less (record {
        code = PopResult.success;
        messages = m ∷ (drain_among later n 0 c).0;
        consumer = (drain_among later n 0 c).1;
        produced = refl;
        valid = valid;
        ended = collected q c.queue m _ at vq refl refl same drained;
      })

  after_wait :
      (r : PopResult) (m : Option Message) (c : Consumer)
      → IsValid c.queue
      → PopEnded Found Late r m c
      → Ends (collect later (suc n) (r, m, c))
  unfolding collect
  after_wait r m c v (PopEnded.gave_up e none_left over nothing) = rw e (record {
    code = PopResult.timeout;
    messages = [];
    consumer = c;
    produced = refl;
    valid = v;
    ended = gave_up refl refl over nothing;
  })
  after_wait PopResult.success (some m) c v (PopEnded.popped q at vq same other) =
      after_first q m c at vq v same
  after_wait PopResult.success none c v (PopEnded.popped q at vq same other) =
      absurd
        (let (b, found, batch) = pop_then_batch n (view q) (view c.queue) none same in ground arith)
  after_wait PopResult.channel_closed none c v (PopEnded.popped q at vq same other) = record {
    code = PopResult.channel_closed;
    messages = [];
    consumer = c;
    produced = refl;
    valid = v;
    ended = closed q at vq refl refl same;
  }
  after_wait PopResult.channel_closed (some m) c v (PopEnded.popped q at vq same other) =
      absurd (pop_closed_none (view q) (view c.queue) _ same)
  after_wait PopResult.timeout m c v (PopEnded.popped q at vq same other) =
      absurd (pop_in_time (view q) (view c.queue) _ same)
  after_wait PopResult.empty m c v (PopEnded.popped q at vq same other) = absurd (other refl)

-- If, on a valid queue, the clock has reached the deadline from the attempt or look `T` of the
-- wait on, and the producer's work before each of these and before each round of the loop that
-- follows keeps the queue valid, `BatchPop` of `max_count > 0` messages with a positive timeout other
-- than `milliseconds::max()` returns after at most `T + 1` attempts of its wait and leaves the queue
-- valid: with the message that `Fifo.pop` hands out of a queue that its wait met, and after it those
-- that `Fifo.pop` hands out of the queues that the rounds of the loop find, until there are
-- `max_count` or a round finds none; with `ChannelClosed` and no message, as `Fifo.pop` answers on a
-- queue that its wait met; or with `Timeout` and no message on an empty queue that it met after the
-- deadline.
pub batch_pop_within_returns :
    (others later : ℕ → SpscQueue → SpscQueue) (clock : ℕ → ℕ)
    → ((t : ℕ) (q : SpscQueue) → IsValid q → IsValid (others t q))
    → ((t : ℕ) (q : SpscQueue) → IsValid q → IsValid (later t q))
    → (start timeout T max_count : ℕ) (c : Consumer) → IsValid c.queue
    → 0 < max_count
    → 0 < timeout
    → timeout ≢ milliseconds_max
    → ((t : ℕ) → T ≤ t → start + timeout ≤ clock t)
    → WithinReturned later
        (max_count - 1)
        (Met others has_message c.queue)
        (MetLate others has_message c.queue clock (start + timeout))
        (batch_pop_within others later clock start timeout (suc T) max_count c)
unfolding batch_pop_within first_pop
batch_pop_within_returns others later clock keeps goes_on start timeout T zero c v some_room waits
      finite late =
    absurd (omega arith)
batch_pop_within_returns others later clock keeps goes_on start timeout T (suc n) c v some_room
      waits finite late =
    let r = spinning_pop_returns others clock keeps start timeout T c late v in
    let one_less : suc n - 1 ≡ n = omega arith in
    rw
      (
        ≢→== (suc n) 0 (omega arith),
        ≢→== timeout 0 (omega arith),
        ≢→== timeout milliseconds_max finite,
        r.produced,
        one_less,
      )
      (after_wait later goes_on n _ _ r.code r.message r.consumer r.valid r.ended)
