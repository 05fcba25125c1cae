-- ===== src/Channel/Refine.antt =====
-- The channel behaves as the bounded queue of the messages that it stores.
use omni_mailbox.Base.{
  ℕ, zero, suc, ◌-◌, ◌^◌, ◌<◌, ◌≡◌, ◌≢◌, refl, sym, ap, ◌∙◌, ◌⊎◌, inl, inr, true, false, Bool-cases,
  List, [], ◌∷◌, ◌++◌, none, length, take, drop, min, arith,
}
use omni_mailbox.Config.{PopResult}
use omni_mailbox.Fifo
use omni_mailbox.Fifo.{Fifo, view, all_admitted, pop_batch_items}
use omni_mailbox.Spsc.Invariant.{IsValid, flags-IsValid, stored, contents}
use omni_mailbox.Producer.{batch_push, close_producer}
use omni_mailbox.Producer.Reservation.{ProducerIsValid}
use omni_mailbox.Producer.Push.{try_push_refines, try_push_counts, length-contents}
use omni_mailbox.Producer.BatchPush.{Sizes}
use omni_mailbox.Producer.BatchPush.Result.{batch_push_lem, batch_push_refused}
use omni_mailbox.Consumer.{batch_pop, close_consumer}
use omni_mailbox.Consumer.Pop.{try_pop_refines}
use omni_mailbox.Consumer.Batch.{batch_pop-Took, idle_code}
use omni_mailbox.Channel.Agree.{all_admitted-Sizes, pop_items_lem, shown, taken, left}
use omni_mailbox.Channel.{
  Channel, sender, receiver, Call, push, push_batch, pop, pop_batch, end_producer, end_consumer,
  step, run, fifo_step, fifo_run, pushed, batch_pushed, popped, batch_popped,
}

-- A valid queue, no reservation, counters that fit their words.
pub record ChannelIsValid (ch : Channel) : Type 0 where
  pub queue_valid : IsValid ch.queue
  pub unreserved : ch.producer.reserved_slot ≡ none
  pub sent_fits : ch.producer.messages_sent < 2 ^ 64
  pub bytes_fit : ch.producer.bytes_sent < 2 ^ 64

-- One call: the same reply, and states that correspond.
abbrev pub Corresponds : Call → Channel → Type 0
Corresponds x ch =
    (((step x ch).0, view (step x ch).1.queue) ≡ fifo_step x (view ch.queue))
    × ChannelIsValid (step x ch).1

module _ (ch : Channel) (v : ChannelIsValid ch) where
  open v use {queue_valid, unreserved, sent_fits, bytes_fit}

  pub sender-IsValid : ProducerIsValid (sender ch)
  sender-IsValid = record { queue_valid = queue_valid; reserved = λ k e. cc }

  pub step-push : (m : List ℕ) → Corresponds (push m) ch
  unfolding step fifo_step
  step-push m =
      let (same, valid, free) = try_push_refines (sender ch) m sender-IsValid unreserved in
      let (sent, bytes, _) = try_push_counts (sender ch) m sender-IsValid unreserved in
      (
        ap (λ x. (pushed x.0, x.1)) same,
        record {
          queue_valid = valid.queue_valid;
          unreserved = free;
          sent_fits = ground arith;
          bytes_fit = ground arith;
        },
      )

  pub step-pop : Corresponds pop ch
  unfolding step fifo_step
  step-pop =
      let (same, valid) = try_pop_refines (receiver ch) queue_valid in
      (
        ap (λ x. (popped x.0 x.1, x.2)) same,
        record {
          queue_valid = valid;
          unreserved = unreserved;
          sent_fits = sent_fits;
          bytes_fit = bytes_fit;
        },
      )

  fifo_batch :
      (ms : List (List ℕ))
      → Sizes ch.queue.max_message_size ms
      → ch.queue.consumer_alive ≡ true
      → (k : ℕ) → k ≡ min (length ms) (ch.queue.capacity - 1 - stored ch.queue)
      → Fifo.push_batch ms (view ch.queue)
        ≡ (k, record (view ch.queue) { items = contents ch.queue ++ take k ms })
  unfolding Fifo.push_batch
  fifo_batch ms s alive k e =
      let number : k ≡ min (length ms) (ch.queue.capacity - 1 - length (contents ch.queue)) =
        omega (arith, length-contents ch.queue) in
      rw ((all_admitted-Sizes ch.queue.max_message_size ms).1 s, number) (ground arith)

  batch_accepted :
      (ms : List (List ℕ))
      → Sizes ch.queue.max_message_size ms
      → ch.queue.consumer_alive ≡ true
      → Corresponds (push_batch ms) ch
  unfolding step fifo_step
  batch_accepted ms s alive =
      let b = batch_push_lem (sender ch) ms queue_valid sent_fits bytes_fit s alive in
      let f = b.shape in
      rw (fifo_batch ms s alive (batch_push ms (sender ch)).0 b.count) (
        λ i. (
          batch_pushed (batch_push ms (sender ch)).0,
          record {
            items = b.appended i;
            room = f.same_capacity i - 1;
            limit = f.same_limit i;
            producer_alive = f.same_producer i;
            consumer_alive = f.same_consumer i;
          },
        ),
        record {
          queue_valid = b.valid;
          unreserved = b.reservation ∙ unreserved;
          sent_fits = omega (arith, b.sent);
          bytes_fit = omega (arith, b.bytes);
        },
      )

  batch_refused :
      (ms : List (List ℕ))
      → ¬ Sizes ch.queue.max_message_size ms ⊎ (ch.queue.consumer_alive ≡ false)
      → Corresponds (push_batch ms) ch
  unfolding step fifo_step Fifo.push_batch
  batch_refused ms h = rw (batch_push_refused (sender ch) ms queue_valid h) (
    ground (arith, all_admitted-Sizes ch.queue.max_message_size ms),
    record {
      queue_valid = queue_valid;
      unreserved = unreserved;
      sent_fits = sent_fits;
      bytes_fit = bytes_fit;
    },
  )

  step-push_batch : (ms : List (List ℕ)) → Corresponds (push_batch ms) ch
  step-push_batch ms = elim (Bool-cases (all_admitted ch.queue.max_message_size ms)) [
    | inr bad ↦
        batch_refused ms
          (inl λ s. let good = (all_admitted-Sizes ch.queue.max_message_size ms).1 s in cc)
    | inl good ↦ elim (Bool-cases ch.queue.consumer_alive) [
      | inl alive ↦
          batch_accepted ms ((all_admitted-Sizes ch.queue.max_message_size ms).0 good) alive
      | inr dead ↦ batch_refused ms (inr dead)
    ]
  ]

  fifo_pop_batch :
      (n : ℕ) (r : PopResult)
      → (stored ch.queue ≢ 0 → r ≡ PopResult.success)
      → (stored ch.queue ≡ 0 → r ≡ idle_code ch.queue.producer_alive)
      → Fifo.pop_batch (suc n) (view ch.queue) ≡ (
        r,
        take (suc n) (contents ch.queue),
        record (view ch.queue) { items = drop (suc n) (contents ch.queue) },
      )
  unfolding Fifo.pop_batch
  fifo_pop_batch n r some_left none_left =
      let items =
        pop_items_lem (contents ch.queue) n (view ch.queue) r refl
          (λ pos. some_left (omega (arith, length-contents ch.queue)))
          (λ zero_length. none_left (omega (arith, length-contents ch.queue))) in
      ground (arith, items)

  step-pop_batch : (n : ℕ) → Corresponds (pop_batch n) ch
  unfolding step fifo_step
  step-pop_batch zero =
      unfold batch_pop Fifo.pop_batch in
      (
        refl,
        record {
          queue_valid = queue_valid;
          unreserved = unreserved;
          sent_fits = sent_fits;
          bytes_fit = bytes_fit;
        },
      )
  step-pop_batch (suc n) =
      let (t, some_left, none_left) =
        batch_pop-Took (suc n) (receiver ch) (omega arith) queue_valid in
      rw (fifo_pop_batch n (batch_pop (suc n) (receiver ch)).0 some_left none_left) (
        λ i. (
          batch_popped (batch_pop (suc n) (receiver ch)).0 ((shown t ∙ sym (taken t).0) i),
          sym (left t) i,
        ),
        record {
          queue_valid = t.valid;
          unreserved = unreserved;
          sent_fits = sent_fits;
          bytes_fit = bytes_fit;
        },
      )

  step-end_producer : Corresponds end_producer ch
  unfolding step fifo_step close_producer
  step-end_producer = (
    refl,
    record {
      queue_valid = flags-IsValid ch.queue queue_valid false ch.queue.consumer_alive;
      unreserved = unreserved;
      sent_fits = sent_fits;
      bytes_fit = bytes_fit;
    },
  )

  step-end_consumer : Corresponds end_consumer ch
  unfolding step fifo_step close_consumer
  step-end_consumer = (
    refl,
    record {
      queue_valid = flags-IsValid ch.queue queue_valid ch.queue.producer_alive false;
      unreserved = unreserved;
      sent_fits = sent_fits;
      bytes_fit = bytes_fit;
    },
  )

  -- Every call on a valid channel gives the reply of the bounded queue, leaves the queue holding
  -- what the bounded queue holds, and keeps the channel valid.
  pub step_refines : (x : Call) → Corresponds x ch
  step_refines (push m) = step-push m
  step_refines (push_batch ms) = step-push_batch ms
  step_refines pop = step-pop
  step_refines (pop_batch n) = step-pop_batch n
  step_refines end_producer = step-end_producer
  step_refines end_consumer = step-end_consumer

-- For any sequence of calls of `TryPush`, `BatchPush`, `TryPop`, `BatchPop` without a timeout and the
-- two destructors, each as one step, the replies of a valid channel (a valid queue, no reservation,
-- counters that fit their words) are those of a bounded first-in first-out queue that starts with the
-- stored messages.
pub run_refines :
    (calls : List Call) (ch : Channel)
    → ChannelIsValid ch
    → run calls ch ≡ fifo_run calls (view ch.queue)
unfolding run fifo_run
run_refines [] ch v = refl
run_refines (x ∷ xs) ch v =
    let (same, valid) = step_refines ch v x in rw (run_refines xs (step x ch).1 valid, ← same)
