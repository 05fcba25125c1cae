-- ===== src/Tests/Interleavings.antt =====
-- Two threads over a small queue, call after call and with the consumer holding a span meanwhile.
use omni_mailbox.Base.{◌≢◌, ℕ, ◌≡◌, ◌≤◌, ◌⊎◌, refl, true, List, [], ◌∷◌, ◌++◌, arith}
use omni_mailbox.Helpers.{
  is_valid_message_size, is_queue_full, is_queue_empty, get_slot_index, get_slot_pointer,
  get_payload_pointer, write_size_prefix, read_size_prefix,
}
use omni_mailbox.Helpers.Bytes.{memcpy_to, memcpy_from}
use omni_mailbox.Spsc.{SpscQueue}
use omni_mailbox.Spsc.Invariant.{IsValid, contents}
use omni_mailbox.Producer.{all_valid}
use omni_mailbox.Consumer.{Message, message_bytes}
use omni_mailbox.Threads.Producing.{ProducerMove}
use omni_mailbox.Threads.Consuming.{ConsumerMove}
use omni_mailbox.Threads.Steps.{Threads, by_producer, by_consumer, Reach, start, later}
use omni_mailbox.Threads.Safety.{New, exactly_once, span_kept}
use omni_mailbox.Threads.Races.{no_data_race}

-- Four slots of eight bytes.
abbrev blank : SpscQueue
blank = record {
  write_index = 0;
  read_index = 0;
  producer_alive = true;
  consumer_alive = true;
  capacity = 4;
  max_message_size = 4;
  slot_size = 8;
  buffer =
      0 ∷ 0 ∷ 0 ∷ 0 ∷ 0 ∷ 0 ∷ 0 ∷ 0 ∷ 0 ∷ 0 ∷ 0 ∷ 0 ∷ 0 ∷ 0 ∷ 0 ∷ 0 ∷ 0 ∷ 0 ∷ 0 ∷ 0 ∷ 0 ∷ 0 ∷ 0 ∷ 0
      ∷ 0 ∷ 0 ∷ 0 ∷ 0 ∷ 0 ∷ 0 ∷ 0 ∷ 0 ∷ [];
}

blank-New : New blank
blank-New = record {
  valid = record {
    power = (2, refl);
    capacity_high = omega arith;
    message_high = omega arith;
    slot_low = omega arith;
    slot_high = omega arith;
    storage = refl;
    fits_w = omega arith;
    fits_r = omega arith;
    room = omega arith;
    sized = tt;
  };
  empty = refl;
  alive = refl;
}

-- A run with the state that it ends in.
record Run : Type 0 where
  last : Threads
  reach : Reach blank last

-- One push.
abbrev pushed : Run
unfolding is_valid_message_size is_queue_full
pushed = record {
  last = _;
  reach =
      later
        (later
          (later
            (later
              (later
                (later
                  (later
                    (later (later start (by_producer (ProducerMove.look (5 ∷ 6 ∷ []) refl refl)))
                      (by_producer (ProducerMove.look_again refl)))
                    (by_producer ProducerMove.load_write))
                  (by_producer ProducerMove.load_read))
                (by_producer (ProducerMove.find_room refl)))
              (by_producer ProducerMove.copy))
            (by_producer ProducerMove.prefix))
          (by_producer ProducerMove.load_own))
        (by_producer ProducerMove.publish);
}

-- One pop.
abbrev popped : Run
unfolding is_queue_empty pushed
popped = record {
  last = _;
  reach =
      later
        (later
          (later
            (later
              (later (later pushed.reach (by_consumer (ConsumerMove.look_alive true tt)))
                (by_consumer ConsumerMove.take_read))
              (by_consumer ConsumerMove.take_write))
            (by_consumer (ConsumerMove.find_some refl)))
          (by_consumer ConsumerMove.measure))
        (by_consumer ConsumerMove.release);
}

-- The producer has reserved the next slot.
abbrev overlapped : Run
unfolding is_valid_message_size is_queue_full is_queue_empty popped pushed
overlapped = record {
  last = _;
  reach =
      later
        (later
          (later
            (later (later popped.reach (by_producer (ProducerMove.look (7 ∷ []) refl refl)))
              (by_producer (ProducerMove.look_again refl)))
            (by_producer ProducerMove.load_write))
          (by_producer ProducerMove.load_read))
        (by_producer (ProducerMove.find_room refl));
}

-- A batch of two.
abbrev batch_pushed : Run
unfolding is_valid_message_size is_queue_full all_valid
batch_pushed = record {
  last = _;
  reach =
      (later
        (later
          (later
            (later
              (later
                (later
                  (later
                    (later
                      (later
                        (later
                          (later
                            (later
                              (later
                                (later start (
                                  by_producer (
                                    ProducerMove.batch_start ((5 ∷ 6 ∷ []) ∷ (7 ∷ []) ∷ []) refl
                                      refl)))
                                (by_producer ProducerMove.batch_load_write))
                              (by_producer ProducerMove.batch_load_read))
                            (by_producer (ProducerMove.batch_find_room refl)))
                          (by_producer ProducerMove.batch_prefix))
                        (by_producer ProducerMove.batch_copy))
                      (by_producer ProducerMove.batch_publish))
                    (by_producer ProducerMove.batch_load_write))
                  (by_producer ProducerMove.batch_load_read))
                (by_producer (ProducerMove.batch_find_room refl)))
              (by_producer ProducerMove.batch_prefix))
            (by_producer ProducerMove.batch_copy))
          (by_producer ProducerMove.batch_publish))
        (by_producer ProducerMove.batch_done));
}

some_taken : (s : Message) (ss : List Message) → s ∷ ss ≢ []
some_taken s ss e = ground arith

-- It is popped as a batch.
abbrev batch_popped : Run
unfolding is_queue_empty batch_pushed
batch_popped = record {
  last = _;
  reach =
      (later
        (later
          (later
            (later
              (later
                (later
                  (later
                    (later
                      (later
                        (later
                          (later
                            (later batch_pushed.reach
                              (by_consumer (ConsumerMove.batch_look_alive true 1 tt)))
                            (by_consumer ConsumerMove.batch_take_read))
                          (by_consumer ConsumerMove.batch_take_write))
                        (by_consumer (ConsumerMove.batch_find_some refl)))
                      (by_consumer ConsumerMove.batch_measure))
                    (by_consumer ConsumerMove.batch_release))
                  (by_consumer ConsumerMove.batch_take_read))
                (by_consumer ConsumerMove.batch_take_write))
              (by_consumer (ConsumerMove.batch_find_some refl)))
            (by_consumer ConsumerMove.batch_measure))
          (by_consumer ConsumerMove.batch_release))
        (by_consumer (ConsumerMove.batch_full (some_taken _ _))));
}

abbrev first_span : Message
first_span = record { payload = 4; size = 2 }

exactly_once_example :
    IsValid batch_popped.last.queue
    × (batch_popped.last.sent ≡ batch_popped.last.taken ++ contents batch_popped.last.queue)
exactly_once_example = exactly_once blank batch_popped.last blank-New batch_popped.reach

span_kept_example :
    (earlier : List (List ℕ)) × (overlapped.last.taken
      ≡ earlier ++ message_bytes overlapped.last.queue.buffer first_span ∷ [])
unfolding get_slot_pointer get_slot_index get_payload_pointer read_size_prefix write_size_prefix
    memcpy_to memcpy_from overlapped popped pushed
span_kept_example = span_kept blank overlapped.last first_span blank-New overlapped.reach refl

no_data_race_example : (13 ≤ 4) ⊎ (6 ≤ 12)
unfolding get_slot_pointer get_slot_index get_payload_pointer read_size_prefix write_size_prefix
    memcpy_to memcpy_from overlapped popped pushed
no_data_race_example =
    no_data_race blank overlapped.last (record { from = 12; to = 13 }) (record { from = 4; to = 6 })
      blank-New overlapped.reach refl refl
