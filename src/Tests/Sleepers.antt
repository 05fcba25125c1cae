-- ===== src/Tests/Sleepers.antt =====
-- An unbounded pop on a queue that is empty, next to a producer that pushes, ends, or does both.
use omni_mailbox.Base.{
  ℕ, ◌+◌, ◌-◌, ◌^◌, ◌≡◌, refl, none, some, [], ◌∷◌, arith, leb, Bool-cases, inl, inr, if◌then◌else◌,
}
use omni_mailbox.Config.{PopResult}
use omni_mailbox.Spsc.{SpscQueue}
use omni_mailbox.Spsc.Invariant.{IsValid, contents}
use omni_mailbox.Producer.{Producer}
use omni_mailbox.Producer.Reservation.{ProducerIsValid, Accepts}
use omni_mailbox.Consumer.{Consumer}
use omni_mailbox.Blocking.Unbounded.{popping, unbounded_pop, meets}
use omni_mailbox.Blocking.Unbounded.Returns.{ProducerWork, Received, unbounded_pop_returns}
use omni_mailbox.Blocking.Collect.Unbounded.{
  BatchReceived, batch_pop_unbounded, batch_pop_unbounded_returns,
}
use omni_mailbox.Blocking.Unbounded.Sleep.{flagged, never_woken}
use omni_mailbox.Blocking.Unbounded.Overtaken.{last_words, closed_with_message}
use omni_mailbox.Tests.Fixtures.{wrapped, wrapped-IsValid, idle, reader}

abbrev drained : SpscQueue
drained = record wrapped { write_index = 2 ^ 64 - 1 }

drained-IsValid : IsValid drained
drained-IsValid = record {
  power = (2, refl);
  capacity_high = omega arith;
  message_high = omega arith;
  slot_low = omega arith;
  slot_high = omega arith;
  storage = refl;
  fits_w = omega arith;
  fits_r = omega arith;
  room = omega arith;
  sized = tt;
}

-- Two messages are there from the fourth step on.
abbrev arriving : ℕ → SpscQueue
arriving i = if leb 3 i then wrapped else drained

arriving_work : ProducerWork arriving
arriving_work = record {
  valid = λ i. elim (Bool-cases (leb 3 i)) [
    | inl late ↦ rw late wrapped-IsValid
    | inr early ↦ rw early drained-IsValid
  ];
  own = 2 ^ 64 - 1;
  own_index = λ i. ground arith;
  more = λ i. ground arith;
}

unbounded_pop_returns_example :
    Received arriving (unbounded_pop (λ i q. arriving i) (3 + 4) 0 popping reader)
unbounded_pop_returns_example = unbounded_pop_returns arriving 3 reader arriving_work (omega arith)

batch_pop_unbounded_returns_example :
    BatchReceived arriving 2 (batch_pop_unbounded (λ i q. arriving i) (λ i q. q) (3 + 4) 2 reader)
batch_pop_unbounded_returns_example =
    batch_pop_unbounded_returns arriving 3 2 reader arriving_work (omega arith) (omega arith)

never_woken_example :
    unbounded_pop (flagged (λ i. leb i 2)) 100 0 popping (meets drained reader) ≡ none
never_woken_example =
    never_woken (λ i. leb i 2) 100 (meets drained reader) drained-IsValid refl refl refl

abbrev last_producer : Producer
last_producer = record idle { queue = drained }

last_producer-IsValid : ProducerIsValid last_producer
last_producer-IsValid = record { queue_valid = drained-IsValid; reserved = λ k e. cc }

last_message-Accepts : Accepts 1 last_producer
last_message-Accepts = record {
  not_empty = omega arith;
  fits = omega arith;
  unreserved = refl;
  connected = refl;
  has_room = omega arith;
}

closed_with_message_example :
    (c' : Consumer) × (unbounded_pop
        (last_words (7 ∷ []) last_producer)
        3
        0
        popping
        (meets drained reader)
      ≡ some (PopResult.channel_closed, none, c'))
    × (contents c'.queue ≡ (7 ∷ []) ∷ [])
closed_with_message_example =
    closed_with_message 0 last_producer (7 ∷ []) reader last_producer-IsValid last_message-Accepts
      refl refl
