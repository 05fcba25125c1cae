-- ===== src/Channel/Queries.antt =====
-- What the two handles of a channel tell about it.
use omni_mailbox.Base.{◌+◌, ◌-◌, ◌≡◌, refl, ◌∙◌, sym, length}
use omni_mailbox.Spsc.Invariant.{contents, indices}
use omni_mailbox.Helpers.Indices.{available_counts}
use omni_mailbox.Producer
use omni_mailbox.Producer.{slots_left}
use omni_mailbox.Producer.Push.{length-contents}
use omni_mailbox.Consumer
use omni_mailbox.Consumer.{messages_waiting}
use omni_mailbox.Channel.{Channel, sender, receiver}
use omni_mailbox.Channel.Refine.{ChannelIsValid}

-- On a valid channel the consumer's `AvailableMessages` is the number of stored messages, the
-- producer's `AvailableSlots` is what is left of `capacity - 1`, both handles report the same
-- configuration, and each reports as connected exactly the flag of the other end.
pub queries_agree :
    (ch : Channel)
    → ChannelIsValid ch
    → (messages_waiting (receiver ch) ≡ length (contents ch.queue))
      × (messages_waiting (receiver ch) + slots_left (sender ch) ≡ ch.queue.capacity - 1)
      × (Producer.get_config (sender ch) ≡ Consumer.get_config (receiver ch))
      × (Producer.is_connected (sender ch) ≡ ch.queue.consumer_alive)
      × (Consumer.is_connected (receiver ch) ≡ ch.queue.producer_alive)
queries_agree ch v =
    let (messages, sum) = available_counts _ _ _ (indices ch.queue v.queue_valid) in
    unfold messages_waiting slots_left Producer.get_config Consumer.get_config Producer.is_connected
      Consumer.is_connected in
    (messages ∙ sym (length-contents ch.queue), sum, refl, refl, refl)
