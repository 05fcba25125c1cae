-- ===== src/Threads/Sending/Held.antt =====
-- What the user does with a reserved slot: a write to the place that `Reserve` handed out, and the
-- call of `Commit`.
use omni_mailbox.Base.{
  ◌≤◌, ◌≢◌, ◌-◌, ℕ, ◌+◌, ◌%◌, ◌≡◌, refl, ap, ◌∙◌, true, List, [], length, arith,
}
use omni_mailbox.Helpers.{
  is_valid_message_size, get_slot_pointer, get_slot_index, get_payload_pointer,
}
use omni_mailbox.Helpers.Bytes.{length-memcpy_from, memcpy_to, memcpy_from}
use omni_mailbox.Helpers.Indices.{get_slot_index-mod}
use omni_mailbox.Helpers.Prefix.{is_valid_message_size_iff}
use omni_mailbox.Spsc.{SpscQueue}
use omni_mailbox.Spsc.Window.{SameOutside-memcpy_to}
use omni_mailbox.Spsc.Invariant.{IsValid, stored}
use omni_mailbox.Producer.Reservation.{next_payload, start, next_slot_inside, fill_next}
use omni_mailbox.Threads.Producing.{ProducerAt}
use omni_mailbox.Threads.Facts.{ProducerFact}
use omni_mailbox.Threads.Sending.{Sent, written, pointer_at_write}

module _ (q : SpscQueue) (v : IsValid q) where
  pub write_reserved_lem :
      (m : List ℕ) (w : ℕ)
      → length m ≤ q.max_message_size
      → stored q ≢ q.capacity - 1
      → w ≡ q.write_index
      → q.producer_alive ≡ true
      → Sent q
          (ProducerAt.holding w)
          (record q {
            buffer =
                memcpy_to q.buffer
                  (get_payload_pointer (get_slot_pointer w q.capacity q.slot_size))
                  m;
          })
          (ProducerAt.holding w)
          []
  write_reserved_lem m w small free e flag = rw (pointer_at_write q v w e) (
      written q v free (memcpy_to q.buffer (next_payload q) m)
        (SameOutside-memcpy_to q.buffer (next_payload q) (start q v) (start q v + q.slot_size) m
          (omega arith) (omega (arith, small, v.slot_low)))
        (fill_next q v m small) (ProducerAt.holding w) (ProducerAt.holding w) refl refl flag
        (free, e))

  -- The bytes that are committed are those that stand in the slot.
  pub committing :
      (n w : ℕ)
      → is_valid_message_size n q.max_message_size ≡ true
      → stored q ≢ q.capacity - 1
      → w ≡ q.write_index
      → ProducerFact q (
          ProducerAt.copied
            (memcpy_from q.buffer
              (get_payload_pointer (get_slot_pointer w q.capacity q.slot_size))
              n)
            (get_slot_index w q.capacity))
  committing n w sized free e =
      let (pos, small) =
        (is_valid_message_size_iff n q.max_message_size (omega (arith, v.message_high))).0 sized in
      let same_length : length (memcpy_from q.buffer (next_payload q) n) ≡ n =
        length-memcpy_from q.buffer (next_payload q) n
          (omega (arith, next_slot_inside q v, v.slot_low)) in
      rw (pointer_at_write q v w e) (
        record {
          admitted = record { not_empty = rw same_length pos; small = rw same_length small };
          free = free;
        },
        get_slot_index-mod q.capacity v.power (omega (arith, v.capacity_high)) w
            ∙ ap (λ (t : ℕ). t % q.capacity) e,
        ap (memcpy_from q.buffer (next_payload q)) same_length,
      )
