-- ===== src/Threads/Sending/One.antt =====
-- The copies of `TryPush` into the reserved slot.
use omni_mailbox.Base.{ℕ, ◌+◌, ◌%◌, ◌≡◌, refl, ap, ◌∙◌, true, List, [], length, arith}
use omni_mailbox.Helpers.{get_slot_pointer, get_slot_index, get_payload_pointer, write_size_prefix}
use omni_mailbox.Helpers.Bytes.{memcpy_to, memcpy_from, memcpy_from-memcpy_to_self}
use omni_mailbox.Helpers.Indices.{get_slot_index-mod}
use omni_mailbox.Helpers.Prefix.{read-write_size_prefix}
use omni_mailbox.Spsc.{SpscQueue}
use omni_mailbox.Spsc.Window.{SameOutside-memcpy_to}
use omni_mailbox.Spsc.Invariant.{IsValid, write_slot}
use omni_mailbox.Producer.Reservation.{
  next_payload, start, next_slot_inside, fill_next, prefix_next, prefix_outside,
  prefix_keeps_payload,
}
use omni_mailbox.Threads.Producing.{ProducerAt}
use omni_mailbox.Threads.Facts.{Writing}
use omni_mailbox.Threads.Sending.{Sent, written, pointer_at_write, pointer_at_slot}

module _ (q : SpscQueue) (v : IsValid q) where
  pub copied_lem :
      (m : List ℕ) (w : ℕ)
      → Writing q m
      → w ≡ q.write_index
      → q.producer_alive ≡ true
      → Sent q
          (ProducerAt.reserved m w)
          (record q {
            buffer =
                memcpy_to q.buffer
                  (get_payload_pointer (get_slot_pointer w q.capacity q.slot_size))
                  m;
          })
          (ProducerAt.copied m (get_slot_index w q.capacity))
          []
  copied_lem m w wr e flag =
      let inside = next_slot_inside q v in
      rw (pointer_at_write q v w e) (
        written q v wr.free (memcpy_to q.buffer (next_payload q) m)
          (SameOutside-memcpy_to q.buffer (next_payload q) (start q v) (start q v + q.slot_size) m
            (omega arith) (omega (arith, wr.admitted.small, v.slot_low)))
          (fill_next q v m wr.admitted.small) (ProducerAt.reserved m w)
          (ProducerAt.copied m (get_slot_index w q.capacity)) refl refl flag
          (
            record {
              admitted = record { not_empty = wr.admitted.not_empty; small = wr.admitted.small };
              free = wr.free;
            },
            get_slot_index-mod q.capacity v.power (omega (arith, v.capacity_high)) w
                ∙ ap (λ (t : ℕ). t % q.capacity) e,
            memcpy_from-memcpy_to_self q.buffer (next_payload q) m
                (omega (arith, inside, wr.admitted.small, v.slot_low)),
          ))

  pub prefixed_lem :
      (m : List ℕ) (k : ℕ)
      → Writing q m
      → k ≡ write_slot q
      → memcpy_from q.buffer (next_payload q) (length m) ≡ m
      → q.producer_alive ≡ true
      → Sent q
          (ProducerAt.copied m k)
          (record q {
            buffer =
                write_size_prefix q.buffer (get_slot_pointer k q.capacity q.slot_size) (length m);
          })
          (ProducerAt.prefixed m)
          []
  prefixed_lem m k wr e payload flag =
      let inside = next_slot_inside q v in
      rw (pointer_at_slot q v k e) (
        written q v wr.free (write_size_prefix q.buffer (start q v) (length m))
          (prefix_outside q v (length m)) (prefix_next q v (length m)) (ProducerAt.copied m k)
          (ProducerAt.prefixed m) refl refl flag
          (record {
            writing = record {
              admitted = record { not_empty = wr.admitted.not_empty; small = wr.admitted.small };
              free = wr.free;
            };
            size =
                read-write_size_prefix q.buffer (start q v) (length m)
                  (omega (arith, inside, v.slot_low))
                  (omega (arith, wr.admitted.small, v.message_high));
            payload = prefix_keeps_payload q v (length m) ∙ payload;
          }))
