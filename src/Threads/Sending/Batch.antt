-- ===== src/Threads/Sending/Batch.antt =====
-- The writes of `BatchPush` into the next slot: the prefix, then the payload.
use omni_mailbox.Base.{ℕ, ◌+◌, ◌*◌, ◌%◌, ◌≡◌, refl, ap, ◌∙◌, true, List, [], length, arith}
use omni_mailbox.Helpers.{
  get_slot_pointer, get_payload_pointer, write_size_prefix, read_size_prefix, u32_of_bytes,
}
use omni_mailbox.Helpers.Bytes.{memcpy_to, memcpy_from-memcpy_to_self, memcpy_from-memcpy_to_before}
use omni_mailbox.Helpers.Prefix.{read-write_size_prefix}
use omni_mailbox.Spsc.{SpscQueue}
use omni_mailbox.Spsc.Window.{SameOutside-memcpy_to, size_at}
use omni_mailbox.Spsc.Invariant.{IsValid, write_slot, get_slot_pointer-slot}
use omni_mailbox.Producer.Reservation.{
  next_payload, start, next_slot_inside, fill_next, prefix_next, prefix_outside,
}
use omni_mailbox.Threads.Producing.{ProducerAt}
use omni_mailbox.Threads.Facts.{Writing, Measured}
use omni_mailbox.Producer.BatchPush.{Sizes}
use omni_mailbox.Threads.Sending.{Sent, written, pointer_at_write}

module _ (q : SpscQueue) (v : IsValid q) where
  pub slot_at_write :
      (w : ℕ) → w ≡ q.write_index → get_slot_pointer w q.capacity q.slot_size ≡ start q v
  slot_at_write w e = get_slot_pointer-slot q v w ∙ ap (λ (t : ℕ). t % q.capacity * q.slot_size) e

  pub batch_prefix_lem :
      (m : List ℕ) (ms : List (List ℕ)) (w : ℕ)
      → Writing q m
      → w ≡ q.write_index
      → Sizes q.max_message_size ms
      → q.producer_alive ≡ true
      → Sent q
          (ProducerAt.batch_free m ms w)
          (record q {
            buffer =
                write_size_prefix q.buffer (get_slot_pointer w q.capacity q.slot_size) (length m);
          })
          (ProducerAt.batch_sized m ms w)
          []
  batch_prefix_lem m ms w wr e sizes flag =
      let inside = next_slot_inside q v in
      rw (slot_at_write w e) (
        written q v wr.free (write_size_prefix q.buffer (start q v) (length m))
          (prefix_outside q v (length m)) (prefix_next q v (length m))
          (ProducerAt.batch_free m ms w) (ProducerAt.batch_sized m ms w) refl refl flag
          (
            (
              record {
                writing = record {
                  admitted = record {
                    not_empty = wr.admitted.not_empty;
                    small = wr.admitted.small;
                  };
                  free = wr.free;
                };
                size =
                    read-write_size_prefix q.buffer (start q v) (length m)
                      (omega (arith, inside, v.slot_low))
                      (omega (arith, wr.admitted.small, v.message_high));
              },
              e,
            ),
            sizes,
          ))

  size_under_payload :
      (m : List ℕ)
      → size_at q.slot_size q.capacity (memcpy_to q.buffer (next_payload q) m) (write_slot q)
        ≡ size_at q.slot_size q.capacity q.buffer (write_slot q)
  unfolding read_size_prefix
  size_under_payload m =
      ap u32_of_bytes
        (memcpy_from-memcpy_to_before q.buffer (next_payload q) m (start q v) 4 (omega arith))

  pub batch_copy_lem :
      (m : List ℕ) (ms : List (List ℕ)) (w : ℕ)
      → Measured q m
      → w ≡ q.write_index
      → Sizes q.max_message_size ms
      → q.producer_alive ≡ true
      → Sent q
          (ProducerAt.batch_sized m ms w)
          (record q {
            buffer =
                memcpy_to q.buffer
                  (get_payload_pointer (get_slot_pointer w q.capacity q.slot_size))
                  m;
          })
          (ProducerAt.batch_filled m ms w)
          []
  batch_copy_lem m ms w h e sizes flag =
      let inside = next_slot_inside q v in
      let wr = h.writing in
      rw (pointer_at_write q v w e) (
        written q v wr.free (memcpy_to q.buffer (next_payload q) m)
          (SameOutside-memcpy_to q.buffer (next_payload q) (start q v) (start q v + q.slot_size) m
            (omega arith) (omega (arith, wr.admitted.small, v.slot_low)))
          (fill_next q v m wr.admitted.small) (ProducerAt.batch_sized m ms w)
          (ProducerAt.batch_filled m ms w) refl refl flag
          (
            (
              record {
                writing = record {
                  admitted = record {
                    not_empty = wr.admitted.not_empty;
                    small = wr.admitted.small;
                  };
                  free = wr.free;
                };
                size = size_under_payload m ∙ h.size;
                payload =
                    memcpy_from-memcpy_to_self q.buffer (next_payload q) m
                      (omega (arith, inside, wr.admitted.small, v.slot_low));
              },
              e,
            ),
            sizes,
          ))
