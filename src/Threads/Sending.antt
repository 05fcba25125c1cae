-- ===== src/Threads/Sending.antt =====
-- A step of the producer: what it leads to, by what it changes.
pub mod One
pub mod Batch
pub mod Held
pub mod Moves
use native.Mathlib.Nat.{mod-mod}
use omni_mailbox.Base.{
  ℕ, ◌+◌, ◌-◌, ◌*◌, ◌%◌, ◌≡◌, ◌≢◌, refl, sym, ap, ◌∙◌, true, false, not, List, [], ◌∷◌, ◌++◌,
  length, append-nil, arith,
}
use omni_mailbox.Base.Words.{add_u64}
use omni_mailbox.Helpers.{
  is_valid_message_size, is_queue_full, get_slot_pointer, get_slot_index, get_payload_pointer,
  write_size_prefix,
}
use omni_mailbox.Helpers.Bytes.{memcpy_to, memcpy_from, memcpy_from-memcpy_to_self}
use omni_mailbox.Helpers.Indices.{Apart, is_queue_full_iff, get_slot_index-mod}
use omni_mailbox.Helpers.Prefix.{is_valid_message_size_iff, read-write_size_prefix}
use omni_mailbox.Spsc.{SpscQueue}
use omni_mailbox.Spsc.Window.{SameOutside, SameOutside-memcpy_to, message_at}
use omni_mailbox.Spsc.Invariant.{
  IsValid, stored, contents, write_slot, flags-IsValid, get_slot_pointer-slot,
}
use omni_mailbox.Spsc.Changes
use omni_mailbox.Producer.Reservation.{
  next_payload, start, next_slot_inside, fill_next, prefix_next, prefix_outside,
  prefix_keeps_payload,
}
use omni_mailbox.Threads.Producing.{ProducerAt}
use omni_mailbox.Threads.Consuming.{ConsumerAt}
use omni_mailbox.Threads.Facts.{
  is_ended, Admitted, Writing, Measured, Filled, Compared, ProducerFact, ConsumerFact,
}
use omni_mailbox.Threads.Quiet.{same_bytes, spare_bytes, consumer_kept}

-- What a step of the producer leads to.
pub record Sent (q : SpscQueue) (p : ProducerAt) (q' : SpscQueue) (p' : ProducerAt)
    (out : List (List ℕ)) : Type 0 where
  pub valid : IsValid q'
  pub grown : contents q' ≡ contents q ++ out
  pub flag : q'.producer_alive ≡ not (is_ended p')
  pub fact : ProducerFact q' p'
  pub consumer :
      (taken : List (List ℕ)) (c : ConsumerAt) → ConsumerFact q taken c → ConsumerFact q' taken c

module _ (q : SpscQueue) (v : IsValid q) where
  -- A step that changes no field.
  pub local :
      (p p' : ProducerAt)
      → is_ended p ≡ false
      → is_ended p' ≡ false
      → q.producer_alive ≡ not (is_ended p)
      → ProducerFact q p'
      → Sent q p q p' []
  local p p' going going' flag fact = record {
    valid = v;
    grown = sym (append-nil (contents q));
    flag = flag ∙ ap not going ∙ sym (ap not going');
    fact = fact;
    consumer =
        consumer_kept q v q.buffer q.write_index q.producer_alive
          (same_bytes q q.write_index q.producer_alive (omega arith));
  }

  -- A write into the spare slot.
  module _ (free : stored q ≢ q.capacity - 1) (b : List ℕ)
      (same : SameOutside (start q v) (start q v + q.slot_size) q.buffer b)
      (kept : IsValid (record q { buffer = b })
        × (contents (record q { buffer = b }) ≡ contents q)) where
    pub written :
        (p p' : ProducerAt)
        → is_ended p ≡ false
        → is_ended p' ≡ false
        → q.producer_alive ≡ not (is_ended p)
        → ProducerFact (record q { buffer = b }) p'
        → Sent q p (record q { buffer = b }) p' []
    written p p' going going' flag fact = record {
      valid = kept.0;
      grown = kept.1 ∙ sym (append-nil (contents q));
      flag = flag ∙ ap not going ∙ sym (ap not going');
      fact = fact;
      consumer = consumer_kept q v b q.write_index q.producer_alive (spare_bytes q b v free same);
    }

  pub admit :
      (m : List ℕ) → is_valid_message_size (length m) q.max_message_size ≡ true → Admitted q m
  admit m e =
      let (pos, small) =
        (is_valid_message_size_iff (length m) q.max_message_size (omega (arith, v.message_high))).0
          e in
      record { not_empty = pos; small = small }

  -- The queue that had room by an older read index still has room.
  pub room_left :
      (w r : ℕ) → Compared q w r → is_queue_full w r q.capacity ≡ false → stored q ≢ q.capacity - 1
  room_left w r c e full =
      let a : Apart q.capacity w r = record {
        power = v.power;
        small = omega (arith, v.capacity_high);
        fits_w = omega (arith, v.fits_w, c.own);
        fits_r = c.fits;
        room = c.near;
      } in
      let is_full = (is_queue_full_iff q.capacity w r a).1 (
        omega
          (arith, c.behind, c.near, c.fits, c.own, v.fits_r, v.fits_w, v.room, v.capacity_high)) in
      absurd (ground arith)

  pub pointer_at_write :
      (w : ℕ)
      → w ≡ q.write_index
      → get_payload_pointer (get_slot_pointer w q.capacity q.slot_size) ≡ next_payload q
  unfolding get_payload_pointer
  pointer_at_write w e =
      ap (λ (t : ℕ). t + 4) (get_slot_pointer-slot q v w)
      ∙ ap (λ (t : ℕ). t % q.capacity * q.slot_size + 4) e

  pub pointer_at_slot :
      (k : ℕ) → k ≡ write_slot q → get_slot_pointer k q.capacity q.slot_size ≡ start q v
  pointer_at_slot k e =
      get_slot_pointer-slot q v k
      ∙ ap (λ (t : ℕ). t % q.capacity * q.slot_size) e
      ∙ ap (λ (t : ℕ). t * q.slot_size) (mod-mod q.write_index q.capacity)

  -- The publication of the next slot, whatever the producer does next.
  pub published_lem :
      (m : List ℕ) (w : ℕ) (p p' : ProducerAt)
      → Filled q m
      → w ≡ q.write_index
      → is_ended p ≡ false
      → is_ended p' ≡ false
      → q.producer_alive ≡ not (is_ended p)
      → ProducerFact (record q { write_index = add_u64 q.write_index 1 }) p'
      → Sent q p (record q { write_index = add_u64 w 1 }) p' (m ∷ [])
  published_lem m w p p' f e going going' flag fact =
      let admitted = f.writing.admitted in
      let (valid, more, appended) =
        Changes.publish q v f.writing.free (omega (arith, f.size, admitted.not_empty))
          (omega (arith, f.size, admitted.small)) in
      let held : message_at q.slot_size q.capacity q.buffer (write_slot q) ≡ m =
        ap (memcpy_from q.buffer (next_payload q)) f.size ∙ f.payload in
      rw e (record {
        valid = valid;
        grown = appended ∙ ap (λ x. contents q ++ x ∷ []) held;
        flag = flag ∙ ap not going ∙ sym (ap not going');
        fact = fact;
        consumer =
            consumer_kept q v q.buffer (add_u64 q.write_index 1) q.producer_alive
              (same_bytes q (add_u64 q.write_index 1) q.producer_alive (omega (arith, more)));
      })
