-- ===== src/Spsc/Changes.antt =====
-- The three ways in which an operation changes the queue: a write into the spare slot, the
-- publication of that slot, and the release of the oldest slot.
use omni_mailbox.Base.{
  ℕ, suc, ◌+◌, ◌-◌, ◌*◌, ◌%◌, ◌≤◌, ◌<◌, ◌≡◌, ◌≢◌, sym, ap, ◌∙◌, List, [], ◌∷◌, ◌++◌, length, arith,
}
use omni_mailbox.Base.Words.{add_u64}
use omni_mailbox.Helpers.Indices.{write-mod, u64-mod}
use omni_mailbox.Spsc.{SpscQueue}
use omni_mailbox.Spsc.Window.{
  window, window_congr, Sized-congr, window-snoc, Sized-snoc, window_other, SameOutside, size_at,
  message_at,
}
use omni_mailbox.Spsc.Invariant.{
  IsValid, stored, contents, write_slot, read_slot, capacity_pos, indices,
}

module _ (q : SpscQueue) (v : IsValid q) where
  open v use {
    power, capacity_high, message_high, slot_low, slot_high, storage, fits_w, fits_r, room, sized,
  }

  abbrev slot_start : ℕ
  slot_start = write_slot q * q.slot_size

  write_slot-mod : (q.read_index + stored q) % q.capacity ≡ write_slot q
  write_slot-mod = sym (write-mod q.capacity q.write_index q.read_index (indices q v))

  -- A change inside the slot that the producer writes next keeps the stored messages, whether or
  -- not the queue is full.
  pub write_spare :
      (b : List ℕ)
      → length b ≡ length q.buffer
      → SameOutside slot_start (slot_start + q.slot_size) q.buffer b
      → IsValid (record q { buffer = b }) × (contents (record q { buffer = b }) ≡ contents q)
  write_spare b len same =
      let (unchanged, sized') =
        window_other q.slot_size q.capacity q.max_message_size slot_low q.buffer b (write_slot q)
          same (stored q) q.read_index (stored q) write_slot-mod (omega arith) room sized in
      (
        record {
          power = power;
          capacity_high = capacity_high;
          message_high = message_high;
          slot_low = slot_low;
          slot_high = slot_high;
          storage = len ∙ storage;
          fits_w = fits_w;
          fits_r = fits_r;
          room = room;
          sized = sized';
        },
        unchanged,
      )

  -- Publishing the slot appends its message.
  pub publish :
      stored q ≢ q.capacity - 1
      → 0 < size_at q.slot_size q.capacity q.buffer (write_slot q)
      → size_at q.slot_size q.capacity q.buffer (write_slot q) ≤ q.max_message_size
      → let q' = record q { write_index = add_u64 q.write_index 1 } in
        IsValid q'
        × (stored q' ≡ stored q + 1)
        × (contents q'
            ≡ contents q ++ message_at q.slot_size q.capacity q.buffer (write_slot q) ∷ [])
  publish not_full pos small =
      let q' : SpscQueue = record q { write_index = add_u64 q.write_index 1 } in
      let more : stored q' ≡ suc (stored q) = omega (arith, capacity_pos q v) in
      let slot = write_slot-mod in
      (
        record {
          power = power;
          capacity_high = capacity_high;
          message_high = message_high;
          slot_low = slot_low;
          slot_high = slot_high;
          storage = storage;
          fits_w = omega arith;
          fits_r = fits_r;
          room = omega (arith, capacity_pos q v);
          sized = rw more (
              Sized-snoc q.slot_size q.capacity q.max_message_size q.buffer (stored q) q.read_index
                sized (rw slot pos) (rw slot small));
        },
        omega arith,
        ap (window q.slot_size q.capacity q.buffer q.read_index) more
            ∙ window-snoc q.slot_size q.capacity q.buffer (stored q) q.read_index
            ∙ ap (λ (k : ℕ). contents q ++ message_at q.slot_size q.capacity q.buffer k ∷ []) slot,
      )

  -- Releasing the oldest slot removes its message, whose size is in range.
  pub release :
      stored q ≢ 0
      → let q' = record q { read_index = add_u64 q.read_index 1 } in
        IsValid q'
        × (stored q' + 1 ≡ stored q)
        × (contents q ≡ message_at q.slot_size q.capacity q.buffer (read_slot q) ∷ contents q')
        × (0 < size_at q.slot_size q.capacity q.buffer (read_slot q))
        × (size_at q.slot_size q.capacity q.buffer (read_slot q) ≤ q.max_message_size)
  release some_left =
      let q' : SpscQueue = record q { read_index = add_u64 q.read_index 1 } in
      let fewer : stored q ≡ suc (stored q') = omega arith in
      let front = rw fewer at sized in
      let slot : (q.read_index + 1) % q.capacity ≡ add_u64 q.read_index 1 % q.capacity =
        sym (u64-mod q.capacity power (omega arith) (q.read_index + 1)) in
      (
        record {
          power = power;
          capacity_high = capacity_high;
          message_high = message_high;
          slot_low = slot_low;
          slot_high = slot_high;
          storage = storage;
          fits_w = fits_w;
          fits_r = omega arith;
          room = omega arith;
          sized =
              Sized-congr q.slot_size q.capacity q.max_message_size q.buffer (stored q')
                (q.read_index + 1) (add_u64 q.read_index 1) slot front.2;
        },
        omega arith,
        ap (window q.slot_size q.capacity q.buffer q.read_index) fewer
            ∙ ap (◌∷◌ (message_at q.slot_size q.capacity q.buffer (read_slot q))) (
                window_congr q.slot_size q.capacity q.buffer (stored q') (q.read_index + 1)
                  (add_u64 q.read_index 1) slot),
        front.0,
        front.1,
      )
