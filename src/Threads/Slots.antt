-- ===== src/Threads/Slots.antt =====
-- The slots that the consumer may look at, and what a write into the spare slot leaves of them.
use omni_mailbox.Base.{
  ℕ, ◌+◌, ◌-◌, ◌*◌, ◌%◌, ◌^◌, ◌≤◌, ◌<◌, ◌≡◌, ◌≢◌, sym, ◌∙◌, List, inl, inr, arith,
}
use omni_mailbox.Base.Words.{sub_u64}
use omni_mailbox.Helpers.Bytes.{memcpy_from}
use omni_mailbox.Helpers.Indices.{Apart, write-mod, mod-eq_turn}
use omni_mailbox.Spsc.{SpscQueue}
use omni_mailbox.Spsc.Window.{SameOutside, size_at, apart, size_at_other}
use omni_mailbox.Spsc.Invariant.{IsValid, stored, write_slot}

-- An index of a stored message, or of the one that was released last, while a slot is free.
pub record Visible (q : SpscQueue) (i : ℕ) : Type 0 where
  pub fits : i < 2 ^ 64
  pub older : 0 < sub_u64 q.write_index i
  pub recent : sub_u64 q.write_index i ≤ stored q + 1

module _ (q : SpscQueue) (v : IsValid q) (i : ℕ) (s : Visible q i)
    (free : stored q ≢ q.capacity - 1) where
  -- Such an index is not that of the slot that is written next.
  pub slot_apart : i % q.capacity ≢ write_slot q
  slot_apart e =
      let a : Apart q.capacity q.write_index i = record {
        power = v.power;
        small = omega (arith, v.capacity_high);
        fits_w = v.fits_w;
        fits_r = s.fits;
        room = omega (arith, s.recent, v.room);
      } in
      let turn =
        mod-eq_turn i (sub_u64 q.write_index i) q.capacity s.older (omega (arith, a.room))
          (sym (write-mod q.capacity q.write_index i a) ∙ sym e) in
      absurd (omega (arith, a.room))

  module _ (b : List ℕ)
      (same : SameOutside
        (write_slot q * q.slot_size)
        (write_slot q * q.slot_size + q.slot_size)
        q.buffer
        b) where
    pub size_kept :
        size_at q.slot_size q.capacity b (i % q.capacity)
        ≡ size_at q.slot_size q.capacity q.buffer (i % q.capacity)
    size_kept =
        size_at_other q.slot_size q.capacity q.max_message_size v.slot_low q.buffer b (write_slot q)
          same (i % q.capacity) slot_apart

    pub bytes_kept :
        (n : ℕ)
        → 4 + n ≤ q.slot_size
        → memcpy_from b (i % q.capacity * q.slot_size + 4) n
          ≡ memcpy_from q.buffer (i % q.capacity * q.slot_size + 4) n
    bytes_kept n small =
        elim (apart q.slot_size q.capacity q.max_message_size v.slot_low q.buffer b (write_slot q)
          same (i % q.capacity) slot_apart) [
            | inl before ↦ same (i % q.capacity * q.slot_size + 4) n (inl (omega arith))
            | inr after ↦ same (i % q.capacity * q.slot_size + 4) n (inr (omega arith))
          ]
