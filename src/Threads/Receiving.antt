-- ===== src/Threads/Receiving.antt =====
-- A step of the consumer: what it leads to, and what it leaves of the producer's facts.
pub mod Found
pub mod Moves
use omni_mailbox.Base.{
  ℕ, ◌+◌, ◌*◌, ◌%◌, ◌≤◌, ◌≡◌, ◌≢◌, ◌⊎◌, inl, inr, refl, sym, ap, ap₂, ◌∙◌, Bool, true, false, not,
  none, some, List, [], ◌∷◌, ◌++◌, append-nil, arith,
}
use omni_mailbox.Base.Words.{add_u64}
use omni_mailbox.Config.{PopResult}
use omni_mailbox.Helpers.{is_queue_empty, get_slot_pointer, get_payload_pointer, read_size_prefix}
use omni_mailbox.Helpers.Bytes.{memcpy_from}
use omni_mailbox.Helpers.Indices.{Apart, is_queue_empty_iff}
use omni_mailbox.Spsc.{SpscQueue}
use omni_mailbox.Spsc.Window.{size_at, message_at}
use omni_mailbox.Spsc.Invariant.{
  IsValid, stored, contents, read_slot, flags-IsValid, get_slot_pointer-slot,
}
use omni_mailbox.Spsc.Changes
use omni_mailbox.Consumer.{Message, message_bytes}
use omni_mailbox.Threads.Producing.{
  ProducerAt, idle, looked, asking, wrote, comparing, reserved, copied, prefixed, publishing, ended,
  reserve_asking, reserve_wrote, reserve_comparing, holding, batching, batch_wrote, batch_comparing,
  batch_free, batch_sized, batch_filled,
}
use omni_mailbox.Threads.Consuming.{ConsumerAt}
use omni_mailbox.Threads.Facts.{
  is_ended, Admitted, Writing, Measured, Filled, Held, LastHeld, BatchFact, Compared, Loaded,
  ProducerFact, ResultFact, ConsumerFact,
}

-- What a step of the consumer leads to.
pub record Taken (q : SpscQueue) (p : ProducerAt) (taken : List (List ℕ)) (q' : SpscQueue)
    (c' : ConsumerAt) (out : List (List ℕ)) : Type 0 where
  pub valid : IsValid q'
  pub shrunk : contents q ≡ out ++ contents q'
  pub flag : q'.producer_alive ≡ q.producer_alive
  pub producer : ProducerFact q' p
  pub fact : ConsumerFact q' (taken ++ out) c'

module _ (q : SpscQueue) (v : IsValid q) where
  -- The fields that the consumer writes, with at most one message released.
  module _ (r' : ℕ) (f : Bool)
      (next : (r' ≡ q.read_index) ⊎ ((r' ≡ add_u64 q.read_index 1) × (stored q ≢ 0))) where
    abbrev later : SpscQueue
    later = record q { read_index = r'; consumer_alive = f }

    shrinks : stored later ≤ stored q
    shrinks = elim next [
      | inl e ↦ omega arith
      | inr (e, some_left) ↦ omega (arith, v.fits_r, v.fits_w)
    ]

    Admitted-kept : (m : List ℕ) → Admitted q m → Admitted later m
    Admitted-kept m a = record { not_empty = a.not_empty; small = a.small }

    Writing-kept : (m : List ℕ) → Writing q m → Writing later m
    Writing-kept m w = record {
      admitted = Admitted-kept m w.admitted;
      free = omega (arith, shrinks, w.free, v.room);
    }

    Filled-kept : (m : List ℕ) → Filled q m → Filled later m
    Filled-kept m h = record {
      writing = Writing-kept m h.writing;
      size = h.size;
      payload = h.payload;
    }

    Measured-kept : (m : List ℕ) → Measured q m → Measured later m
    Measured-kept m h = record { writing = Writing-kept m h.writing; size = h.size }

    Compared-kept : (w r : ℕ) → Compared q w r → Compared later w r
    Compared-kept w r h = record {
      own = h.own;
      fits = h.fits;
      near = h.near;
      behind = elim next [
        | inl e ↦ omega (arith, h.behind)
        | inr (e, some_left) ↦
            omega
              (arith, h.behind, h.fits, h.own, h.near, v.fits_r, v.fits_w, v.room, v.capacity_high)
      ];
    }

    pub producer_kept : (p : ProducerAt) → ProducerFact q p → ProducerFact later p
    producer_kept idle h = tt
    producer_kept ended h = tt
    producer_kept (looked m) h = Admitted-kept m h
    producer_kept (asking m) h = Admitted-kept m h
    producer_kept (wrote m w) (a, e) = (Admitted-kept m a, e)
    producer_kept (comparing m w r) (a, c) = (Admitted-kept m a, Compared-kept w r c)
    producer_kept (reserved m w) (a, e) = (Writing-kept m a, e)
    producer_kept (copied m k) (a, e, payload) = (Writing-kept m a, e, payload)
    producer_kept (prefixed m) h = Filled-kept m h
    producer_kept (publishing m w) (h, e) = (Filled-kept m h, e)
    producer_kept reserve_asking h = tt
    producer_kept (reserve_wrote w) h = h
    producer_kept (reserve_comparing w r) h = Compared-kept w r h
    producer_kept (holding w) (free, e) = (omega (arith, shrinks, free, v.room), e)
    producer_kept (batching ms) h = h
    producer_kept (batch_wrote m ms w) ((a, e), h) = ((Admitted-kept m a, e), h)
    producer_kept (batch_comparing m ms w r) ((a, c), h) =
        ((Admitted-kept m a, Compared-kept w r c), h)
    producer_kept (batch_free m ms w) ((a, e), h) = ((Writing-kept m a, e), h)
    producer_kept (batch_sized m ms w) ((a, e), h) = ((Measured-kept m a, e), h)
    producer_kept (batch_filled m ms w) ((a, e), h) = ((Filled-kept m a, e), h)
