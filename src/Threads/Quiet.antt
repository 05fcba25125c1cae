-- ===== src/Threads/Quiet.antt =====
-- A step of the producer leaves what the consumer knows and what it may look at.
use omni_mailbox.Base.{
  ℕ, ◌+◌, ◌-◌, ◌*◌, ◌%◌, ◌≤◌, ◌≡◌, ◌≢◌, refl, sym, ap, ◌∙◌, Bool, none, some, List, [], ◌∷◌, ◌++◌,
  arith,
}
use omni_mailbox.Config.{PopResult}
use omni_mailbox.Helpers.Bytes.{memcpy_from}
use omni_mailbox.Spsc.{SpscQueue}
use omni_mailbox.Spsc.Window.{SameOutside, size_at}
use omni_mailbox.Spsc.Invariant.{IsValid, stored, write_slot, read_slot}
use omni_mailbox.Consumer.{Message, message_bytes}
use omni_mailbox.Threads.Consuming.{
  ConsumerAt, between, saw, saw_read, saw_both, reading, measured, gone, batch_looking, batch_read,
  batch_both, batch_reading, batch_measured, after_batch,
}
use omni_mailbox.Threads.Slots.{Visible, size_kept, bytes_kept}
use omni_mailbox.Threads.Facts.{ConsumerFact, Held, LastHeld, Loaded}

-- The fields that the producer writes.
abbrev pub after : SpscQueue → List ℕ → ℕ → Bool → SpscQueue
after q b w f = record q { buffer = b; write_index = w; producer_alive = f }

-- No stored message is taken away, and the visible slots keep their bytes.
pub record Quiet (q : SpscQueue) (b : List ℕ) (w : ℕ) (f : Bool) : Type 0 where
  pub grows : stored q ≤ stored (after q b w f)
  pub sizes :
      (i : ℕ)
      → Visible q i
      → size_at q.slot_size q.capacity b (i % q.capacity)
        ≡ size_at q.slot_size q.capacity q.buffer (i % q.capacity)
  pub bytes :
      (i n : ℕ)
      → Visible q i
      → 4 + n ≤ q.slot_size
      → memcpy_from b (i % q.capacity * q.slot_size + 4) n
        ≡ memcpy_from q.buffer (i % q.capacity * q.slot_size + 4) n

pub same_bytes :
    (q : SpscQueue) (w : ℕ) (f : Bool)
    → stored q ≤ stored (after q q.buffer w f)
    → Quiet q q.buffer w f
same_bytes q w f grows = record { grows = grows; sizes = λ i s. refl; bytes = λ i n s h. refl }

pub spare_bytes :
    (q : SpscQueue) (b : List ℕ)
    → IsValid q
    → stored q ≢ q.capacity - 1
    → SameOutside (write_slot q * q.slot_size) (write_slot q * q.slot_size + q.slot_size) q.buffer b
    → Quiet q b q.write_index q.producer_alive
spare_bytes q b v free same = record {
  grows = omega arith;
  sizes = λ i s. size_kept q v i s free b same;
  bytes = λ i n s h. bytes_kept q v i s free b same n h;
}

pub Held-Visible :
    (q : SpscQueue)
    → IsValid q
    → (span : Message) (taken : List (List ℕ)) (h : Held q span taken) → Visible q h.index
Held-Visible q v span taken h = record {
  fits = h.fits;
  older = omega (arith, h.last, v.room, v.capacity_high, v.fits_w);
  recent = omega (arith, h.last, v.room, v.capacity_high, v.fits_w);
}

module _ (q : SpscQueue) (v : IsValid q) (b : List ℕ) (w : ℕ) (f : Bool) (quiet : Quiet q b w f)
    (taken : List (List ℕ)) where
  Held-kept : (span : Message) → Held q span taken → Held (after q b w f) span taken
  Held-kept span h = record {
    index = h.index;
    fits = h.fits;
    last = h.last;
    place = h.place;
    small = h.small;
    earlier = h.earlier;
    shown = h.shown ∙ ap (λ m. h.earlier ++ m ∷ []) bytes;
  }
    where
      bytes : message_bytes q.buffer span ≡ message_bytes b span
      bytes =
          rw h.place (sym (quiet.bytes h.index span.size (Held-Visible q v span taken h) h.small))

  LastHeld-kept : (ss : List Message) → LastHeld q ss taken → LastHeld (after q b w f) ss taken
  LastHeld-kept [] h = tt
  LastHeld-kept (s ∷ []) h = Held-kept s h
  LastHeld-kept (s ∷ t ∷ ss) h = LastHeld-kept (t ∷ ss) h

  Loaded-kept : (r w' : ℕ) → Loaded q r w' → Loaded (after q b w f) r w'
  Loaded-kept r w' l = record {
    own = l.own;
    fits = l.fits;
    behind = omega (arith, l.behind, quiet.grows);
  }

  some_left : stored q ≢ 0 → stored (after q b w f) ≢ 0
  some_left ne = omega (arith, quiet.grows)

  front_size :
      stored q ≢ 0
      → size_at q.slot_size q.capacity q.buffer (read_slot q)
        ≡ size_at q.slot_size q.capacity b (read_slot q)
  front_size ne = sym (
      quiet.sizes q.read_index
        (record { fits = v.fits_r; older = omega arith; recent = omega arith }))

  pub consumer_kept :
      (c : ConsumerAt) → ConsumerFact q taken c → ConsumerFact (after q b w f) taken c
  consumer_kept (between PopResult.success (some span)) h = Held-kept span h
  consumer_kept (between PopResult.success none) h = h
  consumer_kept (between PopResult.channel_closed m) h = tt
  consumer_kept (between PopResult.timeout m) h = tt
  consumer_kept (between PopResult.empty m) h = tt
  consumer_kept (saw a) h = tt
  consumer_kept (saw_read a r) h = h
  consumer_kept (saw_both a r w') l = Loaded-kept r w' l
  consumer_kept (reading r) (e, ne) = (e, some_left ne)
  consumer_kept (measured r n) (e, ne, size) = (e, some_left ne, size ∙ front_size ne)
  consumer_kept gone h = tt
  consumer_kept (batch_looking a ss n) h = LastHeld-kept ss h
  consumer_kept (batch_read a ss n r) (h, e) = (LastHeld-kept ss h, e)
  consumer_kept (batch_both a ss n r w') (h, l) = (LastHeld-kept ss h, Loaded-kept r w' l)
  consumer_kept (batch_reading a ss n r) (h, e, ne) = (LastHeld-kept ss h, e, some_left ne)
  consumer_kept (batch_measured a ss n r k) (h, e, ne, size) =
      (LastHeld-kept ss h, e, some_left ne, size ∙ front_size ne)
  consumer_kept (after_batch PopResult.success ss) h = LastHeld-kept ss h
  consumer_kept (after_batch PopResult.channel_closed ss) h = tt
  consumer_kept (after_batch PopResult.timeout ss) h = tt
  consumer_kept (after_batch PopResult.empty ss) h = tt
