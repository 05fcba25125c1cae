-- ===== src/Threads/Races.antt =====
-- The bytes that one thread may be writing and those that the other may be reading.
use omni_mailbox.Base.{
  ℕ, ◌+◌, ◌-◌, ◌*◌, ◌%◌, ◌≤◌, ◌≡◌, ◌≢◌, ◌⊎◌, inl, inr, Option, none, some, List, length, arith,
  refl,
}
use omni_mailbox.Helpers.{get_slot_pointer, get_payload_pointer}
use omni_mailbox.Spsc.{SpscQueue}
use omni_mailbox.Spsc.Layout.{slot_ends}
use omni_mailbox.Spsc.Invariant.{IsValid, stored, write_slot}
use omni_mailbox.Threads.Producing.{ProducerAt, reserved, copied, holding, batch_free, batch_sized}
use omni_mailbox.Threads.Consuming.{ConsumerAt, between, reading, batch_reading, after_batch}
use omni_mailbox.Threads.Steps.{Threads, Reach}
use omni_mailbox.Threads.Slots.{Visible, slot_apart}
use omni_mailbox.Threads.Facts.{Held, last_span, Held-last_span, ProducerFact, ConsumerFact}
use omni_mailbox.Threads.Quiet.{Held-Visible}
use omni_mailbox.Threads.Sending.{pointer_at_write, pointer_at_slot}
use omni_mailbox.Threads.Receiving.Found.{pointer_at_read}
use omni_mailbox.Threads.Sending.Batch.{slot_at_write}
use omni_mailbox.Consumer.{Message}
use omni_mailbox.Threads.Safety.{New, Reach-Inv}
use native.Mathlib.Decide.{dec_lt}

pub record Range : Type 0 where
  pub from : ℕ
  pub to : ℕ

-- The payload, then the prefix; in a batch the prefix, then the payload; all that the user may
-- write while a slot is reserved.
abbrev pub writes : SpscQueue → ProducerAt → Option Range
writes q (reserved m w) =
    let place = get_payload_pointer (get_slot_pointer w q.capacity q.slot_size) in
    some (record { from = place; to = place + length m })
writes q (copied m k) =
    let place = get_slot_pointer k q.capacity q.slot_size in
    some (record { from = place; to = place + 4 })
writes q (batch_free m ms w) =
    let place = get_slot_pointer w q.capacity q.slot_size in
    some (record { from = place; to = place + 4 })
writes q (batch_sized m ms w) =
    let place = get_payload_pointer (get_slot_pointer w q.capacity q.slot_size) in
    some (record { from = place; to = place + length m })
writes q (holding w) =
    let place = get_payload_pointer (get_slot_pointer w q.capacity q.slot_size) in
    some (record { from = place; to = place + q.max_message_size })
writes q _ = none

abbrev pub span_range : Option Message → Option Range
span_range none = none
span_range (some span) = some (record { from = span.payload; to = span.payload + span.size })

-- The prefix of the oldest slot; the last span in the hands of the consumer's caller.
abbrev pub reads : SpscQueue → ConsumerAt → Option Range
reads q (reading r) =
    let place = get_slot_pointer r q.capacity q.slot_size in
    some (record { from = place; to = place + 4 })
reads q (batch_reading a ss n r) =
    let place = get_slot_pointer r q.capacity q.slot_size in
    some (record { from = place; to = place + 4 })
reads q (between r m) = span_range (last_span (between r m))
reads q (after_batch r ss) = span_range (last_span (after_batch r ss))
reads q _ = none

-- Such a range lies in the slot of an index.
record Inside (q : SpscQueue) (k : ℕ) (range : Range) : Type 0 where
  low : k * q.slot_size ≤ range.from
  high : range.to ≤ k * q.slot_size + q.slot_size

module _ (q : SpscQueue) (v : IsValid q) where
  writes-Inside :
      (p : ProducerAt) (range : Range)
      → ProducerFact q p
      → writes q p ≡ some range
      → Inside q (write_slot q) range × (stored q ≢ q.capacity - 1)
  writes-Inside (reserved m w) range (wr, e) h =
      let place = pointer_at_write q v w e in
      (
        record {
          low = ground (arith, place);
          high = ground (arith, place, wr.admitted.small, v.slot_low);
        },
        wr.free,
      )
  writes-Inside (copied m k) range (wr, e, payload) h =
      let place = pointer_at_slot q v k e in
      (record { low = ground (arith, place); high = ground (arith, place, v.slot_low) }, wr.free)
  writes-Inside (batch_free m ms w) range ((wr, e), sizes) h =
      let place = slot_at_write q v w e in
      (record { low = ground (arith, place); high = ground (arith, place, v.slot_low) }, wr.free)
  writes-Inside (batch_sized m ms w) range ((s, e), sizes) h =
      let place = pointer_at_write q v w e in
      (
        record {
          low = ground (arith, place);
          high = ground (arith, place, s.writing.admitted.small, v.slot_low);
        },
        s.writing.free,
      )
  writes-Inside (holding w) range (free, e) h =
      let place = pointer_at_write q v w e in
      (record { low = ground (arith, place); high = ground (arith, place, v.slot_low) }, free)
  writes-Inside p range fact h = absurd (ground arith)

  prefix-Inside :
      (r : ℕ) (range : Range)
      → r ≡ q.read_index
      → stored q ≢ 0
      → (let place = get_slot_pointer r q.capacity q.slot_size in
          some (record { from = place; to = place + 4 }))
        ≡ some range
      → (i : ℕ) × Visible q i × Inside q (i % q.capacity) range
  prefix-Inside r range e left h =
      let place = pointer_at_read q v r e in
      (
        q.read_index,
        record { fits = v.fits_r; older = omega arith; recent = omega arith },
        record { low = ground (arith, place); high = ground (arith, place, v.slot_low) },
      )

  span-Inside :
      (o : Option Message) (taken : List (List ℕ)) (range : Range)
      → ((span : Message) → o ≡ some span → Held q span taken)
      → span_range o ≡ some range
      → (i : ℕ) × Visible q i × Inside q (i % q.capacity) range
  span-Inside none taken range known h = absurd (ground arith)
  span-Inside (some span) taken range known h =
      let held = known span refl in
      (
        held.index,
        Held-Visible q v span taken held,
        record { low = ground (arith, held.place); high = ground (arith, held.place, held.small) },
      )

  reads-Inside :
      (taken : List (List ℕ)) (c : ConsumerAt) (range : Range)
      → ConsumerFact q taken c
      → reads q c ≡ some range
      → (i : ℕ) × Visible q i × Inside q (i % q.capacity) range
  reads-Inside taken (reading r) range (e, left) h = prefix-Inside r range e left h
  reads-Inside taken (batch_reading a ss n r) range (held, e, left) h =
      prefix-Inside r range e left h
  reads-Inside taken (between r m) range fact h =
      span-Inside (last_span (between r m)) taken range
        (λ span e. Held-last_span q (between r m) span taken fact e) h
  reads-Inside taken (after_batch r ss) range fact h =
      span-Inside (last_span (after_batch r ss)) taken range
        (λ span e. Held-last_span q (after_batch r ss) span taken fact e) h
  reads-Inside taken c range fact h = absurd (ground arith)

-- In every state that the threads of `Reserve`, `Commit`, `Rollback`, `TryPush` and `BatchPush` and
-- of `TryPop` and `BatchPop` reach on a new queue, the bytes that the producer is about to write,
-- or may write into a reserved slot, are never among those of the prefix that the consumer is about
-- to read, or, between two calls, of the last span that it was handed.
pub no_data_race :
    (q : SpscQueue) (s : Threads) (written read : Range)
    → New q
    → Reach q s
    → writes s.queue s.producer ≡ some written
    → reads s.queue s.consumer ≡ some read
    → (written.to ≤ read.from) ⊎ (read.to ≤ written.from)
no_data_race q s written read n r w h =
    let i = Reach-Inv n r in
    let (inside, free) = writes-Inside s.queue i.valid s.producer written i.producer_fact w in
    let (index, visible, inside') =
      reads-Inside s.queue i.valid s.taken s.consumer read i.consumer_fact h in
    let k = index % s.queue.capacity in
    let ne = slot_apart s.queue i.valid index visible free in
    elim (dec_lt k (write_slot s.queue)) [
      | yes below ↦ inr (
          omega (
            arith,
            inside.low,
            inside'.high,
            slot_ends k (write_slot s.queue) s.queue.slot_size below,
          ))
      | no above ↦ inl (
          omega (
            arith,
            inside.high,
            inside'.low,
            slot_ends (write_slot s.queue) k s.queue.slot_size (omega arith),
          ))
    ]
