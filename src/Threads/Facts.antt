-- ===== src/Threads/Facts.antt =====
-- What holds in every state that the two threads reach.
use mathlib.Core.Path.{subst}
use omni_mailbox.Base.{
  ℕ, ◌+◌, ◌-◌, ◌*◌, ◌%◌, ◌^◌, ◌≤◌, ◌<◌, ◌≡◌, ◌≢◌, Bool, true, false, not, Option, none, some, List,
  [], ◌∷◌, ◌++◌, length, arith,
}
use omni_mailbox.Base.Words.{add_u64, sub_u64}
use omni_mailbox.Config.{PopResult}
use omni_mailbox.Helpers.Bytes.{memcpy_from}
use omni_mailbox.Spsc.{SpscQueue}
use omni_mailbox.Spsc.Window.{size_at}
use omni_mailbox.Spsc.Invariant.{IsValid, stored, contents, write_slot, read_slot}
use omni_mailbox.Consumer.{Message, message_bytes}
use omni_mailbox.Producer.Reservation.{next_payload}
use omni_mailbox.Producer.BatchPush.{Sizes}
use omni_mailbox.Threads.Producing.{
  ProducerAt, idle, looked, asking, wrote, comparing, reserved, copied, prefixed, publishing, ended,
  reserve_asking, reserve_wrote, reserve_comparing, holding, batching, batch_wrote, batch_comparing,
  batch_free, batch_sized, batch_filled,
}
use omni_mailbox.Threads.Consuming.{
  ConsumerAt, between, saw, saw_read, saw_both, reading, measured, gone, batch_looking, batch_read,
  batch_both, batch_reading, batch_measured, after_batch,
}
use omni_mailbox.Threads.Steps.{Threads}

abbrev pub is_ended : ProducerAt → Bool
is_ended ended = true
is_ended _ = false

-- A message of a size that the channel takes.
pub record Admitted (q : SpscQueue) (m : List ℕ) : Type 0 where
  pub not_empty : 0 < length m
  pub small : length m ≤ q.max_message_size

-- The producer may write the next slot.
pub record Writing (q : SpscQueue) (m : List ℕ) : Type 0 where
  pub admitted : Admitted q m
  pub free : stored q ≢ q.capacity - 1

-- The next slot has the prefix of `m`.
pub record Measured (q : SpscQueue) (m : List ℕ) : Type 0 where
  pub writing : Writing q m
  pub size : size_at q.slot_size q.capacity q.buffer (write_slot q) ≡ length m

-- And then the bytes of `m`.
pub record Filled (q : SpscQueue) (m : List ℕ) : Type 0 where
  pub writing : Writing q m
  pub size : size_at q.slot_size q.capacity q.buffer (write_slot q) ≡ length m
  pub payload : memcpy_from q.buffer (next_payload q) (length m) ≡ m

-- A read index that was loaded before, against the own write index.
pub record Compared (q : SpscQueue) (w r : ℕ) : Type 0 where
  pub own : w ≡ q.write_index
  pub fits : r < 2 ^ 64
  pub near : sub_u64 w r < q.capacity
  pub behind : sub_u64 q.read_index r ≤ sub_u64 w r

-- What the producer's locals say about the queue.
abbrev pub ProducerFact : SpscQueue → ProducerAt → Type 0
ProducerFact q idle = Unit {0}
ProducerFact q ended = Unit {0}
ProducerFact q (looked m) = Admitted q m
ProducerFact q (asking m) = Admitted q m
ProducerFact q (wrote m w) = Admitted q m × (w ≡ q.write_index)
ProducerFact q (comparing m w r) = Admitted q m × Compared q w r
ProducerFact q (reserved m w) = Writing q m × (w ≡ q.write_index)
ProducerFact q (copied m k) =
    Writing q m × (k ≡ write_slot q) × (memcpy_from q.buffer (next_payload q) (length m) ≡ m)
ProducerFact q (prefixed m) = Filled q m
ProducerFact q (publishing m w) = Filled q m × (w ≡ q.write_index)
ProducerFact q reserve_asking = Unit {0}
ProducerFact q (reserve_wrote w) = w ≡ q.write_index
ProducerFact q (reserve_comparing w r) = Compared q w r
ProducerFact q (holding w) = (stored q ≢ q.capacity - 1) × (w ≡ q.write_index)
ProducerFact q (batching ms) = Sizes q.max_message_size ms
ProducerFact q (batch_wrote m ms w) =
    (Admitted q m × (w ≡ q.write_index)) × Sizes q.max_message_size ms
ProducerFact q (batch_comparing m ms w r) =
    (Admitted q m × Compared q w r) × Sizes q.max_message_size ms
ProducerFact q (batch_free m ms w) =
    (Writing q m × (w ≡ q.write_index)) × Sizes q.max_message_size ms
ProducerFact q (batch_sized m ms w) =
    (Measured q m × (w ≡ q.write_index)) × Sizes q.max_message_size ms
ProducerFact q (batch_filled m ms w) =
    (Filled q m × (w ≡ q.write_index)) × Sizes q.max_message_size ms

-- A write index that the consumer loaded before, against its own read index.
pub record Loaded (q : SpscQueue) (r w : ℕ) : Type 0 where
  pub own : r ≡ q.read_index
  pub fits : w < 2 ^ 64
  pub behind : sub_u64 w r ≤ stored q

-- The span shows the message that was handed out last, in the slot that was released last.
pub record Held (q : SpscQueue) (span : Message) (taken : List (List ℕ)) : Type 0 where
  pub index : ℕ
  pub fits : index < 2 ^ 64
  pub last : add_u64 index 1 ≡ q.read_index
  pub place : span.payload ≡ index % q.capacity * q.slot_size + 4
  pub small : 4 + span.size ≤ q.slot_size
  pub earlier : List (List ℕ)
  pub shown : taken ≡ earlier ++ message_bytes q.buffer span ∷ []

-- What the result of the last call still says.
abbrev pub ResultFact : SpscQueue → List (List ℕ) → PopResult → Option Message → Type 0
ResultFact q taken PopResult.success (some span) = Held q span taken
ResultFact q taken PopResult.success none = ⊥
ResultFact q taken PopResult.channel_closed m = Unit {0}
ResultFact q taken PopResult.timeout m = Unit {0}
ResultFact q taken PopResult.empty m = Unit {0}

-- Of the spans of a batch only the last one is sure to keep its bytes.
abbrev pub LastHeld : SpscQueue → List Message → List (List ℕ) → Type 0
LastHeld q [] taken = Unit {0}
LastHeld q (s ∷ []) taken = Held q s taken
LastHeld q (s ∷ t ∷ ss) taken = LastHeld q (t ∷ ss) taken

abbrev pub BatchFact : SpscQueue → List (List ℕ) → PopResult → List Message → Type 0
BatchFact q taken PopResult.success ss = LastHeld q ss taken
BatchFact q taken PopResult.channel_closed ss = Unit {0}
BatchFact q taken PopResult.timeout ss = Unit {0}
BatchFact q taken PopResult.empty ss = Unit {0}

abbrev pub ConsumerFact : SpscQueue → List (List ℕ) → ConsumerAt → Type 0
ConsumerFact q taken (between r m) = ResultFact q taken r m
ConsumerFact q taken (saw a) = Unit {0}
ConsumerFact q taken (saw_read a r) = r ≡ q.read_index
ConsumerFact q taken (saw_both a r w) = Loaded q r w
ConsumerFact q taken (reading r) = (r ≡ q.read_index) × (stored q ≢ 0)
ConsumerFact q taken (measured r n) =
    (r ≡ q.read_index)
    × (stored q ≢ 0)
    × (n ≡ size_at q.slot_size q.capacity q.buffer (read_slot q))
ConsumerFact q taken gone = Unit {0}
ConsumerFact q taken (batch_looking a ss n) = LastHeld q ss taken
ConsumerFact q taken (batch_read a ss n r) = LastHeld q ss taken × (r ≡ q.read_index)
ConsumerFact q taken (batch_both a ss n r w) = LastHeld q ss taken × Loaded q r w
ConsumerFact q taken (batch_reading a ss n r) =
    LastHeld q ss taken × (r ≡ q.read_index) × (stored q ≢ 0)
ConsumerFact q taken (batch_measured a ss n r k) =
    LastHeld q ss taken
    × (r ≡ q.read_index)
    × (stored q ≢ 0)
    × (k ≡ size_at q.slot_size q.capacity q.buffer (read_slot q))
ConsumerFact q taken (after_batch r ss) = BatchFact q taken r ss

pub record Inv (s : Threads) : Type 0 where
  pub valid : IsValid s.queue
  pub history : s.sent ≡ s.taken ++ contents s.queue
  pub flag : s.queue.producer_alive ≡ not (is_ended s.producer)
  pub producer_fact : ProducerFact s.queue s.producer
  pub consumer_fact : ConsumerFact s.queue s.taken s.consumer

abbrev pub last_of : List Message → Option Message
last_of [] = none
last_of (s ∷ []) = some s
last_of (s ∷ t ∷ ss) = last_of (t ∷ ss)

-- The span that was handed out last, between two calls.
abbrev pub last_span : ConsumerAt → Option Message
last_span (between PopResult.success m) = m
last_span (after_batch PopResult.success ss) = last_of ss
last_span _ = none

LastHeld-last :
    (q : SpscQueue) (ss : List Message) (span : Message) (taken : List (List ℕ))
    → LastHeld q ss taken
    → last_of ss ≡ some span
    → Held q span taken
LastHeld-last q [] span taken h e = absurd (ground arith)
LastHeld-last q (s ∷ []) span taken h e =
    let same : s ≡ span = cc in subst (λ x. Held q x taken) same h
LastHeld-last q (s ∷ t ∷ ss) span taken h e = LastHeld-last q (t ∷ ss) span taken h e

pub Held-last_span :
    (q : SpscQueue) (c : ConsumerAt) (span : Message) (taken : List (List ℕ))
    → ConsumerFact q taken c
    → last_span c ≡ some span
    → Held q span taken
Held-last_span q (between PopResult.success m) span taken h e =
    subst (ResultFact q taken PopResult.success) e h
Held-last_span q (after_batch PopResult.success ss) span taken h e =
    LastHeld-last q ss span taken h e
Held-last_span q c span taken h e = absurd (ground arith)
