-- ===== src/Threads/Consuming.antt =====
-- The consumer's thread: `TryPop`, and `BatchPop` without a timeout, of src/consumer_handle.cpp, a
-- shared access at a time.
use omni_mailbox.Base.{
  ℕ, zero, suc, ◌≡◌, ◌≢◌, Bool, true, false, Option, none, some, List, [], ◌∷◌, ◌++◌, not,
  if◌then◌else◌,
}
use omni_mailbox.Base.Words.{add_u64}
use omni_mailbox.Config.{PopResult}
use omni_mailbox.Helpers.{is_queue_empty, get_slot_pointer, get_payload_pointer, read_size_prefix}
use omni_mailbox.Spsc.{SpscQueue}
use omni_mailbox.Consumer.{Message, message_bytes}

-- Where the consumer stands. Between two calls it has the result of the last one, and may still
-- read a span that this returned.
pub data ConsumerAt : Type 0 where
  between : (r : PopResult) (m : Option Message) → ConsumerAt
  saw : (alive : Bool) → ConsumerAt
  saw_read : (alive : Bool) (read : ℕ) → ConsumerAt
  saw_both : (alive : Bool) (read write : ℕ) → ConsumerAt
  reading : (read : ℕ) → ConsumerAt  -- before the size prefix
  measured : (read size : ℕ) → ConsumerAt  -- before the store of `read_index`
  gone : ConsumerAt  -- after the destructor
  -- In `BatchPop`, with the flag that it read, the spans taken so far, and how many more it may take.
  batch_looking : (alive : Bool) (spans : List Message) (n : ℕ) → ConsumerAt
  batch_read : (alive : Bool) (spans : List Message) (n read : ℕ) → ConsumerAt
  batch_both : (alive : Bool) (spans : List Message) (n read write : ℕ) → ConsumerAt
  batch_reading : (alive : Bool) (spans : List Message) (n read : ℕ) → ConsumerAt
  batch_measured : (alive : Bool) (spans : List Message) (n read size : ℕ) → ConsumerAt
  after_batch : (r : PopResult) (spans : List Message) → ConsumerAt  -- between two calls

-- Between two calls.
abbrev pub Rests : ConsumerAt → Type 0
Rests (between r m) = Unit {0}
Rests (after_batch r spans) = Unit {0}
Rests _ = ⊥

abbrev pub span_of : SpscQueue → ℕ → ℕ → Message
span_of q read size = record {
  payload = get_payload_pointer (get_slot_pointer read q.capacity q.slot_size);
  size = size;
}

-- The result on an empty queue.
abbrev pub empty_result : Bool → PopResult
empty_result alive = if not alive then PopResult.channel_closed else PopResult.empty

-- The result of `BatchPop` when it finds nothing more, by the spans that it took.
abbrev pub batch_code : Bool → List Message → PopResult
batch_code alive [] = empty_result alive
batch_code alive (s ∷ ss) = PopResult.success

-- One step of the consumer, with the bytes that the span shows when it is handed out. The load of
-- `producer_alive` is relaxed, and nothing orders it with the load of `write_index` that follows: what
-- it yields is left open.
pub data ConsumerMove (q : SpscQueue)
    : ConsumerAt → SpscQueue → ConsumerAt → List (List ℕ) → Type 0 where
  look_alive : {c : ConsumerAt} (alive : Bool) → Rests c → ConsumerMove q c q (saw alive) []
  take_read : {a : Bool} → ConsumerMove q (saw a) q (saw_read a q.read_index) []
  take_write : {a : Bool} {r : ℕ} → ConsumerMove q (saw_read a r) q (saw_both a r q.write_index) []
  find_empty :
      {a : Bool} {r w : ℕ}
      → is_queue_empty r w q.capacity ≡ true
      → ConsumerMove q (saw_both a r w) q (between (empty_result a) none) []
  find_some :
      {a : Bool} {r w : ℕ}
      → is_queue_empty r w q.capacity ≡ false
      → ConsumerMove q (saw_both a r w) q (reading r) []
  measure :
      {r : ℕ}
      → ConsumerMove q
          (reading r)
          q
          (measured r (read_size_prefix q.buffer (get_slot_pointer r q.capacity q.slot_size)))
          []
  release :
      {r n : ℕ}
      → ConsumerMove q
          (measured r n)
          (record q { read_index = add_u64 r 1 })
          (between PopResult.success (some (span_of q r n)))
          (message_bytes q.buffer (span_of q r n) ∷ [])
  leave :
      {c : ConsumerAt} → Rests c → ConsumerMove q c (record q { consumer_alive = false }) gone []
  batch_nothing :
      {c : ConsumerAt} → Rests c → ConsumerMove q c q (after_batch PopResult.empty []) []
  batch_look_alive :
      {c : ConsumerAt} (alive : Bool) (n : ℕ)
      → Rests c
      → ConsumerMove q c q (batch_looking alive [] (suc n)) []
  batch_take_read :
      {a : Bool} {ss : List Message} {n : ℕ}
      → ConsumerMove q (batch_looking a ss (suc n)) q (batch_read a ss n q.read_index) []
  batch_take_write :
      {a : Bool} {ss : List Message} {n r : ℕ}
      → ConsumerMove q (batch_read a ss n r) q (batch_both a ss n r q.write_index) []
  batch_find_empty :
      {a : Bool} {ss : List Message} {n r w : ℕ}
      → is_queue_empty r w q.capacity ≡ true
      → ConsumerMove q (batch_both a ss n r w) q (after_batch (batch_code a ss) ss) []
  batch_find_some :
      {a : Bool} {ss : List Message} {n r w : ℕ}
      → is_queue_empty r w q.capacity ≡ false
      → ConsumerMove q (batch_both a ss n r w) q (batch_reading a ss n r) []
  batch_measure :
      {a : Bool} {ss : List Message} {n r : ℕ}
      → ConsumerMove q
          (batch_reading a ss n r)
          q
          (batch_measured a ss n r
            (read_size_prefix q.buffer (get_slot_pointer r q.capacity q.slot_size)))
          []
  batch_release :
      {a : Bool} {ss : List Message} {n r k : ℕ}
      → ConsumerMove q
          (batch_measured a ss n r k)
          (record q { read_index = add_u64 r 1 })
          (batch_looking a (ss ++ span_of q r k ∷ []) n)
          (message_bytes q.buffer (span_of q r k) ∷ [])
  batch_full :
      {a : Bool} {ss : List Message}
      → ss ≢ []
      → ConsumerMove q (batch_looking a ss zero) q (after_batch PopResult.success ss) []
