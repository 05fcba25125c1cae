-- ===== src/Producer.antt =====
-- src/producer_handle.cpp: the producer's handle over the shared queue. Each method takes the
-- handle's state with the queue that it points to, and returns its result with the new state.
-- `notify_one` changes no field.
pub mod Reservation
pub mod Commit
pub mod Push
pub mod BatchPush
use omni_mailbox.Base.{
  ℕ, Bool, true, false, Option, none, some, List, [], ◌∷◌, length, if◌then◌else◌, not, ◌==◌,
}
use omni_mailbox.Base.Words.{add_u64}
use omni_mailbox.Config.{PushResult, ChannelConfig}
use omni_mailbox.Helpers.{
  is_valid_message_size, is_queue_full, get_slot_index, get_slot_pointer, get_payload_pointer,
  write_size_prefix, available_slots,
}
use omni_mailbox.Helpers.Bytes.{memcpy_to}
use omni_mailbox.Spsc.{SpscQueue}

-- `ProducerHandle::Impl`
pub record Producer : Type 0 where
  pub queue : SpscQueue
  pub messages_sent : ℕ
  pub bytes_sent : ℕ
  pub failed_pushes : ℕ
  pub reserved_slot : Option ℕ

-- `ProducerHandle::ReserveResult`: the payload's place in the buffer, and the bytes it may take.
pub record ReserveResult : Type 0 where
  pub destination : ℕ
  pub capacity : ℕ

-- `ProducerHandle::Stats`
pub record Stats : Type 0 where
  pub messages_sent : ℕ
  pub bytes_sent : ℕ
  pub failed_pushes : ℕ

-- The constructor of `Impl` signals that the producer is alive.
unfoldable pub open_producer : SpscQueue → Producer
open_producer q = record {
  queue = record q { producer_alive = true };
  messages_sent = 0;
  bytes_sent = 0;
  failed_pushes = 0;
  reserved_slot = none;
}

-- `failed_pushes_.fetch_add(1)`
abbrev pub count_failure : Producer → Producer
count_failure p = record p { failed_pushes = add_u64 p.failed_pushes 1 }

abbrev pub has_value : Option ℕ → Bool
has_value none = false
has_value (some k) = true

unfoldable pub reserve : ℕ → Producer → Option ReserveResult × Producer
reserve bytes p =
    let q = p.queue in
    let slot = get_slot_pointer q.write_index q.capacity q.slot_size in
    if not (is_valid_message_size bytes q.max_message_size)
    then (none, p)
    else if has_value p.reserved_slot
    then (none, p)
    else if not q.consumer_alive
    then (none, p)
    else if is_queue_full q.write_index q.read_index q.capacity
    then (none, p)
    else (
      some (record { destination = get_payload_pointer slot; capacity = q.max_message_size }),
      record p { reserved_slot = some (get_slot_index q.write_index q.capacity) },
    )

-- The size prefix goes to the reserved slot, and the next slot is published.
pub publish_slot : ℕ → ℕ → Producer → Producer
publish_slot slot_index actual_bytes p =
    let q = p.queue in
    let slot = get_slot_pointer slot_index q.capacity q.slot_size in
    record p {
      queue = record q {
        buffer = write_size_prefix q.buffer slot actual_bytes;
        write_index = add_u64 q.write_index 1;
      };
      messages_sent = add_u64 p.messages_sent 1;
      bytes_sent = add_u64 p.bytes_sent actual_bytes;
      reserved_slot = none;
    }

unfoldable pub commit : ℕ → Producer → Bool × Producer
unfolding publish_slot
commit actual_bytes p =
    if not (is_valid_message_size actual_bytes p.queue.max_message_size)
    then (false, p)
    else elim p.reserved_slot [
      | none ↦ (false, p)
      | some slot_index ↦ (true, publish_slot slot_index actual_bytes p)
    ]

pub rollback : Producer → Producer
rollback p = record p { reserved_slot = none }

-- `std::memcpy(result->data, …)`, also what a caller of `Reserve` does before `Commit`.
abbrev pub fill : ℕ → List ℕ → Producer → Producer
fill destination source p = record p {
  queue = record p.queue { buffer = memcpy_to p.queue.buffer destination source };
}

-- What follows a successful `Reserve` in `TryPush` and in `BlockingPush`.
unfoldable pub fill_and_commit : ℕ → List ℕ → Producer → PushResult × Producer
fill_and_commit destination source p =
    let (committed, p') = commit (length source) (fill destination source p) in
    if committed then (PushResult.success, p') else (PushResult.queue_full, count_failure p')

unfoldable pub try_push : List ℕ → Producer → PushResult × Producer
try_push source p =
    let (result, p') = reserve (length source) p in
    if not (is_valid_message_size (length source) p.queue.max_message_size)
    then (PushResult.invalid_size, p)
    else if not p.queue.consumer_alive
    then (PushResult.channel_closed, count_failure p)
    else elim result [
      | none ↦ (PushResult.queue_full, count_failure p')
      | some r ↦ fill_and_commit r.destination source p'
    ]

-- The validation loop of `BatchPush`.
unfoldable pub all_valid : ℕ → List (List ℕ) → Bool
all_valid limit [] = true
all_valid limit (m ∷ ms) =
    if is_valid_message_size (length m) limit then all_valid limit ms else false

-- One round of the loop: prefix, payload, then the index.
pub write_message : List ℕ → SpscQueue → SpscQueue
write_message m q =
    let slot = get_slot_pointer q.write_index q.capacity q.slot_size in
    record q {
      buffer = memcpy_to (write_size_prefix q.buffer slot (length m)) (get_payload_pointer slot) m;
      write_index = add_u64 q.write_index 1;
    }

pub record Batch : Type 0 where
  pub queue : SpscQueue
  pub pushed : ℕ
  pub total_bytes : ℕ

-- The loop of `BatchPush`, left at the first message that finds the queue full.
pub batch_loop : List (List ℕ) → Batch → Batch
batch_loop [] b = b
batch_loop (m ∷ ms) b =
    let q = b.queue in
    let rest = batch_loop ms (record {
      queue = write_message m q;
      pushed = add_u64 b.pushed 1;
      total_bytes = add_u64 b.total_bytes (length m);
    }) in
    if is_queue_full q.write_index q.read_index q.capacity then b else rest

pub batch_push : List (List ℕ) → Producer → ℕ × Producer
batch_push [] p = (0, p)
batch_push (m ∷ ms) p =
    let b = batch_loop (m ∷ ms) (record { queue = p.queue; pushed = 0; total_bytes = 0 }) in
    if not (all_valid p.queue.max_message_size (m ∷ ms))
    then (0, p)
    else if not p.queue.consumer_alive
    then (0, p)
    else if b.pushed == 0
    then (b.pushed, record p { queue = b.queue })
    else (
      b.pushed,
      record p {
        queue = b.queue;
        messages_sent = add_u64 p.messages_sent b.pushed;
        bytes_sent = add_u64 p.bytes_sent b.total_bytes;
      },
    )

unfoldable pub is_connected : Producer → Bool
is_connected p = p.queue.consumer_alive

unfoldable pub slots_left : Producer → ℕ
slots_left p = available_slots p.queue.write_index p.queue.read_index p.queue.capacity

unfoldable pub get_config : Producer → ChannelConfig
get_config p = record { capacity = p.queue.capacity; max_message_size = p.queue.max_message_size }

get_stats : Producer → Stats
get_stats p = record {
  messages_sent = p.messages_sent;
  bytes_sent = p.bytes_sent;
  failed_pushes = p.failed_pushes;
}

-- The destructor, of a handle that was not moved from.
unfoldable pub close_producer : Producer → SpscQueue
close_producer p = record p.queue { producer_alive = false }
