-- ===== src/Consumer.antt =====
-- src/consumer_handle.cpp: the consumer's handle over the shared queue. Each method takes the
-- handle's state with the queue that it points to, and returns its result with the new state.
pub mod Pop
pub mod Batch
use omni_mailbox.Base.{
  ℕ, zero, suc, Bool, true, false, Option, none, some, List, [], ◌∷◌, if◌then◌else◌, not, ◌==◌,
}
use omni_mailbox.Base.Words.{add_u64}
use omni_mailbox.Config.{PopResult, ChannelConfig}
use omni_mailbox.Helpers.{
  is_queue_empty, get_slot_pointer, get_payload_pointer, read_size_prefix, available_messages,
}
use omni_mailbox.Helpers.Bytes.{memcpy_from}
use omni_mailbox.Spsc.{SpscQueue}

-- `ConsumerHandle::Stats`
pub record Stats : Type 0 where
  pub messages_received : ℕ
  pub bytes_received : ℕ
  pub failed_pops : ℕ

-- `ConsumerHandle::Impl`. No method reads or writes `message_buffer`.
pub record Consumer : Type 0 where
  pub queue : SpscQueue
  pub statistics : Stats
  pub message_buffer : List ℕ

-- `ConsumerHandle::Message`: a span of the ring buffer.
pub record Message : Type 0 where
  pub payload : ℕ
  pub size : ℕ

-- `Message::Data`, read out of a buffer.
abbrev pub message_bytes : List ℕ → Message → List ℕ
message_bytes buffer m = memcpy_from buffer m.payload m.size

-- The constructor of `Impl` signals that the consumer is alive.
unfoldable pub open_consumer : SpscQueue → Consumer
open_consumer q = record {
  queue = record q { consumer_alive = true };
  statistics = record { messages_received = 0; bytes_received = 0; failed_pops = 0 };
  message_buffer = [];
}

-- `statistics.failed_pops++`
abbrev pub count_failure : Consumer → Consumer
count_failure c = record c {
  statistics = record c.statistics { failed_pops = add_u64 c.statistics.failed_pops 1 };
}

-- The span over the oldest slot.
pub front_message : SpscQueue → Message
front_message q =
    let slot = get_slot_pointer q.read_index q.capacity q.slot_size in
    record { payload = get_payload_pointer slot; size = read_size_prefix q.buffer slot }

-- The release of that slot, and the statistics.
unfoldable pub advance : Consumer → Consumer
advance c = record c {
  queue = record c.queue { read_index = add_u64 c.queue.read_index 1 };
  statistics = record c.statistics {
    messages_received = add_u64 c.statistics.messages_received 1;
    bytes_received = add_u64 c.statistics.bytes_received (front_message c.queue).size;
  };
}

pub try_pop : Consumer → PopResult × Option Message × Consumer
try_pop c =
    let q = c.queue in
    if is_queue_empty q.read_index q.write_index q.capacity
    then (if not q.producer_alive
        then (PopResult.channel_closed, none, count_failure c)
        else (PopResult.empty, none, c))
    else (PopResult.success, some (front_message q), advance c)

-- The loop of `BatchPop` with room for `n` more messages.
unfoldable pub drain : ℕ → Consumer → List Message × Consumer
drain zero c = ([], c)
drain (suc n) c =
    let q = c.queue in
    let (ms, c') = drain n (advance c) in
    if is_queue_empty q.read_index q.write_index q.capacity
    then ([], c)
    else (front_message q ∷ ms, c')

-- What `BatchPop` returns after its loop, by what it took and by the flag that it read before.
pub batch_result : Bool → List Message × Consumer → PopResult × List Message × Consumer
batch_result producer_alive (m ∷ ms, c) = (PopResult.success, m ∷ ms, c)
batch_result producer_alive ([], c) =
    if not producer_alive
    then (PopResult.channel_closed, [], count_failure c)
    else (PopResult.empty, [], c)

-- `BatchPop` with the default timeout of zero.
unfoldable pub batch_pop : ℕ → Consumer → PopResult × List Message × Consumer
batch_pop max_count c =
    if max_count == 0
    then (PopResult.empty, [], c)
    else batch_result c.queue.producer_alive (drain max_count c)

unfoldable pub is_connected : Consumer → Bool
is_connected c = c.queue.producer_alive

unfoldable pub messages_waiting : Consumer → ℕ
messages_waiting c = available_messages c.queue.read_index c.queue.write_index c.queue.capacity

unfoldable pub get_config : Consumer → ChannelConfig
get_config c = record { capacity = c.queue.capacity; max_message_size = c.queue.max_message_size }

get_stats : Consumer → Stats
get_stats c = c.statistics

-- The destructor, of a handle that was not moved from.
unfoldable pub close_consumer : Consumer → SpscQueue
close_consumer c = record c.queue { consumer_alive = false }
