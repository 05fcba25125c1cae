-- ===== src/Broker.antt =====
-- src/broker.cpp: the registry of named channels. The queues live in a store, since the registry
-- and the two handles share them by pointer; an address is a number, and `make_shared` takes the
-- next one. The registry is a list of its entries, whose order nothing reads. Its lock makes each
-- method one step.
pub mod Registry
pub mod Lifetime
pub mod Shutdown
pub mod Remove
pub mod Request
pub mod Invariant
pub mod Moves
pub mod System
pub mod Opening
pub mod Leaving
use omni_mailbox.Base.{
  ℕ, ◌+◌, Bool, true, false, Option, none, some, List, [], ◌∷◌, length, if◌then◌else◌, ◌==◌, ◌&&◌,
  ◌||◌, not,
}
use omni_mailbox.Base.Words.{add_u64}
use omni_mailbox.Config.{ChannelError, ChannelConfig, normalize, is_valid}
use omni_mailbox.Spsc.{SpscQueue, spsc_queue}
use omni_mailbox.Producer.{Producer, open_producer, close_producer}
use omni_mailbox.Consumer.{Consumer, open_consumer, close_consumer}

-- The bytes of a `std::string`.
abbrev pub Name : Type 0
Name = List ℕ

unfoldable pub same_name : Name → Name → Bool
same_name [] [] = true
same_name (x ∷ xs) (y ∷ ys) = (x == y) && same_name xs ys
same_name _ _ = false

-- `ChannelState`, with the address of its queue.
pub record ChannelState : Type 0 where
  pub queue : ℕ
  pub name : Name
  pub created_at : ℕ

-- `MailboxBroker::Impl`, and the store.
pub record Broker : Type 0 where
  pub store : ℕ → SpscQueue
  pub next : ℕ
  pub channels : List ChannelState
  pub total_created : ℕ
  pub total_destroyed : ℕ

-- `ChannelPair`: both handles point to the queue at one address.
pub record ChannelPair : Type 0 where
  pub queue : ℕ
  pub producer : Producer
  pub consumer : Consumer

-- `MailboxBroker::Stats`
pub record Stats : Type 0 where
  pub active_channels : ℕ
  pub total_channels_created : ℕ
  pub total_messages_sent : ℕ
  pub total_bytes_transferred : ℕ

-- Which allocation in the `try` block of `RequestChannel` throws `bad_alloc`, if any: the queue, the
-- entry of the registry, the producer's handle, the consumer's handle.
pub data Allocation : Type 0 where
  granted no_queue no_entry no_producer no_consumer : Allocation

-- The store with a queue written to an address.
abbrev pub put : ℕ → SpscQueue → (ℕ → SpscQueue) → ℕ → SpscQueue
put address q store a = if a == address then q else store a

-- `channels_.find`
unfoldable pub find : Name → List ChannelState → Option ChannelState
find name [] = none
find name (s ∷ ss) = if same_name s.name name then some s else find name ss

-- `channels_.contains`
abbrev pub is_some : Option ChannelState → Bool
is_some none = false
is_some (some s) = true

unfoldable pub contains : Name → List ChannelState → Bool
contains name channels = is_some (find name channels)

-- `channels_.erase`, at the entry that `find` found.
pub erase : Name → List ChannelState → List ChannelState
erase name [] = []
erase name (s ∷ ss) = if same_name s.name name then ss else s ∷ erase name ss

-- The queue is made and its entry registered.
pub register : ℕ → Name → ChannelConfig → Broker → Broker
register now name config b = record b {
  store = put b.next (spsc_queue config.capacity config.max_message_size) b.store;
  next = b.next + 1;
  channels = record { queue = b.next; name = name; created_at = now } ∷ b.channels;
  total_created = add_u64 b.total_created 1;
}

-- The two handles over the queue at `address`. A throw from the second constructor destroys the
-- first handle.
pub make_handles : Allocation → ℕ → Broker → ChannelError × Option ChannelPair × Broker
make_handles Allocation.no_producer address b = (ChannelError.allocation_failed, none, b)
make_handles Allocation.no_consumer address b =
    let p = open_producer (b.store address) in
    (
      ChannelError.allocation_failed,
      none,
      record b { store = put address (close_producer p) b.store },
    )
make_handles _ address b =
    let p = open_producer (b.store address) in
    let c = open_consumer p.queue in
    (
      ChannelError.success,
      some (record { queue = address; producer = record p { queue = c.queue }; consumer = c }),
      record b { store = put address c.queue b.store },
    )

-- The `try` block.
pub create :
    Allocation → ℕ → Name → ChannelConfig → Broker → ChannelError × Option ChannelPair × Broker
create Allocation.no_queue now name config b = (ChannelError.allocation_failed, none, b)
create Allocation.no_entry now name config b = (ChannelError.allocation_failed, none, b)
create allocation now name config b = make_handles allocation b.next (register now name config b)

-- The call when the name was copied for its lookup.
pub request_channel :
    Allocation → ℕ → Name → ChannelConfig → Broker → ChannelError × Option ChannelPair × Broker
request_channel allocation now name config b =
    let normalized = normalize config in
    if not (is_valid normalized)
    then (ChannelError.invalid_config, none, b)
    else if contains name b.channels
    then (ChannelError.name_exists, none, b)
    else create allocation now name normalized b

-- `contains` looks up a copy of the name that is made outside the `try` block: when it throws, the
-- `noexcept` function terminates the program, and there is no result.
pub request_or_terminate :
    (copied : Bool)
    → Allocation
    → ℕ
    → Name
    → ChannelConfig
    → Broker
    → Option (ChannelError × Option ChannelPair × Broker)
request_or_terminate copied allocation now name config b =
    if not (is_valid (normalize config))
    then some (ChannelError.invalid_config, none, b)
    else if copied
    then some (request_channel allocation now name config b)
    else none

unfoldable pub has_channel : Name → Broker → Bool
has_channel name b = contains name b.channels

-- What follows the lookup of `RemoveChannel`.
pub remove_entry : Name → Option ChannelState → Broker → Bool × Broker
remove_entry name none b = (false, b)
remove_entry name (some s) b =
    let q = b.store s.queue in
    if q.producer_alive || q.consumer_alive then (false, b) else (
      true,
      record b { channels = erase name b.channels; total_destroyed = add_u64 b.total_destroyed 1 },
    )

pub remove_channel : Name → Broker → Bool × Broker
remove_channel name b = remove_entry name (find name b.channels) b

-- The loop over the channels adds nothing.
unfoldable pub get_stats : Broker → Stats
get_stats b = record {
  active_channels = length b.channels;
  total_channels_created = b.total_created;
  total_messages_sent = 0;
  total_bytes_transferred = 0;
}

-- The loop of `Shutdown`.
pub stop_all : List ChannelState → (ℕ → SpscQueue) → ℕ → SpscQueue
stop_all [] store = store
stop_all (s ∷ ss) store =
    let q = store s.queue in
    stop_all ss (put s.queue (record q { producer_alive = false; consumer_alive = false }) store)

pub shutdown : Broker → Broker
shutdown b = record b { store = stop_all b.channels b.store }

-- The destructors of two handles of a channel.
pub drop_producer : ChannelPair → Broker → Broker
drop_producer h b = record b {
  store = put h.queue (close_producer (record h.producer { queue = b.store h.queue })) b.store;
}

pub drop_consumer : ChannelPair → Broker → Broker
drop_consumer h b = record b {
  store = put h.queue (close_consumer (record h.consumer { queue = b.store h.queue })) b.store;
}

-- The broker as its constructor leaves it, over an arbitrary store.
unfoldable pub empty_broker : (ℕ → SpscQueue) → Broker
empty_broker store = record {
  store = store;
  next = 0;
  channels = [];
  total_created = 0;
  total_destroyed = 0;
}
