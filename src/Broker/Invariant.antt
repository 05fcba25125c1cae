-- ===== src/Broker/Invariant.antt =====
-- What holds of the broker at any time, and the requests that keep it.
use omni_mailbox.Base.{
  ℕ, ◌+◌, ◌^◌, ◌<◌, ◌≡◌, refl, true, false, Bool-cases, inl, inr, Option, none, length, arith,
}
use omni_mailbox.Base.Words.{u64}
use omni_mailbox.Config.{ChannelError, ChannelConfig, normalize, is_valid}
use omni_mailbox.Config.Normal.{normalize_settles, normalize-Normal}
use omni_mailbox.Spsc.{SpscQueue, spsc_queue}
use omni_mailbox.Spsc.Invariant.{IsValid, spsc_queue-IsValid, flags-IsValid}
use omni_mailbox.Producer.{open_producer, close_producer}
use omni_mailbox.Consumer.{open_consumer}
use omni_mailbox.Broker.{
  Name, Broker, ChannelPair, Allocation, put, contains, register, make_handles, create,
  request_channel, empty_broker,
}
use omni_mailbox.Broker.Registry.{Distinct, Below, Every, put_same, Every-put_above, Every-put}

-- Every name is registered once, every channel has a queue of its own, which is valid, and the
-- counters tell the number of channels.
pub record BrokerIsValid (b : Broker) : Type 0 where
  pub distinct : Distinct b.channels
  pub below : Below b.next b.channels
  pub valid : Every IsValid b.store b.channels
  pub counted : b.total_created ≡ u64 (b.total_destroyed + length b.channels)
  pub fits : b.total_destroyed < 2 ^ 64

-- A new broker is valid.
pub empty_broker-IsValid : (store : ℕ → SpscQueue) → BrokerIsValid (empty_broker store)
unfolding empty_broker
empty_broker-IsValid store = record {
  distinct = tt;
  below = tt;
  valid = tt;
  counted = omega arith;
  fits = omega arith;
}

-- The queue that a request makes.
abbrev pub fresh_queue : ChannelConfig → SpscQueue
fresh_queue config =
    let n = normalize config in
    record (spsc_queue n.capacity n.max_message_size) {
      producer_alive = true;
      consumer_alive = true;
    }

abbrev pub fresh_pair : ℕ → ChannelConfig → ChannelPair
fresh_pair address config = record {
  queue = address;
  producer = record (open_producer (fresh_queue config)) { queue = fresh_queue config };
  consumer = open_consumer (fresh_queue config);
}

pub fresh_queue-IsValid : (config : ChannelConfig) → IsValid (fresh_queue config)
fresh_queue-IsValid config =
    flags-IsValid (spsc_queue (normalize config).capacity (normalize config).max_message_size)
      (spsc_queue-IsValid (normalize config) (normalize-Normal config)).0 true true

-- A write of a valid queue to any address keeps the broker valid.
pub put-IsValid :
    (b : Broker) (a : ℕ) (q : SpscQueue)
    → BrokerIsValid b
    → IsValid q
    → BrokerIsValid (record b { store = put a q b.store })
put-IsValid b a q v valid = record {
  distinct = v.distinct;
  below = v.below;
  valid = Every-put IsValid a q b.store b.channels valid v.valid;
  counted = v.counted;
  fits = v.fits;
}

register-IsValid :
    (now : ℕ) (name : Name) (config : ChannelConfig) (b : Broker)
    → BrokerIsValid b
    → contains name b.channels ≡ false
    → IsValid (spsc_queue config.capacity config.max_message_size)
    → BrokerIsValid (register now name config b)
unfolding register
register-IsValid now name config b v fresh valid =
    let q = spsc_queue config.capacity config.max_message_size in
    record {
      distinct = (fresh, v.distinct);
      below = (omega arith, v.below);
      valid = (
        rw (put_same b.next q b.store) valid,
        Every-put_above IsValid b.next q b.store b.next b.channels v.below (omega arith) v.valid,
      );
      counted = omega (arith, v.counted);
      fits = v.fits;
    }

make_handles-IsValid :
    (allocation : Allocation) (address : ℕ) (b : Broker)
    → BrokerIsValid b
    → IsValid (b.store address)
    → BrokerIsValid (make_handles allocation address b).2
unfolding make_handles open_producer close_producer open_consumer
make_handles-IsValid Allocation.no_producer a b v q = v
make_handles-IsValid Allocation.no_consumer a b v q =
    put-IsValid b a _ v (flags-IsValid (b.store a) q false (b.store a).consumer_alive)
make_handles-IsValid Allocation.granted a b v q =
    put-IsValid b a _ v (flags-IsValid (b.store a) q true true)
make_handles-IsValid Allocation.no_queue a b v q =
    put-IsValid b a _ v (flags-IsValid (b.store a) q true true)
make_handles-IsValid Allocation.no_entry a b v q =
    put-IsValid b a _ v (flags-IsValid (b.store a) q true true)

module _ (now : ℕ) (name : Name) (config : ChannelConfig) (b : Broker) where
  abbrev made : Allocation → ChannelError × Option ChannelPair × Broker
  made allocation = request_channel allocation now name config b

  accepted : is_valid (normalize config) ≡ true
  accepted = (normalize_settles config).0

  pub request_registered :
      contains name b.channels ≡ true
      → (allocation : Allocation) → made allocation ≡ (ChannelError.name_exists, none, b)
  unfolding request_channel
  request_registered there allocation = rw (accepted, there) refl

  pub request_unregistered :
      contains name b.channels ≡ false
      → (allocation : Allocation)
      → made allocation ≡ create allocation now name (normalize config) b
  unfolding request_channel
  request_unregistered fresh allocation = rw (accepted, fresh) refl

  new_queue : IsValid (spsc_queue (normalize config).capacity (normalize config).max_message_size)
  new_queue = (spsc_queue-IsValid (normalize config) (normalize-Normal config)).0

  at_next :
      (register now name (normalize config) b).store b.next
      ≡ spsc_queue (normalize config).capacity (normalize config).max_message_size
  unfolding register
  at_next = put_same b.next _ b.store

  create-IsValid :
      BrokerIsValid b
      → contains name b.channels ≡ false
      → (allocation : Allocation)
      → BrokerIsValid (create allocation now name (normalize config) b).2
  unfolding create
  create-IsValid v fresh allocation = by_allocation allocation
    where
      registered :
          (a : Allocation)
          → BrokerIsValid (make_handles a b.next (register now name (normalize config) b)).2
      registered a =
          make_handles-IsValid a b.next (register now name (normalize config) b)
            (register-IsValid now name (normalize config) b v fresh new_queue)
            (rw at_next new_queue)

      by_allocation : (a : Allocation) → BrokerIsValid (create a now name (normalize config) b).2
      by_allocation Allocation.no_queue = v
      by_allocation Allocation.no_entry = v
      by_allocation Allocation.granted = registered Allocation.granted
      by_allocation Allocation.no_producer = registered Allocation.no_producer
      by_allocation Allocation.no_consumer = registered Allocation.no_consumer

  -- `RequestChannel` keeps the broker valid, whatever it returns and whichever allocation fails.
  pub request_channel-IsValid :
      BrokerIsValid b
      → (allocation : Allocation) → BrokerIsValid (request_channel allocation now name config b).2
  request_channel-IsValid v allocation = elim (Bool-cases (contains name b.channels)) [
    | inl there ↦ rw (request_registered there allocation) v
    | inr fresh ↦ rw (request_unregistered fresh allocation) (create-IsValid v fresh allocation)
  ]
