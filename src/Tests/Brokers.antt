-- ===== src/Tests/Brokers.antt =====
-- A broker with one channel.
use omni_mailbox.Base.{ℕ, ◌≡◌, ◌≢◌, ◌⊎◌, refl, true, false, none, some, [], ◌∷◌, inr, arith}
use omni_mailbox.Config.{ChannelError, ChannelConfig}
use omni_mailbox.Broker.{
  Broker, ChannelState, Allocation, Name, find, contains, has_channel, remove_channel,
  request_channel, request_or_terminate, empty_broker, drop_producer, drop_consumer,
}
use omni_mailbox.Broker.Registry.{same_name_refl}
use omni_mailbox.Broker.Invariant.{
  BrokerIsValid, fresh_pair, empty_broker-IsValid, request_channel-IsValid,
}
use omni_mailbox.Broker.Lifetime.{remove_after_handles}
use omni_mailbox.Broker.Moves.{
  OwnedProducer, move_construct, move_assign, destroy_producer, destroy_consumer, OwnedConsumer,
  assigned_over,
}
use omni_mailbox.Broker.Request.{Requested, request_granted, request_refused, request_stranded}
use omni_mailbox.Broker.Remove.{Removable, Removed, remove_channel_lem}
use omni_mailbox.Tests.Fixtures.{smallest, wrapped, idle, reader}

abbrev a_name : Name
a_name = 97 ∷ []

abbrev nothing : Broker
nothing = empty_broker (λ a. wrapped)

-- A broker with one channel, which then is shut down.
abbrev one : Broker
one = (request_channel Allocation.granted 5 a_name smallest nothing).2

nothing-IsValid : BrokerIsValid nothing
nothing-IsValid = empty_broker-IsValid (λ a. wrapped)

one-IsValid : BrokerIsValid one
one-IsValid = request_channel-IsValid 5 a_name smallest nothing nothing-IsValid Allocation.granted

not_there : has_channel a_name nothing ≡ false
unfolding has_channel contains find empty_broker
not_there = refl

request_granted_example :
    let (e, h, b') = request_channel Allocation.granted 5 a_name smallest nothing in
    Requested 5 a_name smallest nothing e h b'
request_granted_example = request_granted 5 a_name smallest nothing nothing-IsValid not_there

request_stranded_example :
    let (e, h, b') = request_channel Allocation.no_consumer 5 a_name smallest nothing in
    (e ≡ ChannelError.allocation_failed)
    × (h ≡ none)
    × (has_channel a_name b' ≡ true)
    × (remove_channel a_name b' ≡ (false, b'))
    × ((next : Allocation) (now' : ℕ) (config' : ChannelConfig)
        → request_channel next now' a_name config' b' ≡ (ChannelError.name_exists, none, b'))
request_stranded_example =
    request_stranded 5 a_name smallest nothing Allocation.no_consumer (inr refl) not_there

request_refused_example :
    let (e, h, b') = request_channel Allocation.granted 6 a_name smallest one in
    (request_or_terminate true Allocation.granted 6 a_name smallest one ≡ some (e, h, b'))
    × (((has_channel a_name one ≡ true) × (e ≡ ChannelError.name_exists) × (h ≡ none) × (b' ≡ one))
        ⊎ ((has_channel a_name one ≡ false) × (e ≢ ChannelError.name_exists)))
    × (e ≢ ChannelError.invalid_config)
request_refused_example = request_refused 6 a_name smallest one true Allocation.granted

remove_channel_lem_example :
    (Removable a_name one
      × ((remove_channel a_name one).0 ≡ true)
      × Removed a_name one (remove_channel a_name one).1)
    ⊎ (¬ Removable a_name one × (remove_channel a_name one ≡ (false, one)))
remove_channel_lem_example = remove_channel_lem a_name one one-IsValid

remove_after_handles_example :
    let pair = fresh_pair nothing.next smallest in
    let without_producer = drop_producer pair one in
    let without_consumer = drop_consumer pair one in
    let both = drop_consumer pair without_producer in
    let reversed = drop_producer pair without_consumer in
    ((request_channel Allocation.granted 5 a_name smallest nothing).1 ≡ some pair)
    × ((remove_channel a_name one).0 ≡ false)
    × ((remove_channel a_name without_producer).0 ≡ false)
    × ((remove_channel a_name without_consumer).0 ≡ false)
    × ((has_channel a_name both ≡ true) × ((remove_channel a_name both).0 ≡ true))
    × ((has_channel a_name reversed ≡ true) × ((remove_channel a_name reversed).0 ≡ true))
remove_after_handles_example = remove_after_handles 5 a_name smallest nothing not_there

-- A broker with two channels, and a handle of each.
abbrev first_entry : ChannelState
first_entry = record { queue = 0; name = a_name; created_at = 5 }

abbrev two : Broker
two = record {
  store = λ a. wrapped;
  next = 2;
  channels = first_entry ∷ record { queue = 1; name = 98 ∷ []; created_at = 6 } ∷ [];
  total_created = 2;
  total_destroyed = 0;
}

abbrev first_handle : OwnedProducer
first_handle = record { queue = 0; impl = idle }

abbrev second_handle : OwnedProducer
second_handle = record { queue = 1; impl = idle }

found_first : find a_name two.channels ≡ some first_entry
unfolding find
found_first = rw (same_name_refl a_name) refl

abbrev first_consumer : OwnedConsumer
first_consumer = record { queue = 0; impl = reader }

abbrev second_consumer : OwnedConsumer
second_consumer = record { queue = 1; impl = reader }

assigned_over_example :
    let (target, source) = move_assign (some first_handle) (some second_handle) in
    let (taker, giver) = move_assign (some first_consumer) (some second_consumer) in
    let (kept, hollow) = move_construct (some first_handle) in
    let (filled, emptied) = move_assign hollow (some second_handle) in
    ((remove_channel a_name (
        destroy_consumer
          (some first_consumer)
          (destroy_producer source (destroy_producer target two)))).0
      ≡ false)
    × ((remove_channel a_name (
          destroy_consumer giver
            (destroy_consumer taker (destroy_producer (some first_handle) two)))).0
        ≡ false)
    × ((remove_channel a_name (
          destroy_consumer
            (some first_consumer)
            (destroy_producer emptied (destroy_producer filled (destroy_producer kept two))))).0
        ≡ true)
assigned_over_example =
    assigned_over a_name first_entry two first_handle second_handle first_consumer second_consumer
      found_first refl refl (omega arith) (omega arith) refl refl
