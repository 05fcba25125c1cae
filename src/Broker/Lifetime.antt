-- ===== src/Broker/Lifetime.antt =====
-- A channel from its request to its removal.
use omni_mailbox.Base.{
  ℕ, ◌≡◌, refl, ap, ◌∙◌, true, false, some, List, ◌∷◌, eq→==, arith, if◌then◌else◌, ◌||◌, ◌==◌,
}
use omni_mailbox.Config.{ChannelConfig, normalize}
use omni_mailbox.Spsc.{SpscQueue}
use omni_mailbox.Producer.{close_producer}
use omni_mailbox.Consumer.{close_consumer}
use omni_mailbox.Broker.{
  Name, Broker, ChannelPair, ChannelState, Allocation, find, contains, register, request_channel,
  has_channel, remove_channel, remove_entry, drop_producer, drop_consumer,
}
use omni_mailbox.Broker.Registry.{same_name_refl, put_same}
use omni_mailbox.Broker.Invariant.{fresh_queue, fresh_pair}
use omni_mailbox.Broker.Request.{granted_lem}

module _ (now : ℕ) (name : Name) (config : ChannelConfig) (b : Broker) where
  abbrev pub opened : Broker
  opened = (request_channel Allocation.granted now name config b).2

  abbrev handles : ChannelPair
  handles = fresh_pair b.next config

  -- What `RemoveChannel` answers over a broker whose newest entry is that of the name.
  remove_newest :
      (b' : Broker) (ss : List ChannelState)
      → b'.channels ≡ record { queue = b.next; name = name; created_at = now } ∷ ss
      → (has_channel name b' ≡ true)
        × ((remove_channel name b').0 ≡ (
            if (b'.store b.next).producer_alive || (b'.store b.next).consumer_alive
            then false
            else true))
  unfolding has_channel contains find remove_channel remove_entry
  remove_newest b' ss e = rw (e, same_name_refl name) (refl, ground arith)

  -- What `RemoveChannel` answers with both handles, without the producer's, without the consumer's,
  -- and without both, whichever was destroyed first.
  abbrev Ends : Broker → Type 0
  Ends b' =
      let both = drop_consumer handles (drop_producer handles b') in
      let reversed = drop_producer handles (drop_consumer handles b') in
      ((remove_channel name b').0 ≡ false)
      × ((remove_channel name (drop_producer handles b')).0 ≡ false)
      × ((remove_channel name (drop_consumer handles b')).0 ≡ false)
      × ((has_channel name both ≡ true) × ((remove_channel name both).0 ≡ true))
      × ((has_channel name reversed ≡ true) × ((remove_channel name reversed).0 ≡ true))

  after_drops :
      (b' : Broker) (ss : List ChannelState)
      → b'.channels ≡ record { queue = b.next; name = name; created_at = now } ∷ ss
      → (b'.store b.next).producer_alive ≡ true
      → (b'.store b.next).consumer_alive ≡ true
      → Ends b'
  unfolding drop_producer drop_consumer close_producer close_consumer
  after_drops b' ss e sending alive =
      let here : (b.next == b.next) ≡ true = eq→== b.next b.next refl in
      let both = drop_consumer handles (drop_producer handles b') in
      let (_, first) = remove_newest b' ss e in
      let (_, second) = remove_newest (drop_producer handles b') ss e in
      let reversed = drop_producer handles (drop_consumer handles b') in
      let (_, other) = remove_newest (drop_consumer handles b') ss e in
      let (there, third) = remove_newest both ss e in
      let (there', fourth) = remove_newest reversed ss e in
      (
        first ∙ ground (arith, alive),
        second ∙ rw here (ground (arith, alive)),
        other ∙ rw here (ground (arith, sending)),
        (there, third ∙ rw here refl),
        (there', fourth ∙ rw here refl),
      )

  -- A request for a new name, with memory for it, returns two handles. `RemoveChannel` refuses the
  -- name while both are left, while only the consumer's is, and while only the producer's is. When
  -- both were destroyed, in either order, the name is still registered and `RemoveChannel` succeeds.
  pub remove_after_handles :
      has_channel name b ≡ false
      → let without_producer = drop_producer handles opened in
        let without_consumer = drop_consumer handles opened in
        let both = drop_consumer handles without_producer in
        let reversed = drop_producer handles without_consumer in
        ((request_channel Allocation.granted now name config b).1 ≡ some handles)
        × ((remove_channel name opened).0 ≡ false)
        × ((remove_channel name without_producer).0 ≡ false)
        × ((remove_channel name without_consumer).0 ≡ false)
        × ((has_channel name both ≡ true) × ((remove_channel name both).0 ≡ true))
        × ((has_channel name reversed ≡ true) × ((remove_channel name reversed).0 ≡ true))
  unfolding has_channel register
  remove_after_handles fresh =
      let e = granted_lem now name config b fresh in
      let queue : opened.store b.next ≡ fresh_queue config =
        ap (λ x. x.2.store b.next) e
        ∙ put_same b.next (fresh_queue config) (register now name (normalize config) b).store in
      let (all_left, consumer_left, producer_left, none_left, none_left') =
        after_drops opened b.channels (ap (λ x. x.2.channels) e)
          (ap (λ (q : SpscQueue). q.producer_alive) queue)
          (ap (λ (q : SpscQueue). q.consumer_alive) queue) in
      (ap (λ x. x.1) e, all_left, consumer_left, producer_left, none_left, none_left')
