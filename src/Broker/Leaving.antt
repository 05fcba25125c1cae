-- ===== src/Broker/Leaving.antt =====
-- How the examples end: the pair of handles is destroyed, and the channel removed.
use omni_mailbox.Base.{ℕ, ◌≡◌, refl, ap, true, false, Bool, ◌∷◌, eq→==, ◌==◌}
use omni_mailbox.Base.Words.{add_u64}
use omni_mailbox.Config.{ChannelConfig}
use omni_mailbox.Spsc.{SpscQueue}
use omni_mailbox.Producer.{close_producer}
use omni_mailbox.Consumer.{close_consumer}
use omni_mailbox.Broker.{
  Name, Broker, ChannelPair, put, find, erase, register, has_channel, remove_channel, remove_entry,
  drop_producer, drop_consumer,
}
use omni_mailbox.Broker.Registry.{same_name_refl}
use omni_mailbox.Broker.Invariant.{fresh_pair}
use omni_mailbox.Broker.Request.{granted_lem}
use omni_mailbox.Broker.Lifetime.{opened}

-- `channel.reset()` and `RemoveChannel`, over the queue as the threads left it. The members of a
-- pair are destroyed in reverse order.
unfoldable pub leave : Name → ChannelPair → SpscQueue → Broker → Bool × Broker
leave name h q b =
    remove_channel name
      (drop_producer h (drop_consumer h (record b { store = put h.queue q b.store })))

module _ (now : ℕ) (name : Name) (config : ChannelConfig) (b : Broker) where
  opened_lem :
      has_channel name b ≡ false
      → ((opened now name config b).channels
          ≡ record { queue = b.next; name = name; created_at = now } ∷ b.channels)
        × ((opened now name config b).total_created ≡ add_u64 b.total_created 1)
        × ((opened now name config b).total_destroyed ≡ b.total_destroyed)
  unfolding has_channel register
  opened_lem fresh =
      let e = granted_lem now name config b fresh in
      (ap (λ x. x.2.channels) e, ap (λ x. x.2.total_created) e, ap (λ x. x.2.total_destroyed) e)

  pub leave-opened :
      (q : SpscQueue)
      → has_channel name b ≡ false
      → let (removed, b') = leave name (fresh_pair b.next config) q (opened now name config b) in
        (removed ≡ true)
        × (b'.channels ≡ b.channels)
        × (b'.total_created ≡ add_u64 b.total_created 1)
        × (b'.total_destroyed ≡ add_u64 b.total_destroyed 1)
  unfolding leave remove_channel remove_entry drop_producer drop_consumer close_producer
      close_consumer find erase
  leave-opened q fresh =
      let here : (b.next == b.next) ≡ true = eq→== b.next b.next refl in
      let (channels, created, destroyed) = opened_lem fresh in
      rw (channels, same_name_refl name, here, created, destroyed)
        (refl, rw (same_name_refl name) refl, refl, refl)
