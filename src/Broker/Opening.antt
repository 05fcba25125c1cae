-- ===== src/Broker/Opening.antt =====
-- The channel that a granted request hands to two threads.
use omni_mailbox.Base.{ℕ, ◌≡◌, refl, ap, false, Option, none, some, [], arith}
use omni_mailbox.Config.{ChannelConfig, normalize}
use omni_mailbox.Config.Normal.{normalize-Normal}
use omni_mailbox.Spsc.{SpscQueue}
use omni_mailbox.Spsc.Invariant.{contents, spsc_queue-IsValid}
use omni_mailbox.Producer.{open_producer}
use omni_mailbox.Channel.{Channel}
use omni_mailbox.Channel.Refine.{ChannelIsValid}
use omni_mailbox.Broker.{
  Name, Broker, ChannelPair, Allocation, request_channel, register, has_channel,
}
use omni_mailbox.Broker.Registry.{put_same}
use omni_mailbox.Broker.Invariant.{fresh_queue, fresh_pair, fresh_queue-IsValid}
use omni_mailbox.Broker.Request.{channel_of, granted_lem}

-- The threads' channel, or none where the empty `optional` is followed.
unfoldable pub opened_channel : Option ChannelPair → Broker → Option Channel
opened_channel none b = none
opened_channel (some h) b = some (channel_of b h)

-- What the threads of an example find after its request.
unfoldable pub enter : Allocation → ℕ → Name → ChannelConfig → Broker → Option Channel
enter allocation now name config b =
    let (e, h, b') = request_channel allocation now name config b in opened_channel h b'

abbrev pub fresh_channel : ℕ → ChannelConfig → Channel
fresh_channel address config =
    let h = fresh_pair address config in
    record { queue = fresh_queue config; producer = h.producer; consumer = h.consumer }

pub fresh_channel-IsValid :
    (address : ℕ) (config : ChannelConfig) → ChannelIsValid (fresh_channel address config)
unfolding open_producer
fresh_channel-IsValid address config = record {
  queue_valid = fresh_queue-IsValid config;
  unreserved = refl;
  sent_fits = omega arith;
  bytes_fit = omega arith;
}

pub contents-fresh_queue : (config : ChannelConfig) → contents (fresh_queue config) ≡ []
contents-fresh_queue config = (spsc_queue-IsValid (normalize config) (normalize-Normal config)).1

pub enter_lem :
    (now : ℕ) (name : Name) (config : ChannelConfig) (b : Broker)
    → has_channel name b ≡ false
    → enter Allocation.granted now name config b ≡ some (fresh_channel b.next config)
unfolding enter opened_channel has_channel
enter_lem now name config b fresh = rw (granted_lem now name config b fresh) (
    ap (λ (q : SpscQueue). some (record (fresh_channel b.next config) { queue = q }))
      (put_same b.next (fresh_queue config) (register now name (normalize config) b).store))
