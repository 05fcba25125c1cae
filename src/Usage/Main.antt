-- ===== src/Usage/Main.antt =====
-- `main` of the basic example: the request of its channel before the threads, and what follows them.
use mathlib.Core.Path.{subst}
use omni_mailbox.Base.{
  ℕ, ◌≡◌, refl, ap, ◌∙◌, true, false, Bool, Option, some, [], ◌∷◌, ◌++◌, length, arith,
}
use omni_mailbox.Base.Words.{add_u64}
use omni_mailbox.Config.{ChannelConfig, normalize}
use omni_mailbox.Spsc.{spsc_queue}
use omni_mailbox.Spsc.Invariant.{contents}
use omni_mailbox.Channel.{Channel}
use omni_mailbox.Channel.Api.{ValidChannel, channel_api}
use omni_mailbox.Broker.{Name, Broker, ChannelPair, Allocation, Stats, get_stats, has_channel}
use omni_mailbox.Broker.Invariant.{fresh_pair}
use omni_mailbox.Broker.Lifetime.{opened}
use omni_mailbox.Broker.Opening.{
  enter, fresh_channel, fresh_channel-IsValid, contents-fresh_queue, enter_lem,
}
use omni_mailbox.Broker.Leaving.{leave, leave-opened}
use omni_mailbox.Usage.{Session, Runs, started}
use omni_mailbox.Usage.Facts.{greetings, Roomy, ProducerFact}
use omni_mailbox.Usage.Order.{Runs-InOrder}
use omni_mailbox.Usage.Ends.{Over}

-- "demo-channel"
abbrev pub demo_channel : Name
demo_channel = 100 ∷ 101 ∷ 109 ∷ 111 ∷ 45 ∷ 99 ∷ 104 ∷ 97 ∷ 110 ∷ 110 ∷ 101 ∷ 108 ∷ []

abbrev pub demo_config : ChannelConfig
demo_config = record { capacity = 16; max_message_size = 256 }

-- Up to the start of the threads. A request that fails is reported, and the threads start all the
-- same, over an empty `optional`: none.
unfoldable pub start_main : Allocation → ℕ → Broker → Option Channel
start_main allocation now b = enter allocation now demo_channel demo_config b

-- After both threads: the handles are destroyed, the channel is removed and the statistics read.
unfoldable pub end_main : ChannelPair → Channel → Broker → Bool × Stats
end_main h ch b = let (removed, b') = leave demo_channel h ch.queue b in (removed, get_stats b')

abbrev pub demo_start : ℕ → ValidChannel
demo_start address = (fresh_channel address demo_config, fresh_channel-IsValid address demo_config)

pub demo_start-Roomy : (address : ℕ) → Roomy (channel_api.shown (demo_start address))
unfolding channel_api normalize spsc_queue
demo_start-Roomy address = record {
  producer_up = refl;
  consumer_up = refl;
  large = omega arith;
  deep = omega arith;
}

pub demo_start-empty : (address : ℕ) → (channel_api.shown (demo_start address)).items ≡ []
unfolding channel_api
demo_start-empty address = contents-fresh_queue demo_config

-- The basic example over a broker with memory for its channel, whose name is not registered: the
-- threads start on a new channel; however they are interleaved, when both have finished, the
-- messages received and those left in the queue are the ten greetings in order, `RemoveChannel`
-- succeeds, as many channels are active as before, one more is counted as created, and the messages
-- that the statistics count are none.
pub usage_lem :
    (now : ℕ) (b : Broker) (d : Session ValidChannel)
    → has_channel demo_channel b ≡ false
    → Runs channel_api (started channel_api (demo_start b.next)) d
    → Over channel_api d
    → let (removed, stats) =
        end_main
          (fresh_pair b.next demo_config)
          d.channel.0
          (opened now demo_channel demo_config b) in
      (start_main Allocation.granted now b ≡ some (demo_start b.next).0)
      × (d.received ++ contents d.channel.0.queue ≡ greetings 10)
      × (removed ≡ true)
      × (stats.active_channels ≡ length b.channels)
      × (stats.total_channels_created ≡ add_u64 b.total_created 1)
      × (stats.total_messages_sent ≡ 0)
unfolding channel_api start_main end_main get_stats
usage_lem now b d fresh r over =
    let kept =
      Runs-InOrder channel_api (demo_start b.next) (demo_start-Roomy b.next)
        (demo_start-empty b.next) r in
    let all_sent = subst (λ p. ProducerFact p d.sent) over.0 kept.producer_fact in
    let (removed, channels, created, _) =
      leave-opened now demo_channel demo_config b d.channel.0.queue fresh in
    (
      enter_lem now demo_channel demo_config b fresh,
      kept.flow ∙ ap greetings all_sent,
      removed,
      ap length channels,
      created,
      refl,
    )
