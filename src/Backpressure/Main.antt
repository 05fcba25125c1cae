-- ===== src/Backpressure/Main.antt =====
-- `main` of the backpressure demonstration: the request of its channel before the threads, and what
-- follows them. The results that it prints are the counters; the drop rate is left out.
use omni_mailbox.Base.{
  ℕ, ◌+◌, ◌≡◌, refl, true, false, Bool, Option, some, List, [], ◌∷◌, length, arith,
}
use omni_mailbox.Config.{ChannelConfig, normalize}
use omni_mailbox.Spsc.{spsc_queue}
use omni_mailbox.Spsc.Invariant.{contents}
use omni_mailbox.Channel.{Channel}
use omni_mailbox.Channel.Api.{ValidChannel, channel_api}
use omni_mailbox.Broker.{Name, Broker, ChannelPair, Allocation, has_channel}
use omni_mailbox.Broker.Invariant.{fresh_pair}
use omni_mailbox.Broker.Lifetime.{opened}
use omni_mailbox.Broker.Opening.{
  enter, fresh_channel, fresh_channel-IsValid, contents-fresh_queue, enter_lem,
}
use omni_mailbox.Broker.Leaving.{leave, leave-opened}
use omni_mailbox.Backpressure.{Demo, Runs, started, stopped, finished}
use omni_mailbox.Backpressure.Facts.{Open}
use omni_mailbox.Backpressure.Balance.{nothing_lost}

-- "backpressure-demo"
abbrev pub backpressure_channel : Name
backpressure_channel =
    98 ∷ 97 ∷ 99 ∷ 107 ∷ 112 ∷ 114 ∷ 101 ∷ 115 ∷ 115 ∷ 117 ∷ 114 ∷ 101 ∷ 45 ∷ 100 ∷ 101 ∷ 109 ∷ 111
    ∷ []

abbrev pub backpressure_config : ChannelConfig
backpressure_config = record { capacity = 8; max_message_size = 256 }

-- Up to the start of the threads; none where the request failed and `main` returns 1.
unfoldable pub start_main : Allocation → ℕ → Broker → Option Channel
start_main allocation now b = enter allocation now backpressure_channel backpressure_config b

-- After both threads: the handles are destroyed and the channel is removed.
unfoldable pub end_main : ChannelPair → Channel → Broker → Bool × Broker
end_main h ch b = leave backpressure_channel h ch.queue b

abbrev pub backpressure_start : ℕ → ValidChannel
backpressure_start address =
    (fresh_channel address backpressure_config, fresh_channel-IsValid address backpressure_config)

pub backpressure_start-Open : (address : ℕ) → Open (channel_api.shown (backpressure_start address))
unfolding channel_api normalize spsc_queue
backpressure_start-Open address = record {
  producer_up = refl;
  consumer_up = refl;
  large = omega arith;
}

pub backpressure_start-empty :
    (address : ℕ) → (channel_api.shown (backpressure_start address)).items ≡ []
unfolding channel_api
backpressure_start-empty address = contents-fresh_queue backpressure_config

no_items : (xs : List (List ℕ)) → length xs ≡ 0 → xs ≡ []
no_items [] e = refl
no_items (x ∷ xs) e = absurd (omega arith)

-- The backpressure demonstration over a broker with memory for its channel, whose name is not
-- registered: the threads start on a new channel; however they are interleaved, when the consumer
-- has stopped, the producer has finished, the queue is empty, as many messages were received as were
-- sent, those sent and those dropped are 50, `RemoveChannel` succeeds, and the registry is as it was
-- before.
pub backpressure_lem :
    (now : ℕ) (b : Broker) (d : Demo ValidChannel)
    → has_channel backpressure_channel b ≡ false
    → Runs channel_api (started channel_api (backpressure_start b.next)) d
    → d.consumer ≡ stopped
    → let (removed, b') =
        end_main
          (fresh_pair b.next backpressure_config)
          d.channel.0
          (opened now backpressure_channel backpressure_config b) in
      (start_main Allocation.granted now b ≡ some (backpressure_start b.next).0)
      × (d.producer ≡ finished)
      × (contents d.channel.0.queue ≡ [])
      × (d.messages_received ≡ d.messages_sent)
      × (d.messages_sent + d.messages_dropped ≡ 50)
      × (removed ≡ true)
      × (b'.channels ≡ b.channels)
unfolding channel_api start_main end_main
backpressure_lem now b d fresh r e =
    let (over, left, same, dealt) =
      nothing_lost channel_api (backpressure_start b.next) d (backpressure_start-Open b.next)
        (backpressure_start-empty b.next) r e in
    let (removed, channels, _, _) =
      leave-opened now backpressure_channel backpressure_config b d.channel.0.queue fresh in
    (
      enter_lem now backpressure_channel backpressure_config b fresh,
      over,
      no_items (contents d.channel.0.queue) left,
      same,
      dealt,
      removed,
      channels,
    )
