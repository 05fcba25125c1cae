-- ===== src/Tests/Usages.antt =====
-- The basic example over a bounded queue with room for ten, and over the channel that it requests.
use omni_mailbox.Base.{◌≡◌, ◌≤◌, refl, true, false, some, [], ◌++◌, length, arith}
use omni_mailbox.Base.Words.{add_u64}
use omni_mailbox.Fifo
use omni_mailbox.Fifo.{Fifo}
use omni_mailbox.Spsc.Invariant.{contents}
use omni_mailbox.Channel.Api.{ValidChannel, channel_api}
use omni_mailbox.Broker.{Broker, Allocation, find, contains, has_channel, empty_broker}
use omni_mailbox.Broker.Invariant.{fresh_pair}
use omni_mailbox.Broker.Lifetime.{opened}
use omni_mailbox.Usage.{
  Session, greet, greeting, after_push, listen, after_pop, started, Runs, here, next, send_next,
  receive_next,
}
use omni_mailbox.Usage.Facts.{greetings, Roomy}
use omni_mailbox.Usage.Ends.{Over, steps, session_ends}
use omni_mailbox.Usage.Main.{
  demo_channel, demo_config, demo_start, demo_start-Roomy, demo_start-empty, start_main, end_main,
  usage_lem,
}
use omni_mailbox.Tests.Fixtures.{fifo_api, wrapped}

abbrev roomy : Fifo
roomy = record { items = []; room = 15; limit = 256; producer_alive = true; consumer_alive = true }

roomy-Roomy : Roomy roomy
roomy-Roomy = record {
  producer_up = refl;
  consumer_up = refl;
  large = omega arith;
  deep = omega arith;
}

record Played : Type 0 where
  last : Session Fifo
  runs : Runs fifo_api (started fifo_api roomy) last

-- Two greetings are sent, and one of them received.
abbrev played : Played
unfolding greet greeting after_push listen after_pop Fifo.push Fifo.pop Fifo.pop_items
played = record {
  last = _;
  runs =
      next
        (next (next here (send_next {i = 0} refl (omega arith)))
          (receive_next {i = 0} refl (omega arith)))
        (send_next {i = 1} refl (omega arith));
}

session_ends_example :
    (played.last.received ++ played.last.channel.items ≡ greetings played.last.sent)
    × (steps fifo_api played.runs ≤ 22)
    × ((e : Session Fifo) × Runs fifo_api played.last e
        × Over fifo_api e
        × (e.received ++ e.channel.items ≡ greetings 10))
session_ends_example = session_ends fifo_api roomy played.last roomy-Roomy refl played.runs

abbrev nothing : Broker
nothing = empty_broker (λ a. wrapped)

not_there : has_channel demo_channel nothing ≡ false
unfolding has_channel contains find empty_broker
not_there = refl

-- A whole run over the channel that the example requests.
whole :
    (e : Session ValidChannel) × Runs channel_api (started channel_api (demo_start 0)) e
    × Over channel_api e
    × (e.received ++ (channel_api.shown e.channel).items ≡ greetings 10)
whole =
    (session_ends channel_api (demo_start 0) (started channel_api (demo_start 0))
      (demo_start-Roomy 0) (demo_start-empty 0) here).2

usage_lem_example :
    let (removed, stats) =
      end_main
        (fresh_pair nothing.next demo_config)
        whole.0.channel.0
        (opened 3 demo_channel demo_config nothing) in
    (start_main Allocation.granted 3 nothing ≡ some (demo_start 0).0)
    × (whole.0.received ++ contents whole.0.channel.0.queue ≡ greetings 10)
    × (removed ≡ true)
    × (stats.active_channels ≡ length nothing.channels)
    × (stats.total_channels_created ≡ add_u64 nothing.total_created 1)
    × (stats.total_messages_sent ≡ 0)
unfolding empty_broker
usage_lem_example = usage_lem 3 nothing whole.0 not_there whole.1 whole.2
