-- ===== src/Tests/Demos.antt =====
-- The demonstration over a bounded queue with room for two, from its tenth message on, and a whole run
-- over the channel that it requests.
use omni_mailbox.Base.{◌+◌, ◌≡◌, refl, true, false, some, [], arith}
use omni_mailbox.Fifo
use omni_mailbox.Fifo.{Fifo}
use omni_mailbox.Tests.Fixtures.{fifo_api, wrapped}
use omni_mailbox.Backpressure.{
  Demo, finished, Runs, here, next, started, stopped, send_next, send, sent, receive, received,
}
use omni_mailbox.Spsc.Invariant.{contents}
use omni_mailbox.Channel.Api.{ValidChannel, channel_api}
use omni_mailbox.Broker.{Broker, Allocation, find, contains, has_channel, empty_broker}
use omni_mailbox.Broker.Invariant.{fresh_pair}
use omni_mailbox.Broker.Lifetime.{opened}
use omni_mailbox.Backpressure.Ends.{Stops, demo_stops}
use omni_mailbox.Backpressure.Main.{
  backpressure_channel, backpressure_config, backpressure_start, backpressure_start-Open,
  backpressure_start-empty, start_main, end_main, backpressure_lem,
}
use omni_mailbox.Backpressure.Facts.{Open}

abbrev new_channel : Fifo
new_channel = record {
  items = [];
  room = 2;
  limit = 256;
  producer_alive = true;
  consumer_alive = true;
}

new_channel-Open : Open new_channel
new_channel-Open = record { producer_up = refl; consumer_up = refl; large = omega arith }

record Played : Type 0 where
  last : Demo Fifo
  runs : Runs fifo_api (started fifo_api new_channel) last

abbrev sent_10 : Played
unfolding send sent receive received Fifo.push Fifo.pop Fifo.pop_items
sent_10 = record {
  last = _;
  runs =
      (next
        (next
          (next
            (next
              (next
                (next
                  (next
                    (next
                      (next (next here (send_next {i = 0} refl (omega arith)))
                        (send_next {i = 1} refl (omega arith)))
                      (send_next {i = 2} refl (omega arith)))
                    (send_next {i = 3} refl (omega arith)))
                  (send_next {i = 4} refl (omega arith)))
                (send_next {i = 5} refl (omega arith)))
              (send_next {i = 6} refl (omega arith)))
            (send_next {i = 7} refl (omega arith)))
          (send_next {i = 8} refl (omega arith)))
        (send_next {i = 9} refl (omega arith)));
}

demo_stops_example : Stops fifo_api sent_10.last
unfolding send sent receive received Fifo.push Fifo.pop Fifo.pop_items sent_10
demo_stops_example = demo_stops fifo_api new_channel sent_10.last new_channel-Open refl sent_10.runs

abbrev nothing : Broker
nothing = empty_broker (λ a. wrapped)

not_there : has_channel backpressure_channel nothing ≡ false
unfolding has_channel contains find empty_broker
not_there = refl

-- A whole run over the channel that the demonstration requests.
whole :
    (e : Demo ValidChannel) × Runs channel_api (started channel_api (backpressure_start 0)) e
    × (e.consumer ≡ stopped)
whole =
    demo_stops channel_api (backpressure_start 0) (started channel_api (backpressure_start 0))
      (backpressure_start-Open 0) (backpressure_start-empty 0) here

backpressure_lem_example :
    let (removed, b') =
      end_main
        (fresh_pair nothing.next backpressure_config)
        whole.0.channel.0
        (opened 3 backpressure_channel backpressure_config nothing) in
    (start_main Allocation.granted 3 nothing ≡ some (backpressure_start 0).0)
    × (whole.0.producer ≡ finished)
    × (contents whole.0.channel.0.queue ≡ [])
    × (whole.0.messages_received ≡ whole.0.messages_sent)
    × (whole.0.messages_sent + whole.0.messages_dropped ≡ 50)
    × (removed ≡ true)
    × (b'.channels ≡ nothing.channels)
unfolding empty_broker
backpressure_lem_example = backpressure_lem 3 nothing whole.0 not_there whole.1 whole.2
