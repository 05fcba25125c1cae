-- ===== src/Tests/Latencies.antt =====
-- The round-trip benchmark over bounded queues with room for one.
use omni_mailbox.Base.{◌≡◌, ◌≤◌, refl, true, false, [], arith}
use omni_mailbox.Fifo
use omni_mailbox.Fifo.{Fifo}
use omni_mailbox.Latency.{
  Bench, Runs, here, next, send, receive, check, pop, answer, send_ping, take_pong, after_pong,
  take_ping, after_ping, echo, payload, started, over,
}
use omni_mailbox.Latency.Facts.{Ready, is_awaiting, held, InFlight}
use omni_mailbox.Latency.Safety.{one_in_flight}
use omni_mailbox.Latency.Ends.{benchmark_ends}
use omni_mailbox.Tests.Fixtures.{fifo_api}

abbrev line : Fifo
line = record { items = []; room = 1; limit = 64; producer_alive = true; consumer_alive = true }

line-Ready : Ready line
line-Ready = record {
  producer_up = refl;
  consumer_up = refl;
  large = omega arith;
  deep = omega arith;
}

record Played : Type 0 where
  last : Bench Fifo
  runs : Runs fifo_api 2 (started fifo_api line line) last

-- One round, and the ping of the next one, which the responder holds.
abbrev played : Played
unfolding send_ping take_pong after_pong take_ping after_ping echo payload Fifo.push Fifo.pop
    Fifo.pop_items
played = record {
  last = _;
  runs =
      next
        (next
          (next
            (next
              (next
                (next (next (next here (send {i = 0} refl (omega arith))) (check refl)) (pop refl))
                (answer refl))
              (receive {i = 0} refl))
            (send {i = 1} refl (omega arith)))
          (check refl))
        (pop refl);
}

one_in_flight_example :
    InFlight
      (is_awaiting played.last.loop)
      played.last.ping.items
      (held played.last.responder)
      played.last.pong.items
    × (played.last.skipped ≡ false)
    × (played.last.iterations ≤ 2)
one_in_flight_example =
    one_in_flight fifo_api 2 line line played.last line-Ready line-Ready refl refl played.runs

benchmark_ends_example :
    (e : Bench Fifo) × Runs fifo_api 2 played.last e
    × (e.loop ≡ over)
    × (e.iterations ≡ 2)
    × (e.skipped ≡ false)
    × (e.ping.items ≡ [])
    × (e.pong.items ≡ [])
benchmark_ends_example =
    benchmark_ends fifo_api 2 line line played.last line-Ready line-Ready refl refl played.runs
