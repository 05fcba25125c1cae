-- ===== src/Tests/Throughputs.antt =====
-- The throughput benchmark over a bounded queue with room for one.
use omni_mailbox.Base.{◌+◌, ◌*◌, ◌≡◌, ◌≤◌, refl, true, [], length, arith}
use omni_mailbox.Fifo
use omni_mailbox.Fifo.{Fifo}
use omni_mailbox.Throughput.{
  Trial, Runs, here, next, push, stop, join, test, pop, push_round, after_push, pop_round,
  after_pop, started,
}
use omni_mailbox.Throughput.Facts.{Ready}
use omni_mailbox.Throughput.Counts.{throughput_counts}
use omni_mailbox.Tests.Fixtures.{fifo_api}

abbrev line : Fifo
line = record { items = []; room = 1; limit = 8; producer_alive = true; consumer_alive = true }

line-Ready : Ready 2 line
line-Ready = record { producer_up = refl; consumer_up = refl; large = omega arith }

record Played : Type 0 where
  last : Trial Fifo
  runs : Runs fifo_api 2 3 (started fifo_api line) last

-- One message is consumed, the next one stays, and the push of the third fails.
abbrev played : Played
unfolding push_round after_push pop_round after_pop Fifo.push Fifo.pop Fifo.pop_items
played = record {
  last = _;
  runs =
      next
        (next
          (next
            (next
              (next
                (next (next (next here (push {i = 0} refl (omega arith))) (test refl)) (pop refl))
                (push {i = 1} refl (omega arith)))
              (push {i = 2} refl (omega arith)))
            (stop refl))
          (test refl))
        (join refl refl);
}

throughput_counts_example :
    (played.last.items_processed
      ≡ played.last.messages_consumed + length played.last.channel.items + played.last.paused)
    × (length played.last.channel.items ≤ line.room)
    × (played.last.bytes_processed
        ≡ (played.last.messages_consumed + length played.last.channel.items + played.last.paused)
          * 2)
unfolding push_round after_push pop_round after_pop Fifo.push Fifo.pop Fifo.pop_items played
throughput_counts_example =
    throughput_counts fifo_api 2 3 line played.last (omega arith) line-Ready refl played.runs refl
