-- ===== src/Throughput.antt =====
-- bench/throughput_latency.cpp, BM_Throughput_Uncontended: a producer pushes one message after
-- another and pauses where a push fails, a consumer takes what it finds. A call on the channel is one
-- step. The size of a message and the number of iterations are arguments; the pauses themselves are
-- left out, and the calls that failed are counted.
pub mod Facts
pub mod Counts
use omni_mailbox.Base.{
  ℕ, ◌+◌, ◌*◌, ◌<◌, ◌≡◌, Bool, true, false, Option, none, some, List, replicate, if◌then◌else◌,
}
use omni_mailbox.Config.{PushResult, PopResult}
use omni_mailbox.Channel.Api.{ChannelApi}

pub data ProducerThread : Type 0 where
  pushing : (i : ℕ) → ProducerThread  -- at the head of the benchmark loop
  joining : ProducerThread  -- after the store of `consumer_running`
  reported : ProducerThread

pub data ConsumerThread : Type 0 where
  testing : ConsumerThread  -- at the head of the loop
  popping : ConsumerThread
  stopped : ConsumerThread

pub record Trial (S : Type 0) : Type 0 where
  pub channel : S
  pub producer : ProducerThread
  pub consumer : ConsumerThread
  pub consumer_running : Bool
  pub messages_consumed : ℕ
  pub succeeded : ℕ  -- the calls of `TryPush` that succeeded
  pub paused : ℕ  -- the calls of `PauseTiming`
  pub items_processed : ℕ
  pub bytes_processed : ℕ

module _ {S : Type 0} (api : ChannelApi S) where
  -- What follows `TryPush`.
  unfoldable pub after_push : ℕ → PushResult → Trial S → Trial S
  after_push i PushResult.success d = record d {
    producer = pushing (i + 1);
    succeeded = d.succeeded + 1;
  }
  after_push i _ d = record d { producer = pushing (i + 1); paused = d.paused + 1 }

  -- One round of the benchmark loop, with `std::vector<uint8_t> payload(msg_size, 0xAB)`.
  unfoldable pub push_round : ℕ → ℕ → Trial S → Trial S
  push_round msg_size i d =
      let (r, s) = api.push (replicate msg_size 0xAB) d.channel in
      after_push i r (record d { channel = s })

  -- What follows `TryPop`.
  unfoldable pub after_pop : PopResult → Trial S → Trial S
  after_pop PopResult.success d = record d {
    consumer = testing;
    messages_consumed = d.messages_consumed + 1;
  }
  after_pop PopResult.channel_closed d = record d { consumer = stopped }
  after_pop _ d = record d { consumer = testing }

  unfoldable pub pop_round : Trial S → Trial S
  pop_round d = let (r, m, s) = api.pop d.channel in after_pop r (record d { channel = s })

  module _ (msg_size iterations : ℕ) where
    pub data Step (d : Trial S) : Trial S → Type 0 where
      push : {i : ℕ} → d.producer ≡ pushing i → i < iterations → Step d (push_round msg_size i d)
      stop :
          d.producer ≡ pushing iterations
          → Step d (record d { producer = joining; consumer_running = false })
      join :
          d.producer ≡ joining
          → d.consumer ≡ stopped
          → Step d (record d {
            producer = reported;
            items_processed = iterations;
            bytes_processed = iterations * msg_size;
          })
      test :
          d.consumer ≡ testing
          → Step d (record d { consumer = if d.consumer_running then popping else stopped })
      pop : d.consumer ≡ popping → Step d (pop_round d)

    pub data Runs (d : Trial S) : Trial S → Type 0 where
      here : Runs d d
      next : {e f : Trial S} → Runs d e → Step e f → Runs d f

  -- Both threads over a channel that was just requested.
  abbrev pub started : S → Trial S
  started s = record {
    channel = s;
    producer = pushing 0;
    consumer = testing;
    consumer_running = true;
    messages_consumed = 0;
    succeeded = 0;
    paused = 0;
    items_processed = 0;
    bytes_processed = 0;
  }
