-- ===== src/Usage.antt =====
-- examples/basic_usage.cpp: ten greetings from a producer thread to a consumer thread. The blocking
-- calls are steps at the moment that they return; the sleeps and the output to the console are left
-- out, but for the texts that the consumer shows.
pub mod Facts
pub mod Order
pub mod Ends
pub mod Main
use omni_mailbox.Base.{ℕ, zero, suc, ◌+◌, ◌<◌, ◌≡◌, Option, none, some, List, [], ◌∷◌, ◌++◌}
use omni_mailbox.Config.{PushResult, PopResult}
use omni_mailbox.Channel.Api.{ChannelApi}
use omni_mailbox.Backpressure.{decimal}

-- `"Hello from OmniMailbox #" + std::to_string(i + 1)`
unfoldable pub greeting : ℕ → List ℕ
greeting i =
    72
    ∷ 101
    ∷ 108
    ∷ 108
    ∷ 111
    ∷ 32
    ∷ 102
    ∷ 114
    ∷ 111
    ∷ 109
    ∷ 32
    ∷ 79
    ∷ 109
    ∷ 110
    ∷ 105
    ∷ 77
    ∷ 97
    ∷ 105
    ∷ 108
    ∷ 98
    ∷ 111
    ∷ 120
    ∷ 32
    ∷ 35
    ∷ decimal (i + 1)

pub data ProducerThread : Type 0 where
  sending : (i : ℕ) → ProducerThread  -- at the head of the loop
  finished : ProducerThread

pub data ConsumerThread : Type 0 where
  receiving : (i : ℕ) → ConsumerThread  -- at the head of the loop
  finished : ConsumerThread

pub record Session (S : Type 0) : Type 0 where
  pub channel : S
  pub producer : ProducerThread
  pub consumer : ConsumerThread
  pub sent : ℕ  -- the messages that the producer reported as sent
  pub received : List (List ℕ)  -- the texts that the consumer showed

-- What `BlockingPush` makes of an answer of `TryPush`: on a queue that stays full it times out.
abbrev pub waited_push : PushResult → PushResult
waited_push PushResult.queue_full = PushResult.timeout
waited_push r = r

-- What `BlockingPop` makes of an answer of `TryPop`.
abbrev pub waited_pop : PopResult → PopResult
waited_pop PopResult.empty = PopResult.timeout
waited_pop r = r

module _ {S : Type 0} (api : ChannelApi S) where
  -- What follows `BlockingPush`.
  unfoldable pub after_push : ℕ → PushResult → Session S → Session S
  after_push i PushResult.success d = record d { producer = sending (i + 1); sent = d.sent + 1 }
  after_push i PushResult.channel_closed d = record d { producer = ProducerThread.finished }
  after_push i PushResult.timeout d = record d { producer = ProducerThread.finished }
  after_push i _ d = record d { producer = sending (i + 1) }

  -- One round of the producer's loop.
  unfoldable pub greet : ℕ → Session S → Session S
  greet i d =
      let (r, s) = api.push (greeting i) d.channel in
      after_push i (waited_push r) (record d { channel = s })

  -- What follows `BlockingPop`.
  unfoldable pub after_pop : ℕ → PopResult → Option (List ℕ) → Session S → Session S
  after_pop i PopResult.success (some m) d = record d {
    consumer = receiving (i + 1);
    received = d.received ++ m ∷ [];
  }
  after_pop i PopResult.channel_closed m d = record d { consumer = ConsumerThread.finished }
  after_pop i PopResult.timeout m d = record d { consumer = ConsumerThread.finished }
  after_pop i _ m d = record d { consumer = receiving (i + 1) }

  -- One round of the consumer's loop.
  unfoldable pub listen : ℕ → Session S → Session S
  listen i d =
      let (r, m, s) = api.pop d.channel in after_pop i (waited_pop r) m (record d { channel = s })

  pub data Step (d : Session S) : Session S → Type 0 where
    send_next : {i : ℕ} → d.producer ≡ sending i → i < 10 → Step d (greet i d)
    send_end : d.producer ≡ sending 10 → Step d (record d { producer = ProducerThread.finished })
    receive_next : {i : ℕ} → d.consumer ≡ receiving i → i < 10 → Step d (listen i d)
    receive_end :
        d.consumer ≡ receiving 10 → Step d (record d { consumer = ConsumerThread.finished })

  -- Both threads over a channel that was just requested.
  abbrev pub started : S → Session S
  started s = record {
    channel = s;
    producer = sending 0;
    consumer = receiving 0;
    sent = 0;
    received = [];
  }

  pub data Runs (d : Session S) : Session S → Type 0 where
    here : Runs d d
    next : {e f : Session S} → Runs d e → Step e f → Runs d f
