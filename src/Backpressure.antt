-- ===== src/Backpressure.antt =====
-- examples/backpressure_demo.cpp: a fast producer that drops what does not fit, and a slow consumer,
-- over a channel of eight slots. A call on the channel is one step, and so is a load of the shared
-- flag; the sleeps are left out, since the steps come in any order.
pub mod Facts
pub mod Rounds
pub mod Balance
pub mod Ends
pub mod Main
use omni_mailbox.Base.{
  ℕ, ◌+◌, ◌<◌, ◌/◌, ◌%◌, ◌≡◌, Bool, true, false, Option, none, some, List, [], ◌∷◌, ◌++◌,
  if◌then◌else◌, ltb, ◌==◌,
}
use omni_mailbox.Config.{PushResult, PopResult}
use omni_mailbox.Channel.Api.{ChannelApi}

-- `std::to_string` of a number below 100.
abbrev pub decimal : ℕ → List ℕ
decimal n = if ltb n 10 then (48 + n) ∷ [] else (48 + n / 10) ∷ (48 + n % 10) ∷ []

-- `"Message #" + std::to_string(i + 1)`
abbrev pub message : ℕ → List ℕ
message i = 77 ∷ 101 ∷ 115 ∷ 115 ∷ 97 ∷ 103 ∷ 101 ∷ 32 ∷ 35 ∷ decimal (i + 1)

pub data ProducerThread : Type 0 where
  sending : (i : ℕ) → ProducerThread  -- at the head of the loop
  leaving : ProducerThread  -- before the store of `producer_finished`
  finished : ProducerThread

pub data ConsumerThread : Type 0 where
  testing : ConsumerThread  -- at the head of the loop
  tested : ConsumerThread  -- the flag was up, before `AvailableMessages`
  popping : ConsumerThread  -- before `BlockingPop`
  timed_out : ConsumerThread
  retested : ConsumerThread  -- timed out and the flag was up
  stopped : ConsumerThread

pub record Demo (S : Type 0) : Type 0 where
  pub channel : S
  pub producer : ProducerThread
  pub consumer : ConsumerThread
  pub messages_sent : ℕ
  pub messages_dropped : ℕ
  pub messages_received : ℕ
  pub producer_finished : Bool

module _ {S : Type 0} (api : ChannelApi S) where
  -- What follows `TryPush`.
  unfoldable pub sent : ℕ → PushResult → Demo S → Demo S
  sent i PushResult.success d = record d {
    producer = sending (i + 1);
    messages_sent = d.messages_sent + 1;
  }
  sent i PushResult.queue_full d = record d {
    producer = sending (i + 1);
    messages_dropped = d.messages_dropped + 1;
  }
  sent i PushResult.channel_closed d = record d { producer = leaving }
  sent i _ d = record d { producer = sending (i + 1) }

  -- One round of the producer's loop.
  unfoldable pub send : ℕ → Demo S → Demo S
  send i d = let (r, s) = api.push (message i) d.channel in sent i r (record d { channel = s })

  -- What follows `BlockingPop`, which returns what `TryPop` does, or a timeout where that finds
  -- nothing.
  unfoldable pub received : PopResult → Demo S → Demo S
  received PopResult.success d = record d {
    consumer = testing;
    messages_received = d.messages_received + 1;
  }
  received PopResult.channel_closed d = record d { consumer = stopped }
  received _ d = record d { consumer = timed_out }

  unfoldable pub receive : Demo S → Demo S
  receive d = let (r, m, s) = api.pop d.channel in received r (record d { channel = s })

  pub data Step (d : Demo S) : Demo S → Type 0 where
    send_next : {i : ℕ} → d.producer ≡ sending i → i < 50 → Step d (send i d)
    send_last : d.producer ≡ sending 50 → Step d (record d { producer = leaving })
    finish :
        d.producer ≡ leaving → Step d (record d { producer = finished; producer_finished = true })
    test :
        d.consumer ≡ testing
        → Step d (record d { consumer = if d.producer_finished then tested else popping })
    count :
        d.consumer ≡ tested
        → Step d (record d { consumer = if api.available d.channel == 0 then stopped else popping })
    pop_next : d.consumer ≡ popping → Step d (receive d)
    retest :
        d.consumer ≡ timed_out
        → Step d (record d { consumer = if d.producer_finished then retested else testing })
    recount :
        d.consumer ≡ retested
        → Step d (record d { consumer = if api.available d.channel == 0 then stopped else testing })

  -- Both threads over a channel that was just requested.
  abbrev pub started : S → Demo S
  started s = record {
    channel = s;
    producer = sending 0;
    consumer = testing;
    messages_sent = 0;
    messages_dropped = 0;
    messages_received = 0;
    producer_finished = false;
  }

  pub data Runs (d : Demo S) : Demo S → Type 0 where
    here : Runs d d
    next : {e f : Demo S} → Runs d e → Step e f → Runs d f
