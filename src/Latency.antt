-- ===== src/Latency.antt =====
-- bench/throughput_latency.cpp, BM_Latency_RoundTrip: a message goes out on one channel, a responder
-- sends it back on another. A call on a channel is one step; a call that waits is a step when it
-- returns. The number of iterations, which the harness chooses, is an argument; the clock is left
-- out.
pub mod Facts
pub mod Flight
pub mod Safety
pub mod Progress
pub mod Ends
use omni_mailbox.Base.{
  ℕ, ◌+◌, ◌<◌, ◌≡◌, Bool, true, false, Option, none, some, List, replicate, if◌then◌else◌,
}
use omni_mailbox.Config.{PopResult}
use omni_mailbox.Channel.Api.{ChannelApi}

-- `std::vector<uint8_t> payload(64, 0xCD)`
unfoldable pub payload : List ℕ
payload = replicate 64 0xCD

-- The thread of the benchmark loop.
pub data Loop : Type 0 where
  pinging : (i : ℕ) → Loop  -- at the head of the loop
  awaiting : (i : ℕ) → Loop  -- in `BlockingPop` on the pong channel
  stopping : Loop  -- before the store of `responder_running`
  joining : Loop
  over : Loop

pub data Responder : Type 0 where
  checking : Responder  -- at the head of the loop
  popping : Responder  -- in `BlockingPop` on the ping channel
  echoing : (m : List ℕ) → Responder  -- before `TryPush` on the pong channel
  stopped : Responder

pub record Bench (S : Type 0) : Type 0 where
  pub ping : S
  pub pong : S
  pub loop : Loop
  pub responder : Responder
  pub responder_running : Bool
  pub iterations : ℕ  -- the calls of `SetIterationTime`
  pub skipped : Bool  -- whether `SkipWithError` was called

module _ {S : Type 0} (api : ChannelApi S) where
  -- `BlockingPush`, whose result nothing reads.
  unfoldable pub send_ping : ℕ → Bench S → Bench S
  send_ping i d = record d { ping = (api.push payload d.ping).1; loop = awaiting i }

  -- What follows `BlockingPop` without a deadline, which does not return on an empty queue.
  unfoldable pub after_pong : ℕ → PopResult → Bench S → Bench S
  after_pong i PopResult.success d = record d {
    loop = pinging (i + 1);
    iterations = d.iterations + 1;
  }
  after_pong i PopResult.empty d = d
  after_pong i _ d = record d { loop = stopping; skipped = true }

  unfoldable pub take_pong : ℕ → Bench S → Bench S
  take_pong i d = let (r, m, s) = api.pop d.pong in after_pong i r (record d { pong = s })

  -- What follows `BlockingPop` with its timeout.
  unfoldable pub after_ping : PopResult → Option (List ℕ) → Bench S → Bench S
  after_ping PopResult.success (some m) d = record d { responder = echoing m }
  after_ping PopResult.channel_closed m d = record d { responder = stopped }
  after_ping _ m d = record d { responder = checking }

  unfoldable pub take_ping : Bench S → Bench S
  take_ping d = let (r, m, s) = api.pop d.ping in after_ping r m (record d { ping = s })

  -- `TryPush`, whose result nothing reads.
  unfoldable pub echo : List ℕ → Bench S → Bench S
  echo m d = record d { pong = (api.push m d.pong).1; responder = checking }

  module _ (n : ℕ) where
    pub data Step (d : Bench S) : Bench S → Type 0 where
      send : {i : ℕ} → d.loop ≡ pinging i → i < n → Step d (send_ping i d)
      receive : {i : ℕ} → d.loop ≡ awaiting i → Step d (take_pong i d)
      finish : d.loop ≡ pinging n → Step d (record d { loop = stopping })
      stop : d.loop ≡ stopping → Step d (record d { loop = joining; responder_running = false })
      join : d.loop ≡ joining → d.responder ≡ stopped → Step d (record d { loop = over })
      check :
          d.responder ≡ checking
          → Step d (record d { responder = if d.responder_running then popping else stopped })
      pop : d.responder ≡ popping → Step d (take_ping d)
      answer : {m : List ℕ} → d.responder ≡ echoing m → Step d (echo m d)

    pub data Runs (d : Bench S) : Bench S → Type 0 where
      here : Runs d d
      next : {e f : Bench S} → Runs d e → Step e f → Runs d f

  -- Both threads over two channels that were just requested.
  abbrev pub started : S → S → Bench S
  started s t = record {
    ping = s;
    pong = t;
    loop = pinging 0;
    responder = checking;
    responder_running = true;
    iterations = 0;
    skipped = false;
  }
