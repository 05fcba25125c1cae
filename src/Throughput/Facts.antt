-- ===== src/Throughput/Facts.antt =====
-- What the places of the two threads of the throughput benchmark say of its counters.
use omni_mailbox.Base.{ℕ, ◌+◌, ◌*◌, ◌≤◌, ◌<◌, ◌≡◌, true, length, length-replicate, replicate, arith}
use omni_mailbox.Fifo.{Fifo, admits}
use omni_mailbox.Channel.Api.{ChannelApi}
use omni_mailbox.Throughput.{ProducerThread, pushing, joining, reported, Trial}

-- Both ends live, and a message fits into a slot.
pub record Ready (msg_size : ℕ) (f : Fifo) : Type 0 where
  pub producer_up : f.producer_alive ≡ true
  pub consumer_up : f.consumer_alive ≡ true
  pub large : msg_size ≤ f.limit

pub payload_fits :
    (msg_size limit : ℕ)
    → 0 < msg_size
    → msg_size ≤ limit
    → admits limit (replicate msg_size 0xAB) ≡ true
payload_fits msg_size limit pos h = rw (length-replicate {A = ℕ} msg_size 0xAB) (ground arith)

-- The calls of `TryPush` so far, and what was reported of them.
abbrev pub ProducerFact : ProducerThread → (n size calls items bytes : ℕ) → Type 0
ProducerFact (pushing i) n size calls items bytes = (calls ≡ i) × (i ≤ n)
ProducerFact joining n size calls items bytes = calls ≡ n
ProducerFact reported n size calls items bytes = (calls ≡ n) × (items ≡ n) × (bytes ≡ n * size)

module _ {S : Type 0} (api : ChannelApi S) (size n room : ℕ) where
  pub record Counted (d : Trial S) : Type 0 where
    pub up : Ready size (api.shown d.channel)
    pub same_room : (api.shown d.channel).room ≡ room
    pub within : length (api.shown d.channel).items ≤ room
    pub balance : d.succeeded ≡ d.messages_consumed + length (api.shown d.channel).items
    pub producer_fact :
        ProducerFact d.producer n size (d.succeeded + d.paused) d.items_processed d.bytes_processed
