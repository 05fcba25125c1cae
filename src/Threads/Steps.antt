-- ===== src/Threads/Steps.antt =====
-- Both threads over one queue, and the states that they reach.
use omni_mailbox.Base.{ℕ, none, List, [], ◌++◌}
use omni_mailbox.Config.{PopResult}
use omni_mailbox.Spsc.{SpscQueue}
use omni_mailbox.Threads.Producing.{ProducerAt, ProducerMove, idle}
use omni_mailbox.Threads.Consuming.{ConsumerAt, ConsumerMove, between}

-- Both threads over the queue, with all messages published and all messages handed out so far.
pub record Threads : Type 0 where
  pub queue : SpscQueue
  pub producer : ProducerAt
  pub consumer : ConsumerAt
  pub sent : List (List ℕ)
  pub taken : List (List ℕ)

pub data Step (s : Threads) : Threads → Type 0 where
  by_producer :
      {q : SpscQueue} {p : ProducerAt} {out : List (List ℕ)}
      → ProducerMove s.queue s.producer q p out
      → Step s (record s { queue = q; producer = p; sent = s.sent ++ out })
  by_consumer :
      {q : SpscQueue} {c : ConsumerAt} {out : List (List ℕ)}
      → ConsumerMove s.queue s.consumer q c out
      → Step s (record s { queue = q; consumer = c; taken = s.taken ++ out })

-- Two new handles over a queue.
abbrev pub start_state : SpscQueue → Threads
start_state q = record {
  queue = q;
  producer = idle;
  consumer = between PopResult.empty none;
  sent = [];
  taken = [];
}

pub data Reach (q : SpscQueue) : Threads → Type 0 where
  start : Reach q (start_state q)
  later : {s t : Threads} → Reach q s → Step s t → Reach q t
