-- ===== src/Fifo.antt =====
-- What a channel promises its two users: a bounded first-in first-out queue of byte messages, with
-- a flag for each end. The size-prefixed slots, the indices and their wrap are forgotten.
use omni_mailbox.Base.{
  ℕ, ◌-◌, Bool, Option, none, some, List, [], ◌∷◌, ◌++◌, length, ltb, leb, ◌==◌, ◌&&◌, not,
  if◌then◌else◌, true, min, take, drop,
}
use omni_mailbox.Config.{PushResult, PopResult}
use omni_mailbox.Spsc.{SpscQueue}
use omni_mailbox.Spsc.Invariant.{contents}

abbrev pub Message : Type 0
Message = List ℕ

pub record Fifo : Type 0 where
  pub items : List Message
  pub room : ℕ
  pub limit : ℕ
  pub producer_alive : Bool
  pub consumer_alive : Bool

-- The size check of the channel: not empty, and not above the limit.
abbrev pub admits : ℕ → Message → Bool
admits limit m = ltb 0 (length m) && leb (length m) limit

unfoldable pub push : Message → Fifo → PushResult × Fifo
push m f =
    if not (admits f.limit m)
    then (PushResult.invalid_size, f)
    else if not f.consumer_alive
    then (PushResult.channel_closed, f)
    else if length f.items == f.room
    then (PushResult.queue_full, f)
    else (PushResult.success, record f { items = f.items ++ m ∷ [] })

unfoldable pub pop_items : List Message → Fifo → PopResult × Option Message × Fifo
pop_items [] f = (if f.producer_alive then PopResult.empty else PopResult.channel_closed, none, f)
pop_items (m ∷ ms) f = (PopResult.success, some m, record f { items = ms })

-- A closed channel is drained before it reports that it is closed.
unfoldable pub pop : Fifo → PopResult × Option Message × Fifo
unfolding pop_items
pop f = pop_items f.items f

unfoldable pub all_admitted : ℕ → List Message → Bool
all_admitted limit [] = true
all_admitted limit (m ∷ ms) = admits limit m && all_admitted limit ms

-- A batch goes in whole or up to the room that is left, unless one of its messages is refused.
unfoldable pub push_batch : List Message → Fifo → ℕ × Fifo
push_batch ms f =
    let n = min (length ms) (f.room - length f.items) in
    if not (all_admitted f.limit ms)
    then (0, f)
    else if not f.consumer_alive
    then (0, f)
    else (n, record f { items = f.items ++ take n ms })

unfoldable pub pop_batch_items : List Message → ℕ → Fifo → PopResult × List Message × Fifo
pop_batch_items [] n f =
    (if f.producer_alive then PopResult.empty else PopResult.channel_closed, [], f)
pop_batch_items (m ∷ ms) n f =
    (PopResult.success, take n (m ∷ ms), record f { items = drop n (m ∷ ms) })

unfoldable pub pop_batch : ℕ → Fifo → PopResult × List Message × Fifo
pop_batch n f = if n == 0 then (PopResult.empty, [], f) else pop_batch_items f.items n f

-- A queue seen as such a channel. One slot stays free.
abbrev pub view : SpscQueue → Fifo
view q = record {
  items = contents q;
  room = q.capacity - 1;
  limit = q.max_message_size;
  producer_alive = q.producer_alive;
  consumer_alive = q.consumer_alive;
}
