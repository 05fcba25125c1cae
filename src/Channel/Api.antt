-- ===== src/Channel/Api.antt =====
-- What a program that uses a channel may rely on: three calls and their meaning on the bounded
-- queue; and that a valid channel offers them.
use omni_mailbox.Base.{ℕ, ◌≡◌, Option, List, length}
use omni_mailbox.Config.{PushResult, PopResult}
use omni_mailbox.Fifo
use omni_mailbox.Fifo.{Fifo, view}
use omni_mailbox.Producer.{try_push}
use omni_mailbox.Producer.Push.{try_push_refines}
use omni_mailbox.Consumer.{try_pop, messages_waiting}
use omni_mailbox.Consumer.Pop.{popped_bytes, try_pop_refines}
use omni_mailbox.Channel.{Channel, sender, receiver, after_producer, after_consumer, step}
use omni_mailbox.Channel.Refine.{ChannelIsValid, sender-IsValid, step-push, step-pop}
use omni_mailbox.Channel.Queries.{queries_agree}

pub record ChannelApi (S : Type 0) : Type 0 where
  pub shown : S → Fifo
  pub push : List ℕ → S → PushResult × S
  pub pop : S → PopResult × Option (List ℕ) × S
  pub available : S → ℕ
  pub push_law : (m : List ℕ) (s : S) → ((push m s).0, shown (push m s).1) ≡ Fifo.push m (shown s)
  pub pop_law : (s : S) → ((pop s).0, (pop s).1, shown (pop s).2) ≡ Fifo.pop (shown s)
  pub available_law : (s : S) → available s ≡ length (shown s).items

abbrev pub ValidChannel : Type 0
ValidChannel = (ch : Channel) × ChannelIsValid ch

unfoldable pub channel_api : ChannelApi ValidChannel
unfolding step
channel_api = record {
  shown = λ s. view s.0.queue;
  push = λ m s.
      let r = try_push m (sender s.0) in (r.0, (after_producer s.0 r.1, (step-push s.0 s.1 m).1));
  pop = λ s.
      let r = try_pop (receiver s.0) in
      (r.0, popped_bytes r.2.queue.buffer r.1, (after_consumer s.0 r.2, (step-pop s.0 s.1).1));
  available = λ s. messages_waiting (receiver s.0);
  push_law = λ m s. (try_push_refines (sender s.0) m (sender-IsValid s.0 s.1) s.1.unreserved).0;
  pop_law = λ s. (try_pop_refines (receiver s.0) s.1.queue_valid).0;
  available_law = λ s. (queries_agree s.0 s.1).0;
}
