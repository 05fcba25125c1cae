-- ===== src/Threads/Safety.antt =====
-- What holds however the accesses of the two threads are interleaved.
use omni_mailbox.Base.{ℕ, ◌≡◌, sym, ap, ◌∙◌, true, some, List, [], ◌∷◌, ◌++◌, append_assoc}
use omni_mailbox.Spsc.{SpscQueue}
use omni_mailbox.Spsc.Invariant.{IsValid, contents}
use omni_mailbox.Consumer.{Message, message_bytes}
use omni_mailbox.Threads.Steps.{Threads, Step, by_producer, by_consumer, Reach, start, later}
use omni_mailbox.Threads.Facts.{Inv, last_span, Held-last_span}
use omni_mailbox.Threads.Sending.Moves.{producer_sent}
use omni_mailbox.Threads.Receiving.Moves.{consumer_taken}

pub Step-Inv : {s t : Threads} → Step s t → Inv s → Inv t
Step-Inv {s} (by_producer {q} {p} {out} move) i =
    let m = producer_sent s.queue i.valid s.producer p q out move i.flag i.producer_fact in
    record {
      valid = m.valid;
      history =
          ap (λ l. l ++ out) i.history
          ∙ append_assoc s.taken (contents s.queue) out
          ∙ ap (λ l. s.taken ++ l) (sym m.grown);
      flag = m.flag;
      producer_fact = m.fact;
      consumer_fact = m.consumer s.taken s.consumer i.consumer_fact;
    }
Step-Inv {s} (by_consumer {q} {c} {out} move) i =
    let m =
      consumer_taken s.queue i.valid s.producer s.taken i.flag i.producer_fact s.consumer c q out
        move i.consumer_fact in
    record {
      valid = m.valid;
      history =
          i.history ∙ ap (λ l. s.taken ++ l) m.shrunk ∙ sym (append_assoc s.taken out (contents q));
      flag = m.flag ∙ i.flag;
      producer_fact = m.producer;
      consumer_fact = m.fact;
    }

-- A queue over which two new handles stand.
pub record New (q : SpscQueue) : Type 0 where
  pub valid : IsValid q
  pub empty : contents q ≡ []
  pub alive : q.producer_alive ≡ true

pub Reach-Inv : {q : SpscQueue} {s : Threads} → New q → Reach q s → Inv s
Reach-Inv n start = record {
  valid = n.valid;
  history = sym n.empty;
  flag = n.alive;
  producer_fact = tt;
  consumer_fact = tt;
}
Reach-Inv n (later r st) = Step-Inv st (Reach-Inv n r)

-- However the steps of the two threads are interleaved on a new queue, of which one calls
-- `Reserve`, `Commit`, `Rollback`, `TryPush` and, with no slot reserved, `BatchPush`, and the other
-- `TryPop` and `BatchPop`: the queue is valid, and the messages that were published are, in order,
-- those that were handed out and then those that are stored.
pub exactly_once :
    (q : SpscQueue) (s : Threads)
    → New q
    → Reach q s
    → IsValid s.queue × (s.sent ≡ s.taken ++ contents s.queue)
exactly_once q s n r = let i = Reach-Inv n r in (i.valid, i.history)

-- In every state that the threads of `Reserve`, `Commit`, `Rollback`, `TryPush` and `BatchPush` and
-- of `TryPop` and `BatchPop` reach on a new queue, while the consumer is between two calls, the
-- span that the last call returned, or the last one of its batch, shows the bytes of the last
-- message handed out.
pub span_kept :
    (q : SpscQueue) (s : Threads) (span : Message)
    → New q
    → Reach q s
    → last_span s.consumer ≡ some span
    → (earlier : List (List ℕ)) × (s.taken ≡ earlier ++ message_bytes s.queue.buffer span ∷ [])
span_kept q s span n r e =
    let i = Reach-Inv n r in
    let h = Held-last_span s.queue s.consumer span s.taken i.consumer_fact e in (h.earlier, h.shown)
