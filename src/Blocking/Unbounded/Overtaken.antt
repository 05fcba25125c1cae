-- ===== src/Blocking/Unbounded/Overtaken.antt =====
-- A producer that leaves a message and ends between two loads of an unbounded `BlockingPop`.
use omni_mailbox.Base.{
  ℕ, suc, ◌≡◌, refl, ap, ◌∙◌, true, false, none, some, List, [], ◌∷◌, ◌++◌, length, if◌then◌else◌,
  ◌==◌,
}
use omni_mailbox.Config.{PopResult}
use omni_mailbox.Spsc.{SpscQueue}
use omni_mailbox.Spsc.Invariant.{stored, contents}
use omni_mailbox.Spsc.Window.{window}
use omni_mailbox.Producer.{Producer, try_push, close_producer}
use omni_mailbox.Producer.Reservation.{ProducerIsValid, Accepts}
use omni_mailbox.Producer.Push.{try_push_accepted, pushed_lem}
use omni_mailbox.Consumer.{Consumer, count_failure}
use omni_mailbox.Blocking.{arrives}
use omni_mailbox.Blocking.Unbounded.{popping, looking, checking, unbounded_pop, meets}
use omni_mailbox.Blocking.Unbounded.Steps.{
  step_waits, step_returns, pops_none, looks_empty, checks_dead,
}

-- The producer's last push and its destructor, after the consumer has loaded the indices.
abbrev pub last_words : List ℕ → Producer → ℕ → SpscQueue → SpscQueue
last_words m p i q = if i == 2 then close_producer (try_push m (arrives q p)).1 else q

module _ (p : Producer) (v : ProducerIsValid p) (m : List ℕ) (a : Accepts (length m) p)
    (c : Consumer) where
  abbrev found : Consumer
  found = meets p.queue c

  abbrev final : Consumer
  final = meets (last_words m p 2 p.queue) c

  final_queue :
      (final.queue.producer_alive ≡ false) × (contents final.queue ≡ contents p.queue ++ m ∷ [])
  unfolding close_producer
  final_queue =
      let pushed_eq = try_push_accepted p v m a in rw pushed_eq (refl, (pushed_lem p v m a).1)

-- An unbounded `BlockingPop` on a valid empty queue whose producer pushes a message, which it may,
-- and ends after the indices were loaded and before its flag is, returns `ChannelClosed` while the
-- message is stored.
pub closed_with_message :
    (n : ℕ) (p : Producer) (m : List ℕ) (c : Consumer)
    → ProducerIsValid p
    → Accepts (length m) p
    → stored p.queue ≡ 0
    → p.queue.producer_alive ≡ true
    → (c' : Consumer) × (unbounded_pop
          (last_words m p)
          (suc (suc (suc n)))
          0
          popping
          (meets p.queue c)
        ≡ some (PopResult.channel_closed, none, c'))
      × (contents c'.queue ≡ m ∷ [])
closed_with_message n p m c v a nothing alive =
    let (dead, left) = final_queue p v m a c in
    let start = found p v m a c in
    let end = final p v m a c in
    (
      count_failure end,
      step_waits (last_words m p) (suc (suc n)) 0 popping start looking start
            (pops_none start v.queue_valid nothing alive)
          ∙ step_waits (last_words m p) (suc n) 1 looking start (checking p.queue.write_index) start
              (looks_empty start v.queue_valid nothing)
          ∙ step_returns (last_words m p) n 2 (checking p.queue.write_index) start
              PopResult.channel_closed none (count_failure end)
              (checks_dead end p.queue.write_index dead),
      left
          ∙ ap
              (λ t.
                window p.queue.slot_size p.queue.capacity p.queue.buffer p.queue.read_index t
                ++ m ∷ [])
              nothing,
    )
