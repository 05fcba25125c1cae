-- ===== src/Blocking/Collect/Among.antt =====
-- What the loop of `BatchPop` takes while the producer goes on working.
use native.Mathlib.Decide.{ℕ_discrete}
use omni_mailbox.Base.{ℕ, zero, suc, ◌+◌, ◌≡◌, ◌≢◌, refl, sym, some, List, [], ◌∷◌, arith}
use omni_mailbox.Config.{PopResult}
use omni_mailbox.Fifo
use omni_mailbox.Fifo.{Fifo, view}
use omni_mailbox.Spsc.{SpscQueue}
use omni_mailbox.Spsc.Invariant.{IsValid, stored}
use omni_mailbox.Consumer.{Consumer, Message, message_bytes, front_message, advance, drain}
use omni_mailbox.Consumer.Pop.{empty_iff, advance_lem, fifo_some}
use omni_mailbox.Blocking.Collect.{drain_among}

-- The rounds of the loop from round `t` on the queue `q`, with room for `n` messages: each round
-- takes what the bounded queue hands out of the queue as the producer has left it by then, with the
-- bytes that the span shows at that moment; the loop ends when it has `n` messages, or at the first
-- round that finds nothing.
pub data Drained (later : ℕ → SpscQueue → SpscQueue)
    : ℕ → ℕ → SpscQueue → List Message → SpscQueue → Type 0 where
  full : {t : ℕ} {q : SpscQueue} → Drained later zero t q [] q
  dry :
      {n t : ℕ} {q : SpscQueue} → stored (later t q) ≡ 0 → Drained later (suc n) t q [] (later t q)
  took :
      {n t : ℕ} {q q' q'' : SpscQueue} {m : Message} {ms : List Message}
      → (PopResult.success, some (message_bytes q'.buffer m), view q') ≡ Fifo.pop (view (later t q))
      → Drained later n (t + 1) q' ms q''
      → Drained later (suc n) t q (m ∷ ms) q''

module _ (later : ℕ → SpscQueue → SpscQueue) where
  abbrev seen : ℕ → Consumer → Consumer
  seen t c = record c { queue = later t c.queue }

  among_empty :
      (n t : ℕ) (c : Consumer)
      → IsValid (seen t c).queue
      → stored (seen t c).queue ≡ 0
      → drain_among later (suc n) t c ≡ ([], seen t c)
  unfolding drain_among
  among_empty n t c v e = rw ((empty_iff (seen t c).queue v).1 e)

  among_more :
      (n t : ℕ) (c : Consumer)
      → IsValid (seen t c).queue
      → stored (seen t c).queue ≢ 0
      → let rest = drain_among later n (t + 1) (advance (seen t c)) in
        drain_among later (suc n) t c ≡ (front_message (seen t c).queue ∷ rest.0, rest.1)
  unfolding drain_among
  among_more n t c v some_left = ground (arith, empty_iff (seen t c).queue v)

  popped :
      (t : ℕ) (c : Consumer)
      → IsValid (seen t c).queue
      → stored (seen t c).queue ≢ 0
      → let q' = (advance (seen t c)).queue in
        (
          PopResult.success,
          some (message_bytes q'.buffer (front_message (seen t c).queue)),
          view q',
        )
        ≡ Fifo.pop (view (later t c.queue))
  unfolding advance
  popped t c met some_left = sym (fifo_some (seen t c) met some_left)

  pub drain_among-Drained :
      ((t : ℕ) (q : SpscQueue) → IsValid q → IsValid (later t q))
      → (n t : ℕ) (c : Consumer) → IsValid c.queue
      → let (ms, c') = drain_among later n t c in
        Drained later n t c.queue ms c'.queue × IsValid c'.queue
  drain_among-Drained keeps zero t c v = unfold drain_among in (full, v)
  drain_among-Drained keeps (suc n) t c v =
      let met = keeps t c.queue v in
      elim (ℕ_discrete (stored (seen t c).queue) 0) [
        | yes e ↦ rw (among_empty n t c met e) (dry e, met)
        | no some_left ↦
            let (valid, _, _) = advance_lem (seen t c) met some_left in
            let (rest, kept) = drain_among-Drained keeps n (t + 1) (advance (seen t c)) valid in
            rw (among_more n t c met some_left)
              (took {q' = (advance (seen t c)).queue} (popped t c met some_left) rest, kept)
      ]

-- With a producer that does nothing, it is the loop of `BatchPop` without a timeout.
pub drain_among-still : (n t : ℕ) (c : Consumer) → drain_among (λ i q. q) n t c ≡ drain n c
unfolding drain_among drain
drain_among-still zero t c = refl
drain_among-still (suc n) t c = rw (drain_among-still n (t + 1) (advance c)) refl
