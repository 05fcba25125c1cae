-- ===== src/Blocking/Pop.antt =====
-- `BlockingPop` with a finite timeout returns when the deadline is reached, and what it returns.
use omni_mailbox.Base.{
  ℕ, zero, suc, ◌+◌, ◌≤◌, ◌≡◌, ◌≢◌, ◌⊎◌, refl, ap, ◌∙◌, true, Bool-cases, inl, inr, Option, none,
  some, leb, leb→le, le→leb, if◌then◌else◌, arith,
}
use native.Mathlib.Decide.{ℕ_discrete}
use native.Mathlib.Numerals.{add-one}
use omni_mailbox.Config.{PopResult}
use omni_mailbox.Fifo
use omni_mailbox.Fifo.{Fifo, view}
use omni_mailbox.Spsc.{SpscQueue}
use omni_mailbox.Spsc.Invariant.{IsValid, stored}
use omni_mailbox.Consumer.{Consumer, Message, try_pop, count_failure}
use omni_mailbox.Consumer.Pop.{
  popped_bytes, try_pop_refines, try_pop-some, try_pop_empty, try_pop_closed,
}
use omni_mailbox.Blocking.Found.{found, Found, FoundLate}
use omni_mailbox.Blocking.{is_final, blocking_pop_loop, blocking_pop}

-- How a call that waits for a message may end: with the answer of the bounded queue, other than
-- empty, on a queue that the call found, or with a timeout on an empty queue, found late.
pub data PopEnded (Found Late : SpscQueue → Type 0) (r : PopResult) (m : Option Message)
    (c' : Consumer) : Type 0 where
  popped :
      (q : SpscQueue)
      → Found q
      → IsValid q
      → (r, popped_bytes c'.queue.buffer m, view c'.queue) ≡ Fifo.pop (view q)
      → r ≢ PopResult.empty
      → PopEnded Found Late r m c'
  gave_up :
      r ≡ PopResult.timeout
      → m ≡ none
      → Late c'.queue
      → stored c'.queue ≡ 0
      → PopEnded Found Late r m c'

-- A call that returned, with what it returned.
pub record PopReturned (Found Late : SpscQueue → Type 0)
    (o : Option (PopResult × Option Message × Consumer)) : Type 0 where
  pub code : PopResult
  pub message : Option Message
  pub consumer : Consumer
  pub produced : o ≡ some (code, message, consumer)
  pub valid : IsValid consumer.queue
  pub ended : PopEnded Found Late code message consumer

-- The same end, told of the queues in other words.
pub PopReturned-map :
    {Found Found' Late Late' : SpscQueue → Type 0}
    {o : Option (PopResult × Option Message × Consumer)}
    → ((q : SpscQueue) → Found q → Found' q)
    → ((q : SpscQueue) → Late q → Late' q)
    → PopReturned Found Late o
    → PopReturned Found' Late' o
PopReturned-map f g r = record {
  code = r.code;
  message = r.message;
  consumer = r.consumer;
  produced = r.produced;
  valid = r.valid;
  ended = elim r.ended [
    | popped q at v same other ↦ popped q (f q at) v same other
    | gave_up code none_returned late nothing ↦
        gave_up code none_returned (g r.consumer.queue late) nothing
  ];
}

-- `TryPop` ends the wait, or finds the queue empty and changes nothing.
pub try_pop_cases :
    (c : Consumer)
    → IsValid c.queue
    → ((is_final (try_pop c).0 ≡ true) × ((try_pop c).0 ≢ PopResult.empty))
      ⊎ ((try_pop c ≡ (PopResult.empty, none, c)) × (stored c.queue ≡ 0))
try_pop_cases c v = elim (ℕ_discrete (stored c.queue) 0) [
  | no some_left ↦ inl (rw (try_pop-some c v some_left) (refl, ground arith))
  | yes e ↦ elim (Bool-cases c.queue.producer_alive) [
    | inl alive ↦ inr ((try_pop_empty c v e alive).0, e)
    | inr dead ↦ inl (rw ((try_pop_closed c v e dead).0) (refl, ground arith))
  ]
]

module _ (others : ℕ → SpscQueue → SpscQueue) (clock : ℕ → ℕ)
    (keeps : (i : ℕ) (q : SpscQueue) → IsValid q → IsValid (others i q)) where
  module _ (deadline : ℕ) (q : SpscQueue) where
    abbrev Ends : Option (PopResult × Option Message × Consumer) → Type 0
    Ends o = PopReturned (Found others q) (FoundLate others q clock deadline) o

    abbrev loop : ℕ → ℕ → Consumer → Option (PopResult × Option Message × Consumer)
    loop n i c = blocking_pop_loop others clock deadline n i c

    abbrev seen : ℕ → Consumer → Consumer
    seen i c = record c { queue = others i c.queue }

    -- An answer of `TryPop` that the call passes on.
    passed_on :
        (o : Option (PopResult × Option Message × Consumer)) (c : Consumer)
        → IsValid c.queue
        → Found others q c.queue
        → o ≡ some (try_pop c)
        → (try_pop c).0 ≢ PopResult.empty
        → Ends o
    passed_on o c v at e other =
        let (same, valid) = try_pop_refines c v in
        record {
          code = (try_pop c).0;
          message = (try_pop c).1;
          consumer = (try_pop c).2;
          produced = e;
          valid = valid;
          ended = popped c.queue at v same other;
        }

    module _ (n i : ℕ) (c : Consumer) (v : IsValid c.queue)
        (at : others i c.queue ≡ found others q i) where
      final_round :
          is_final (try_pop (seen i c)).0 ≡ true → loop (suc n) i c ≡ some (try_pop (seen i c))
      unfolding blocking_pop_loop
      final_round e = rw e refl

      empty_round :
          try_pop (seen i c) ≡ (PopResult.empty, none, seen i c)
          → loop (suc n) i c ≡ (
              if leb deadline (clock i)
              then some (PopResult.timeout, none, count_failure (seen i c))
              else loop n (i + 1) (seen i c))
      unfolding blocking_pop_loop
      empty_round e = rw e refl

      last_round :
          try_pop (seen i c) ≡ (PopResult.empty, none, seen i c)
          → stored (seen i c).queue ≡ 0
          → deadline ≤ clock i
          → Ends (loop (suc n) i c)
      last_round e nothing late = record {
        code = PopResult.timeout;
        message = none;
        consumer = count_failure (seen i c);
        produced = empty_round e ∙ rw (le→leb deadline (clock i) late) refl;
        valid = keeps i c.queue v;
        ended = gave_up refl refl (i, at, late) nothing;
      }

    loop_returns :
        (n i k : ℕ) (c : Consumer)
        → i + n ≡ k
        → deadline ≤ clock k
        → IsValid c.queue
        → others i c.queue ≡ found others q i
        → Ends (loop (suc n) i c)
    loop_returns zero i k c e late v at =
        let same : i ≡ k = omega arith in
        let now : deadline ≤ clock i = rw same late in
        elim (try_pop_cases (seen i c) (keeps i c.queue v)) [
          | inl (final, other) ↦
              passed_on (loop 1 i c) (seen i c) (keeps i c.queue v) (inr (i, at))
                (final_round 0 i c v at final) other
          | inr (empty, nothing) ↦ last_round 0 i c v at empty nothing now
        ]
    loop_returns (suc n) i k c e late v at = elim (try_pop_cases (seen i c) (keeps i c.queue v)) [
      | inl (final, other) ↦
          passed_on (loop (suc (suc n)) i c) (seen i c) (keeps i c.queue v) (inr (i, at))
            (final_round (suc n) i c v at final) other
      | inr (empty, nothing) ↦ elim (Bool-cases (leb deadline (clock i))) [
        | inl now ↦ last_round (suc n) i c v at empty nothing (leb→le deadline (clock i) now)
        | inr early ↦
            rw (empty_round (suc n) i c v at empty, early)
              (loop_returns n (i + 1) k (seen i c) (omega arith) late (keeps i c.queue v)
                (rw (add-one i) (ap (others (suc i)) at)))
      ]
    ]

  -- If, on a valid queue, the clock has reached the deadline in round `k` and the producer's work
  -- keeps the queue valid, `BlockingPop` with a finite timeout returns after at most `k + 1` rounds
  -- of its loop and leaves the queue valid: with the answer of `Fifo.pop`, other than empty, on a
  -- queue that it found, or with `Timeout` and no message on an empty queue, found late.
  pub blocking_pop_returns :
      (start timeout k : ℕ) (c : Consumer)
      → IsValid c.queue
      → start + timeout ≤ clock k
      → PopReturned
          (Found others c.queue)
          (FoundLate others c.queue clock (start + timeout))
          (blocking_pop others clock start timeout (suc k) c)
  unfolding blocking_pop
  blocking_pop_returns start timeout k c v late = elim (try_pop_cases c v) [
    | inl (final, other) ↦
        passed_on (start + timeout) c.queue (blocking_pop others clock start timeout (suc k) c) c v
          (inl refl) (rw final refl) other
    | inr (empty, nothing) ↦
        rw empty (loop_returns (start + timeout) c.queue k 0 k c (omega arith) late v refl)
  ]
