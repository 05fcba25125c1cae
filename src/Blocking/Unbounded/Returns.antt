-- ===== src/Blocking/Unbounded/Returns.antt =====
-- An unbounded `BlockingPop` returns once a message is stored. Until it returns it writes nothing
-- to the queue, so what it meets is the sequence of queues that the producer's work leaves.
use native.Mathlib.Decide.{ℕ_discrete}
use omni_mailbox.Base.{
  ℕ, zero, suc, ◌+◌, ◌≤◌, ◌<◌, ◌≡◌, ◌≢◌, ◌⊎◌, inl, inr, refl, sym, ◌∙◌, false, Bool-cases, Option,
  none, some, arith,
}
use omni_mailbox.Config.{PopResult}
use omni_mailbox.Fifo
use omni_mailbox.Fifo.{Fifo, view}
use omni_mailbox.Spsc.{SpscQueue}
use omni_mailbox.Spsc.Invariant.{IsValid, stored}
use omni_mailbox.Consumer.{Consumer, Message, count_failure, try_pop}
use omni_mailbox.Consumer.Pop.{popped_bytes, try_pop_refines, try_pop-some, try_pop_closed}
use omni_mailbox.Blocking.Unbounded.{
  Pause, popping, looking, checking, asleep, waits, returns, pause_step, unbounded_pop, meets,
}
use omni_mailbox.Blocking.Unbounded.Steps.{
  step_waits, step_returns, pops_some, pops_none, pops_closed, looks_empty, looks_some,
  checks_alive, checks_dead, sleeps, wakes, same_indices, other_indices,
}

-- What the producer may do to the queue between the steps of the call.
pub record ProducerWork (queues : ℕ → SpscQueue) : Type 0 where
  pub valid : (i : ℕ) → IsValid (queues i)
  pub own : ℕ
  pub own_index : (i : ℕ) → (queues i).read_index ≡ own
  pub more : (i : ℕ) → stored (queues i) ≤ stored (queues (i + 1))

-- How the call may end: with the answer of the bounded queue, other than empty, on the queue that
-- it met in some step, or closed, when it met a producer that is gone.
pub data WaitEnded (queues : ℕ → SpscQueue) (r : PopResult) (m : Option Message) (c' : Consumer)
    : Type 0 where
  popped :
      (i : ℕ)
      → (r, popped_bytes c'.queue.buffer m, view c'.queue) ≡ Fifo.pop (view (queues i))
      → r ≢ PopResult.empty
      → WaitEnded queues r m c'
  closed :
      (i : ℕ)
      → r ≡ PopResult.channel_closed
      → m ≡ none
      → c'.queue ≡ queues i
      → (queues i).producer_alive ≡ false
      → WaitEnded queues r m c'

-- A call that returned, with what it returned.
pub record Received (queues : ℕ → SpscQueue) (o : Option (PopResult × Option Message × Consumer))
    : Type 0 where
  pub code : PopResult
  pub message : Option Message
  pub consumer : Consumer
  pub produced : o ≡ some (code, message, consumer)
  pub valid : IsValid consumer.queue
  pub ended : WaitEnded queues code message consumer

-- How many steps on a queue with a message lead to the next `TryPop`.
abbrev rank : Pause → ℕ
rank popping = 0
rank looking = 1
rank (asleep w) = 2
rank (checking w) = 3

module _ (queues : ℕ → SpscQueue) (work : ProducerWork queues) where
  abbrev call : ℕ → ℕ → Pause → Consumer → Option (PopResult × Option Message × Consumer)
  call n i at c = unbounded_pop (λ i q. queues i) n i at c

  -- The index that the call compares with is the one that stood for an empty queue.
  abbrev Standing : Pause → Type 0
  Standing popping = Unit
  Standing looking = Unit
  Standing (checking w) = w ≡ work.own
  Standing (asleep w) = w ≡ work.own

  record Moved (i : ℕ) (at : Pause) (c : Consumer) : Type 0 where
    next : Pause
    standing : Standing next
    moves : pause_step at (meets (queues i) c) ≡ waits next (meets (queues i) c)
    nearer : stored (queues i) ≢ 0 → rank next < rank at

  module _ (i : ℕ) (c : Consumer) where
    abbrev seen : Consumer
    seen = meets (queues i) c

    -- An answer of `TryPop` that the call passes on.
    passed_on :
        (n : ℕ)
        → pause_step popping seen ≡ returns (try_pop seen).0 (try_pop seen).1 (try_pop seen).2
        → (try_pop seen).0 ≢ PopResult.empty
        → Received queues (call (suc n) i popping c)
    passed_on n e other =
        let (same, valid) = try_pop_refines seen (work.valid i) in
        record {
          code = (try_pop seen).0;
          message = (try_pop seen).1;
          consumer = (try_pop seen).2;
          produced = step_returns (λ i q. queues i) n i popping c _ _ _ e;
          valid = valid;
          ended = popped i same other;
        }

    popping_step : (n : ℕ) → Received queues (call (suc n) i popping c) ⊎ Moved i popping c
    popping_step n = elim (ℕ_discrete (stored (queues i)) 0) [
      | no some_left ↦
          let e = try_pop-some seen (work.valid i) some_left in
          inl (passed_on n (rw e (pops_some seen (work.valid i) some_left)) (rw e (ground arith)))
      | yes nothing ↦ elim (Bool-cases (queues i).producer_alive) [
        | inl alive ↦ inr (record {
          next = looking;
          standing = tt;
          moves = pops_none seen (work.valid i) nothing alive;
          nearer = λ ne. absurd (ne nothing);
        })
        | inr dead ↦
            let e = (try_pop_closed seen (work.valid i) nothing dead).0 in
            inl (
              passed_on n (rw e (pops_closed seen (work.valid i) nothing dead))
                (rw e (ground arith)))
      ]
    ]

    looking_step : Moved i looking c
    looking_step = elim (ℕ_discrete (stored (queues i)) 0) [
      | no some_left ↦ record {
        next = popping;
        standing = tt;
        moves = looks_some seen (work.valid i) some_left;
        nearer = λ ne. omega arith;
      }
      | yes nothing ↦ record {
        next = checking (queues i).write_index;
        standing = same_indices (queues i) (work.valid i) nothing ∙ work.own_index i;
        moves = looks_empty seen (work.valid i) nothing;
        nearer = λ ne. absurd (ne nothing);
      }
    ]

    checking_step :
        (n w : ℕ)
        → w ≡ work.own
        → Received queues (call (suc n) i (checking w) c) ⊎ Moved i (checking w) c
    checking_step n w e = elim (Bool-cases (queues i).producer_alive) [
      | inl alive ↦ inr (record {
        next = asleep w;
        standing = e;
        moves = checks_alive seen w alive;
        nearer = λ ne. omega arith;
      })
      | inr dead ↦ inl (record {
        code = PopResult.channel_closed;
        message = none;
        consumer = count_failure seen;
        produced =
            step_returns (λ i q. queues i) n i (checking w) c _ _ _ (checks_dead seen w dead);
        valid = work.valid i;
        ended = closed i refl refl refl dead;
      })
    ]

    asleep_step : (w : ℕ) → w ≡ work.own → Moved i (asleep w) c
    asleep_step w e = elim (ℕ_discrete (stored (queues i)) 0) [
      | no some_left ↦ record {
        next = looking;
        standing = tt;
        moves = wakes seen w (λ same.
            other_indices (queues i) (work.valid i) some_left (same ∙ e ∙ sym (work.own_index i)));
        nearer = λ ne. omega arith;
      }
      | yes nothing ↦ record {
        next = asleep w;
        standing = e;
        moves =
            sleeps seen w
              (same_indices (queues i) (work.valid i) nothing ∙ work.own_index i ∙ sym e);
        nearer = λ ne. absurd (ne nothing);
      }
    ]

    step_cases :
        (n : ℕ) (at : Pause) → Standing at → Received queues (call (suc n) i at c) ⊎ Moved i at c
    step_cases n popping s = popping_step n
    step_cases n looking s = inr looking_step
    step_cases n (checking w) s = checking_step n w s
    step_cases n (asleep w) s = inr (asleep_step w s)

  module _ (n i : ℕ) (at : Pause) (c : Consumer) (m : Moved i at c) where
    -- The rest of the call, after a step that did not end it.
    moved_on :
        Received queues (call n (i + 1) m.next (meets (queues i) c))
        → Received queues (call (suc n) i at c)
    moved_on r = rw (step_waits (λ i q. queues i) n i at c m.next (meets (queues i) c) m.moves) r

  -- On a queue with a message the call is a few steps from its end.
  soon :
      (n i : ℕ) (at : Pause) (c : Consumer)
      → Standing at
      → rank at ≤ n
      → stored (queues i) ≢ 0
      → Received queues (call (suc n) i at c)
  soon zero i at c s near some_left = elim (step_cases i c zero at s) [
    | inl r ↦ r
    | inr m ↦ absurd (omega (arith, m.nearer some_left))
  ]
  soon (suc n) i at c s near some_left = elim (step_cases i c (suc n) at s) [
    | inl r ↦ r
    | inr m ↦ moved_on (suc n) i at c m (
        soon n (i + 1) m.next (meets (queues i) c) m.standing (omega (arith, m.nearer some_left))
          (omega (arith, work.more i)))
  ]

  rank_small : (at : Pause) → rank at ≤ 3
  rank_small popping = omega arith
  rank_small looking = omega arith
  rank_small (checking w) = omega arith
  rank_small (asleep w) = omega arith

  waits_until :
      (d i k : ℕ) (at : Pause) (c : Consumer)
      → i + d ≡ k
      → Standing at
      → stored (queues k) ≢ 0
      → Received queues (call (suc (suc (suc (suc d)))) i at c)
  waits_until zero i k at c e s some_left =
      let now : i ≡ k = omega arith in soon 3 i at c s (rank_small at) (rw now some_left)
  waits_until (suc d) i k at c e s some_left =
      elim (step_cases i c (suc (suc (suc (suc d)))) at s) [
        | inl r ↦ r
        | inr m ↦
            moved_on (suc (suc (suc (suc d)))) i at c m (
              waits_until d (i + 1) k m.next (meets (queues i) c) (omega arith) m.standing
                some_left)
      ]

-- If every queue that the producer's work leaves is valid, never holds fewer messages than the one
-- before and has the consumer's index untouched, and a message is stored before step `k`, an
-- unbounded `BlockingPop` returns within `k + 4` steps and leaves the queue valid: with the answer
-- of `Fifo.pop`, other than empty, on a queue that it met, or with `ChannelClosed` and no message
-- on a queue whose producer is gone.
pub unbounded_pop_returns :
    (queues : ℕ → SpscQueue) (k : ℕ) (c : Consumer)
    → ProducerWork queues
    → stored (queues k) ≢ 0
    → Received queues (unbounded_pop (λ i q. queues i) (k + 4) 0 popping c)
unbounded_pop_returns queues k c work some_left =
    let enough : k + 4 ≡ suc (suc (suc (suc k))) = omega arith in
    rw enough (waits_until queues work k 0 k popping c (omega arith) tt some_left)
