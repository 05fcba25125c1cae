-- ===== src/Blocking/Push.antt =====
-- `BlockingPush` returns when the deadline is reached, and what it returns.
use omni_mailbox.Base.{
  ℕ, zero, suc, ◌+◌, ◌-◌, ◌≤◌, ◌<◌, ◌≡◌, ◌≢◌, ◌⊎◌, refl, ap, ◌∙◌, true, false, Bool-cases, inl, inr,
  Option, none, some, List, length, if◌then◌else◌, leb, leb→le, le→leb, arith,
}
use native.Mathlib.Decide.{ℕ_discrete}
use native.Mathlib.Numerals.{add-one}
use omni_mailbox.Config.{PushResult}
use omni_mailbox.Helpers.{is_valid_message_size}
use omni_mailbox.Fifo
use omni_mailbox.Fifo.{Fifo, view}
use omni_mailbox.Spsc.{SpscQueue}
use omni_mailbox.Spsc.Invariant.{IsValid, stored}
use omni_mailbox.Producer.{Producer, try_push, count_failure}
use omni_mailbox.Producer.Reservation.{
  ProducerIsValid, Accepts, valid_size, reserve_of_Accepts, reserve_of_not-Accepts,
}
use omni_mailbox.Producer.Push.{try_push_refines, try_push_accepted}
use omni_mailbox.Blocking.Found.{found, Found, FoundLate}
use omni_mailbox.Blocking.{arrives, deadline_after, blocking_push_loop, blocking_push}

-- How a call that waits for room may end: with the answer of the bounded queue, other than full,
-- on a queue that the call found, or with a timeout on a full queue, found late.
pub data Ended (m : List ℕ) (Found Late : SpscQueue → Type 0) (r : PushResult) (p' : Producer)
    : Type 0 where
  answered :
      (q : SpscQueue)
      → Found q
      → IsValid q
      → (r, view p'.queue) ≡ Fifo.push m (view q)
      → r ≢ PushResult.queue_full
      → Ended m Found Late r p'
  timed_out :
      r ≡ PushResult.timeout
      → Late p'.queue
      → stored p'.queue ≡ p'.queue.capacity - 1
      → Ended m Found Late r p'

-- A call that returned, with what it returned.
pub record Returned (m : List ℕ) (Found Late : SpscQueue → Type 0)
    (o : Option (PushResult × Producer)) : Type 0 where
  pub result : PushResult × Producer
  pub produced : o ≡ some result
  pub valid : ProducerIsValid result.1
  pub ended : Ended m Found Late result.0 result.1

-- The same end, told of the queues in other words.
pub Returned-map :
    {m : List ℕ} {Found Found' Late Late' : SpscQueue → Type 0} {o : Option (PushResult × Producer)}
    → ((q : SpscQueue) → Found q → Found' q)
    → ((q : SpscQueue) → Late q → Late' q)
    → Returned m Found Late o
    → Returned m Found' Late' o
Returned-map f g r = record {
  result = r.result;
  produced = r.produced;
  valid = r.valid;
  ended = elim r.ended [
    | answered q at v same other ↦ answered q (f q at) v same other
    | timed_out code late full ↦ timed_out code (g r.result.1.queue late) full
  ];
}

fifo_invalid :
    (m : List ℕ) (p : Producer)
    → ProducerIsValid p
    → is_valid_message_size (length m) p.queue.max_message_size ≡ false
    → (PushResult.invalid_size, view p.queue) ≡ Fifo.push m (view p.queue)
unfolding Fifo.push
fifo_invalid m p v bad = ground (arith, valid_size p v (length m))

module _ (others : ℕ → SpscQueue → SpscQueue) (clock : ℕ → ℕ)
    (keeps : (i : ℕ) (q : SpscQueue) → IsValid q → IsValid (others i q))
    (limits : (i : ℕ) (q : SpscQueue) → (others i q).max_message_size ≡ q.max_message_size)
    (m : List ℕ) where
  abbrev seen : ℕ → Producer → Producer
  seen i p = arrives (others i p.queue) p

  module _ (deadline : ℕ) (q : SpscQueue) where
    abbrev Ends : Option (PushResult × Producer) → Type 0
    Ends o = Returned m (Found others q) (FoundLate others q clock deadline) o

    abbrev loop : ℕ → ℕ → Producer → Option (PushResult × Producer)
    loop n i p = blocking_push_loop others clock deadline n i m p

    module _ (i : ℕ) (p : Producer) (v : ProducerIsValid p) (free : p.reserved_slot ≡ none)
        (pos : 0 < length m) (small : length m ≤ p.queue.max_message_size)
        (at : others i p.queue ≡ found others q i) where
      seen-IsValid : ProducerIsValid (seen i p)
      seen-IsValid = record { queue_valid = keeps i p.queue v.queue_valid; reserved = λ k e. cc }

      fits : length m ≤ (seen i p).queue.max_message_size
      fits = omega (arith, limits i p.queue)

      -- A round that finds the consumer dead, or room, ends as `TryPush` does.
      answer :
          (n : ℕ)
          → loop (suc n) i p ≡ some (try_push m (seen i p))
          → (try_push m (seen i p)).0 ≢ PushResult.queue_full
          → Ends (loop (suc n) i p)
      answer n e other =
          let (same, valid, _) = try_push_refines (seen i p) m seen-IsValid free in
          record {
            result = try_push m (seen i p);
            produced = e;
            valid = valid;
            ended = answered (seen i p).queue (inr (i, at)) seen-IsValid.queue_valid same other;
          }

      dead_round : (n : ℕ) → (seen i p).queue.consumer_alive ≡ false → Ends (loop (suc n) i p)
      dead_round n dead =
          let sized = (valid_size (seen i p) seen-IsValid (length m)).1 (pos, fits) in
          answer n (unfold blocking_push_loop try_push in ground (arith, sized))
            (unfold try_push in ground (arith, sized))

      room_round : (n : ℕ) → Accepts (length m) (seen i p) → Ends (loop (suc n) i p)
      room_round n a =
          let pushed = try_push_accepted (seen i p) seen-IsValid m a in
          answer n
            (unfold blocking_push_loop try_push in
              ground (
                arith,
                a.connected,
                valid_size (seen i p) seen-IsValid (length m),
                reserve_of_Accepts (seen i p) seen-IsValid (length m) a,
              ))
            (rw pushed (ground arith))

      full_round :
          (n : ℕ)
          → (seen i p).queue.consumer_alive ≡ true
          → stored (seen i p).queue ≡ (seen i p).queue.capacity - 1
          → loop (suc n) i p ≡ (
              if leb deadline (clock i)
              then some (PushResult.timeout, count_failure (seen i p))
              else loop n (i + 1) (seen i p))
      full_round n alive full =
          unfold blocking_push_loop in
          ground (
            arith,
            reserve_of_not-Accepts (seen i p) seen-IsValid (length m) (λ a. a.has_room full),
          )

      -- A round on a full queue at the deadline is the last one.
      late_round :
          (n : ℕ)
          → (seen i p).queue.consumer_alive ≡ true
          → stored (seen i p).queue ≡ (seen i p).queue.capacity - 1
          → deadline ≤ clock i
          → Ends (loop (suc n) i p)
      late_round n alive full late = record {
        result = (PushResult.timeout, count_failure (seen i p));
        produced = full_round n alive full ∙ rw (le→leb deadline (clock i) late) refl;
        valid = record { queue_valid = seen-IsValid.queue_valid; reserved = seen-IsValid.reserved };
        ended = timed_out refl (i, at, late) full;
      }

      -- What a round does: it ends the call, or finds the queue full.
      round :
          (n : ℕ)
          → Ends (loop (suc n) i p)
            ⊎ (((seen i p).queue.consumer_alive ≡ true)
                × (stored (seen i p).queue ≡ (seen i p).queue.capacity - 1))
      round n = elim (Bool-cases (seen i p).queue.consumer_alive) [
        | inr dead ↦ inl (dead_round n dead)
        | inl alive ↦ elim (ℕ_discrete (stored (seen i p).queue) ((seen i p).queue.capacity - 1)) [
          | yes full ↦ inr (alive, full)
          | no room ↦ inl (
              room_round n (record {
                not_empty = pos;
                fits = fits;
                unreserved = free;
                connected = alive;
                has_room = room;
              }))
        ]
      ]

    loop_returns :
        (n i k : ℕ) (p : Producer)
        → i + n ≡ k
        → deadline ≤ clock k
        → ProducerIsValid p
        → p.reserved_slot ≡ none
        → 0 < length m
        → length m ≤ p.queue.max_message_size
        → others i p.queue ≡ found others q i
        → Ends (loop (suc n) i p)
    loop_returns zero i k p e late v free pos small at =
        let same : i ≡ k = omega arith in
        let now : deadline ≤ clock i = rw same late in
        elim (round i p v free pos small at zero) [
          | inl r ↦ r
          | inr (alive, full) ↦ late_round i p v free pos small at zero alive full now
        ]
    loop_returns (suc n) i k p e late v free pos small at =
        elim (round i p v free pos small at (suc n)) [
          | inl r ↦ r
          | inr (alive, full) ↦ elim (Bool-cases (leb deadline (clock i))) [
            | inl now ↦
                late_round i p v free pos small at (suc n) alive full
                  (leb→le deadline (clock i) now)
            | inr early ↦
                rw (full_round i p v free pos small at (suc n) alive full, early)
                  (loop_returns n (i + 1) k (seen i p) (omega arith) late
                    (seen-IsValid i p v free pos small at) free pos (fits i p v free pos small at)
                    (rw (add-one i) (ap (others (suc i)) at)))
          ]
        ]

  -- If, on a valid handle without a reservation, the clock has reached the deadline in round `k`
  -- and the consumer's work keeps the queue valid and its size limit, `BlockingPush` returns within
  -- `k + 1` rounds and leaves a valid handle: with the answer of `Fifo.push`, other than full, on a
  -- queue that it found, or with `Timeout` on a full queue, found late.
  pub blocking_push_returns :
      (start timeout k : ℕ) (p : Producer)
      → ProducerIsValid p
      → p.reserved_slot ≡ none
      → deadline_after start timeout ≤ clock k
      → Returned m
          (Found others p.queue)
          (FoundLate others p.queue clock (deadline_after start timeout))
          (blocking_push others clock start timeout (suc k) m p)
  blocking_push_returns start timeout k p v free late =
      elim (Bool-cases (is_valid_message_size (length m) p.queue.max_message_size)) [
        | inl sized ↦
            let (pos, small) = (valid_size p v (length m)).0 sized in
            unfold blocking_push in
            rw sized (
              loop_returns (deadline_after start timeout) p.queue k 0 k p (omega arith) late v free
                pos small refl)
        | inr bad ↦
            unfold blocking_push in
            rw bad (record {
              result = (PushResult.invalid_size, count_failure p);
              produced = refl;
              valid = record { queue_valid = v.queue_valid; reserved = v.reserved };
              ended =
                  answered p.queue (inl refl) v.queue_valid (fifo_invalid m p v bad) (ground arith);
            })
      ]
