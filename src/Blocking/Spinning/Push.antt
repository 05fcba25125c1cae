-- ===== src/Blocking/Spinning/Push.antt =====
-- `BlockingPush` with its spins is `BlockingPush` in rounds, over what the other thread does between
-- two attempts.
use native.Mathlib.Numerals.{add-one}
use omni_mailbox.Base.{
  ◌*◌, ◌^◌, ◌<◌, ℕ, zero, suc, ◌+◌, ◌≤◌, ◌≡◌, refl, sym, ap, ◌∙◌, Option, none, some, List, length,
  leb, not, Bool, if◌then◌else◌, arith,
}
use omni_mailbox.Config.{PushResult}
use omni_mailbox.Helpers.{is_valid_message_size}
use omni_mailbox.Spsc.{SpscQueue}
use omni_mailbox.Spsc.Invariant.{IsValid}
use omni_mailbox.Producer.{Producer, reserve, fill_and_commit, count_failure}
use omni_mailbox.Producer.Reservation.{ProducerIsValid}
use omni_mailbox.Spin.{spin_wait_with_yield}
use omni_mailbox.Spin.Rounds.{begins, time, met, between, Met, MetLate, time-ge, between_keeps}
use omni_mailbox.Blocking.{arrives, deadline_after, blocking_push_loop, blocking_push}
use omni_mailbox.Blocking.Push.{Returned, Returned-map, blocking_push_returns}
use omni_mailbox.Blocking.Spinning.Met.{same_queues, same_late_queues}
use omni_mailbox.Blocking.Spinning.{has_room, spinning_push_loop, spinning_push}

reserve-queue : (n : ℕ) (p : Producer) → (reserve n p).1.queue ≡ p.queue
unfolding reserve
reserve-queue n p = ground arith

deadline_after_fits :
    (start timeout : ℕ)
    → start + timeout * 1000000 < 2 ^ 63
    → deadline_after start timeout ≡ start + timeout * 1000000
unfolding deadline_after
deadline_after_fits start timeout fits = ground arith

-- One attempt: how it ends the call, or what it leaves to `rest`.
abbrev pub turn :
    ℕ → List ℕ → Producer → Bool → Option (PushResult × Producer) → Option (PushResult × Producer)
turn n m seen late rest =
    if not seen.queue.consumer_alive
    then some (PushResult.channel_closed, count_failure seen)
    else elim (reserve n seen).0 [
      | some r ↦ some (fill_and_commit r.destination m (reserve n seen).1)
      | none ↦ if late then some (PushResult.timeout, count_failure (reserve n seen).1) else rest
    ]

module _ (others : ℕ → SpscQueue → SpscQueue) (clock : ℕ → ℕ) (m : List ℕ) (q : SpscQueue) where
  -- The same call in rounds: what the other thread does by each, and what the clock reads then.
  abbrev pub by_round : ℕ → SpscQueue → SpscQueue
  by_round = between others has_room q

  abbrev pub clock_by_round : ℕ → ℕ
  clock_by_round i = clock (time others has_room q i)

  -- What is left after an attempt that found `s` at time `t`.
  abbrev pub onward : ℕ → ℕ → ℕ → SpscQueue → Producer → Option (PushResult × Producer)
  onward deadline fuel t s p =
      let w = spin_wait_with_yield others has_room (t + 1) s in
      spinning_push_loop others clock deadline fuel w.time m (arrives w.state p)

  pub spinning_turn :
      (deadline fuel t : ℕ) (p : Producer)
      → let p' = (reserve (length m) (arrives (others t p.queue) p)).1 in
        spinning_push_loop others clock deadline (suc fuel) t m p
        ≡ turn
            (length m)
            m
            (arrives (others t p.queue) p)
            (leb deadline (clock t))
            (onward deadline fuel t p'.queue p')
  unfolding spinning_push_loop
  spinning_turn deadline fuel t p = refl

  blocking_turn :
      (deadline fuel i : ℕ) (p : Producer)
      → blocking_push_loop by_round clock_by_round deadline (suc fuel) i m p
        ≡ turn (length m) m (arrives (by_round i p.queue) p) (leb deadline (clock_by_round i)) (
            blocking_push_loop by_round clock_by_round deadline fuel
              (i + 1)
              m
              (reserve (length m) (arrives (by_round i p.queue) p)).1)
  unfolding blocking_push_loop
  blocking_turn deadline fuel i p = refl

  loop_in_rounds :
      (deadline fuel i : ℕ) (p : Producer)
      → by_round i p.queue ≡ met others has_room q i
      → spinning_push_loop others clock deadline fuel
          (time others has_room q i)
          m
          (arrives (begins others has_room q i).1 p)
        ≡ blocking_push_loop by_round clock_by_round deadline fuel i m p
  loop_in_rounds deadline zero i p e = unfold spinning_push_loop blocking_push_loop in refl
  loop_in_rounds deadline (suc fuel) i p e =
      let t = time others has_room q i in
      let p' = (reserve (length m) (arrives (met others has_room q i) p)).1 in
      let left : p'.queue ≡ met others has_room q i =
        reserve-queue (length m) (arrives (met others has_room q i) p) in
      let rest : onward deadline fuel t p'.queue p'
          ≡ blocking_push_loop by_round clock_by_round deadline fuel (i + 1) m p' =
        ap (λ s. onward deadline fuel t s p') left
        ∙ loop_in_rounds deadline fuel (suc i) p' (ap (by_round (suc i)) left)
        ∙ ap (λ j. blocking_push_loop by_round clock_by_round deadline fuel j m p')
            (sym (add-one i)) in
      spinning_turn deadline (fuel) t (arrives (begins others has_room q i).1 p)
      ∙ ap (turn (length m) m (arrives (met others has_room q i) p) (leb deadline (clock t))) rest
      ∙ ap
          (λ s. turn (length m) m (arrives s p) (leb deadline (clock t)) (
            blocking_push_loop by_round clock_by_round deadline fuel (i + 1) m
              (reserve (length m) (arrives s p)).1))
          (sym e)
      ∙ sym (blocking_turn deadline fuel i p)

  push_in_rounds :
      (start timeout fuel : ℕ) (p : Producer)
      → p.queue ≡ q
      → spinning_push others clock start timeout fuel m p
        ≡ blocking_push by_round clock_by_round start timeout fuel m p
  unfolding spinning_push blocking_push
  push_in_rounds start timeout fuel p e =
      ap
        (λ o.
          if not (is_valid_message_size (length m) p.queue.max_message_size)
          then some (PushResult.invalid_size, count_failure p)
          else o)
        (ap
            (λ s.
              spinning_push_loop others clock (deadline_after start timeout) fuel 0 m (arrives s p))
            e
          ∙ loop_in_rounds (deadline_after start timeout) fuel 0 p (ap (others 0) e))

module _ (others : ℕ → SpscQueue → SpscQueue) (clock : ℕ → ℕ)
    (keeps : (t : ℕ) (q : SpscQueue) → IsValid q → IsValid (others t q))
    (limits : (t : ℕ) (q : SpscQueue) → (others t q).max_message_size ≡ q.max_message_size)
    (m : List ℕ) where
  -- With its spins, where the consumer may work before each look: if, on a valid handle without a
  -- reservation, a timeout is given whose deadline fits the clock's signed count of nanoseconds (not
  -- the default one, which overflows it), the clock has reached the deadline from the attempt or look
  -- `T` on, and the consumer's work keeps the queue valid and its size limit, `BlockingPush` returns
  -- within `T + 1` attempts and leaves a valid handle: with the answer of `Fifo.push`, other than
  -- full, on a queue that it met, or with `Timeout` on a full queue that it met after the deadline,
  -- which is `timeout` milliseconds after the start.
  pub spinning_push_returns :
      (start timeout T : ℕ) (p : Producer)
      → start + timeout * 1000000 < 2 ^ 63
      → ((t : ℕ) → T ≤ t → start + timeout * 1000000 ≤ clock t)
      → ProducerIsValid p
      → p.reserved_slot ≡ none
      → Returned m
          (Met others has_room p.queue)
          (MetLate others has_room p.queue clock (start + timeout * 1000000))
          (spinning_push others clock start timeout (suc T) m p)
  spinning_push_returns start timeout T p fits late v free =
      let kept =
        λ (i : ℕ) (s : SpscQueue). between_keeps others has_room p.queue IsValid keeps i s in
      let limited = λ (i : ℕ) (s : SpscQueue).
        between_keeps others has_room p.queue (λ s'. s'.max_message_size ≡ s.max_message_size)
          (λ t s' h. limits t s' ∙ h) i s refl in
      let same = deadline_after_fits start timeout fits in
      rw (push_in_rounds others clock m p.queue start timeout (suc T) p refl, ← same)
        (Returned-map (same_queues others has_room p.queue)
          (same_late_queues others has_room p.queue clock (deadline_after start timeout))
          (blocking_push_returns (by_round others clock m p.queue)
            (clock_by_round others clock m p.queue) kept limited m start timeout T p v free
            (omega (
              arith,
              same,
              late (time others has_room p.queue T) (time-ge others has_room p.queue T),
            ))))
