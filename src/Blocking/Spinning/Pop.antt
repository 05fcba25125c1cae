-- ===== src/Blocking/Spinning/Pop.antt =====
-- `BlockingPop` with its spins is `BlockingPop` in rounds, over what the other thread does between
-- two attempts.
use native.Mathlib.Numerals.{add-one}
use omni_mailbox.Base.{
  ℕ, zero, suc, ◌+◌, ◌≤◌, ◌≡◌, refl, sym, ap, ◌∙◌, Bool, inl, inr, Option, none, some, leb,
  if◌then◌else◌,
}
use omni_mailbox.Config.{PopResult}
use omni_mailbox.Spsc.{SpscQueue}
use omni_mailbox.Spsc.Invariant.{IsValid}
use omni_mailbox.Consumer.{Consumer, Message, try_pop, count_failure}
use omni_mailbox.Spin.{spin_wait_with_yield}
use omni_mailbox.Spin.Rounds.{
  begins, time, met, between, Met, MetLate, time-ge, between_keeps, met_keeps,
}
use omni_mailbox.Blocking.{is_final, blocking_pop_loop, blocking_pop}
use omni_mailbox.Blocking.Pop.{PopReturned, PopReturned-map, try_pop_cases, blocking_pop_returns}
use omni_mailbox.Blocking.Spinning.Met.{same_queues, same_late_queues}
use omni_mailbox.Blocking.Spinning.{has_message, spinning_pop_loop, spinning_pop}

-- One attempt: how it ends the call, or what it leaves to `rest`.
abbrev turn :
    PopResult × Option Message × Consumer
    → Bool
    → Option (PopResult × Option Message × Consumer)
    → Option (PopResult × Option Message × Consumer)
turn (r, m, c) late rest =
    if is_final r
    then some (r, m, c)
    else if late
    then some (PopResult.timeout, none, count_failure c)
    else rest

module _ (others : ℕ → SpscQueue → SpscQueue) (clock : ℕ → ℕ)
    (keeps : (t : ℕ) (q : SpscQueue) → IsValid q → IsValid (others t q)) (q : SpscQueue)
    (v : IsValid q) where
  abbrev by_round : ℕ → SpscQueue → SpscQueue
  by_round = between others has_message q

  abbrev clock_by_round : ℕ → ℕ
  clock_by_round i = clock (time others has_message q i)

  abbrev at : SpscQueue → Consumer → Consumer
  at s c = record c { queue = s }

  abbrev onward : ℕ → ℕ → ℕ → Consumer → Option (PopResult × Option Message × Consumer)
  onward deadline fuel t c =
      let w = spin_wait_with_yield others has_message (t + 1) c.queue in
      spinning_pop_loop others clock deadline fuel w.time (at w.state c)

  spinning_turn :
      (deadline fuel t : ℕ) (c : Consumer)
      → spinning_pop_loop others clock deadline (suc fuel) t c
        ≡ turn
            (try_pop (at (others t c.queue) c))
            (leb deadline (clock t))
            (onward deadline fuel t (try_pop (at (others t c.queue) c)).2)
  unfolding spinning_pop_loop
  spinning_turn deadline fuel t c = refl

  blocking_turn :
      (deadline fuel i : ℕ) (c : Consumer)
      → blocking_pop_loop by_round clock_by_round deadline (suc fuel) i c
        ≡ turn (try_pop (at (by_round i c.queue) c)) (leb deadline (clock_by_round i)) (
            blocking_pop_loop by_round clock_by_round deadline fuel
              (i + 1)
              (try_pop (at (by_round i c.queue) c)).2)
  unfolding blocking_pop_loop
  blocking_turn deadline fuel i c = refl

  -- Where an attempt ends the call, the rest does not matter; where it does not, it left the handle
  -- as it was.
  same_turn :
      (c : Consumer) (late : Bool) (f g : Consumer → Option (PopResult × Option Message × Consumer))
      → IsValid c.queue
      → f c ≡ g c
      → turn (try_pop c) late (f (try_pop c).2) ≡ turn (try_pop c) late (g (try_pop c).2)
  same_turn c late f g valid same = elim (try_pop_cases c valid) [
    | inl (final, other) ↦ rw final refl
    | inr (empty, nothing) ↦ rw (empty, same) refl
  ]

  loop_in_rounds :
      (deadline fuel i : ℕ) (c : Consumer)
      → by_round i c.queue ≡ met others has_message q i
      → spinning_pop_loop others clock deadline fuel
          (time others has_message q i)
          (at (begins others has_message q i).1 c)
        ≡ blocking_pop_loop by_round clock_by_round deadline fuel i c
  loop_in_rounds deadline zero i c e = unfold spinning_pop_loop blocking_pop_loop in refl
  loop_in_rounds deadline (suc fuel) i c e =
      let t = time others has_message q i in
      let found = at (met others has_message q i) c in
      let rest : onward deadline fuel t found
          ≡ blocking_pop_loop by_round clock_by_round deadline fuel (i + 1) found =
        loop_in_rounds deadline fuel (suc i) found refl
        ∙ ap (λ j. blocking_pop_loop by_round clock_by_round deadline fuel j found)
            (sym (add-one i)) in
      spinning_turn deadline fuel t (at (begins others has_message q i).1 c)
      ∙ same_turn found (leb deadline (clock t)) (onward deadline fuel t)
          (blocking_pop_loop by_round clock_by_round deadline fuel (i + 1))
          (met_keeps others has_message q IsValid keeps v i) rest
      ∙ ap
          (λ s.
            turn (try_pop (at s c)) (leb deadline (clock t)) (
              blocking_pop_loop by_round clock_by_round deadline fuel (i + 1) (try_pop (at s c)).2))
          (sym e)
      ∙ sym (blocking_turn deadline fuel i c)

  pop_in_rounds :
      (start timeout fuel : ℕ) (c : Consumer)
      → c.queue ≡ q
      → spinning_pop others clock start timeout fuel c
        ≡ blocking_pop by_round clock_by_round start timeout fuel c
  unfolding spinning_pop blocking_pop
  pop_in_rounds start timeout fuel c e = elim (try_pop_cases c (rw e v)) [
    | inl (final, other) ↦ rw final refl
    | inr (empty, nothing) ↦ rw empty (
        ap (λ s. spinning_pop_loop others clock (start + timeout) fuel 0 (at s c)) e
        ∙ loop_in_rounds (start + timeout) fuel 0 c (ap (others 0) e))
  ]

module _ (others : ℕ → SpscQueue → SpscQueue) (clock : ℕ → ℕ)
    (keeps : (t : ℕ) (q : SpscQueue) → IsValid q → IsValid (others t q)) where
  -- With its spins, where the producer may work before each look: if, on a valid queue, the clock has
  -- reached the deadline from the attempt or look `T` of the loop on, and the producer's work keeps
  -- the queue valid, `BlockingPop` with a finite timeout returns after at most `T + 1` attempts of
  -- its loop and leaves the queue valid: with the answer of `Fifo.pop`, other than empty, on a
  -- queue that it met, or with `Timeout` and no message on an empty queue that it met after the
  -- deadline.
  pub spinning_pop_returns :
      (start timeout T : ℕ) (c : Consumer)
      → ((t : ℕ) → T ≤ t → start + timeout ≤ clock t)
      → IsValid c.queue
      → PopReturned
          (Met others has_message c.queue)
          (MetLate others has_message c.queue clock (start + timeout))
          (spinning_pop others clock start timeout (suc T) c)
  spinning_pop_returns start timeout T c late v =
      let kept =
        λ (i : ℕ) (s : SpscQueue). between_keeps others has_message c.queue IsValid keeps i s in
      rw (pop_in_rounds others clock keeps c.queue v start timeout (suc T) c refl) (
        PopReturned-map (same_queues others has_message c.queue)
          (same_late_queues others has_message c.queue clock (start + timeout))
          (blocking_pop_returns (by_round others clock keeps c.queue v)
            (clock_by_round others clock keeps c.queue v) kept start timeout T c v
            (late (time others has_message c.queue T) (time-ge others has_message c.queue T))))
