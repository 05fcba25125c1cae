-- ===== src/Blocking/Spinning/Expired.antt =====
-- `BlockingPush` with its default timeout, whose deadline wraps.
use omni_mailbox.Base.{
  ℕ, suc, ◌-◌, ◌^◌, ◌≤◌, ◌<◌, ◌≡◌, ◌∙◌, true, Bool, Option, none, some, List, length, if◌then◌else◌,
  not, leb, le→leb, arith,
}
use omni_mailbox.Config.{PushResult}
use omni_mailbox.Helpers.{is_valid_message_size}
use omni_mailbox.Spsc.{SpscQueue}
use omni_mailbox.Spsc.Invariant.{IsValid, stored}
use omni_mailbox.Producer.{Producer, reserve, fill_and_commit, count_failure}
use omni_mailbox.Producer.Reservation.{ProducerIsValid, reserve_of_not-Accepts}
use omni_mailbox.Blocking.{arrives, deadline_after, milliseconds_max}
use omni_mailbox.Blocking.Spinning.{spinning_push}
use omni_mailbox.Blocking.Spinning.Push.{turn, spinning_turn}

-- The sum wraps to a millisecond before the start.
deadline_after-max : (start : ℕ) → start < 2 ^ 63 → deadline_after start milliseconds_max ≤ start
unfolding deadline_after
deadline_after-max start small = ground arith

-- An attempt that finds the queue full after the deadline is the last one.
last_turn :
    (m : List ℕ) (seen : Producer) (over : Bool) (rest : Option (PushResult × Producer))
    → seen.queue.consumer_alive ≡ true
    → reserve (length m) seen ≡ (none, seen)
    → over ≡ true
    → turn (length m) m seen over rest ≡ some (PushResult.timeout, count_failure seen)
last_turn m seen over rest alive refused late = λ i.
    if not (alive i)
    then some (PushResult.channel_closed, count_failure seen)
    else elim (refused i).0 [
      | some r ↦ some (fill_and_commit r.destination m (refused i).1)
      | none ↦ if late i then some (PushResult.timeout, count_failure (refused i).1) else rest
    ]

module _ (others : ℕ → SpscQueue → SpscQueue) (clock : ℕ → ℕ) (m : List ℕ) (p : Producer)
    (v : ProducerIsValid p) (free : p.reserved_slot ≡ none) where
  abbrev found : Producer
  found = arrives (others 0 p.queue) p

  -- With its default timeout, `milliseconds::max()`, whose deadline wraps, `BlockingPush` of a message
  -- of an admitted size on a valid handle without a reservation gives up at its first attempt: it
  -- returns `Timeout`, counts a failure and changes nothing else, when that attempt finds a valid full
  -- queue with its consumer alive and the clock there reads no less than at the start.
  pub default_timeout_expires :
      (start fuel : ℕ)
      → start < 2 ^ 63
      → start ≤ clock 0
      → is_valid_message_size (length m) p.queue.max_message_size ≡ true
      → IsValid (others 0 p.queue)
      → (others 0 p.queue).consumer_alive ≡ true
      → stored (others 0 p.queue) ≡ (others 0 p.queue).capacity - 1
      → spinning_push others clock start milliseconds_max (suc fuel) m p
        ≡ some (PushResult.timeout, count_failure found)
  default_timeout_expires start fuel small on sized valid alive full =
      let late : leb (deadline_after start milliseconds_max) (clock 0) ≡ true =
        le→leb (deadline_after start milliseconds_max) (clock 0)
          (omega (arith, deadline_after-max start small)) in
      let found-IsValid : ProducerIsValid found = record {
        queue_valid = valid;
        reserved = λ k e. cc;
      } in
      let refused = reserve_of_not-Accepts found found-IsValid (length m) (λ a. a.has_room full) in
      unfold spinning_push in
      rw sized (
        spinning_turn others clock m p.queue (deadline_after start milliseconds_max) fuel 0 p
        ∙ last_turn m found _ _ alive refused late)
