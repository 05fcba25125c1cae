-- ===== src/Blocking/Unbounded/Sleep.antt =====
-- A sleeper whose producer goes away without another message.
use omni_mailbox.Base.{ℕ, zero, suc, ◌+◌, ◌≡◌, refl, ◌∙◌, Bool, true, Option, none}
use omni_mailbox.Config.{PopResult}
use omni_mailbox.Spsc.{SpscQueue}
use omni_mailbox.Spsc.Invariant.{IsValid, stored, flags-IsValid}
use omni_mailbox.Consumer.{Consumer, Message}
use omni_mailbox.Blocking.Unbounded.{
  Pause, popping, looking, checking, asleep, unbounded_pop, meets,
}
use omni_mailbox.Blocking.Unbounded.Steps.{step_waits, pops_none, looks_empty, checks_alive, sleeps}

-- A producer that does nothing but raise and lower its flag.
abbrev pub flagged : (ℕ → Bool) → ℕ → SpscQueue → SpscQueue
flagged flag i q = record q { producer_alive = flag i }

module _ (flag : ℕ → Bool) where
  abbrev call : ℕ → ℕ → Pause → Consumer → Option (PopResult × Option Message × Consumer)
  call n i at c = unbounded_pop (flagged flag) n i at c

  abbrev seen : ℕ → Consumer → Consumer
  seen i c = meets (flagged flag i c.queue) c

  no_fuel : (i : ℕ) (at : Pause) (c : Consumer) → call zero i at c ≡ none
  unfolding unbounded_pop
  no_fuel i at c = refl

  sleeps_on : (n i : ℕ) (c : Consumer) → call n i (asleep c.queue.write_index) c ≡ none
  sleeps_on zero i c = no_fuel i _ c
  sleeps_on (suc n) i c =
      step_waits (flagged flag) n i _ c _ (seen i c) (sleeps (seen i c) c.queue.write_index refl)
      ∙ sleeps_on n (i + 1) (seen i c)

  falls_asleep :
      (n i : ℕ) (c : Consumer) → flag i ≡ true → call n i (checking c.queue.write_index) c ≡ none
  falls_asleep zero i c up = no_fuel i _ c
  falls_asleep (suc n) i c up =
      step_waits (flagged flag) n i _ c _ (seen i c)
        (checks_alive (seen i c) c.queue.write_index up)
      ∙ sleeps_on n (i + 1) (seen i c)

  module _ (c : Consumer) (v : IsValid c.queue) (nothing : stored c.queue ≡ 0) where
    seen-IsValid : (i : ℕ) → IsValid (seen i c).queue
    seen-IsValid i = flags-IsValid c.queue v (flag i) c.queue.consumer_alive

    looks : (n i : ℕ) → flag (i + 1) ≡ true → call n i looking c ≡ none
    looks zero i up = no_fuel i _ c
    looks (suc n) i up =
        step_waits (flagged flag) n i _ c _ (seen i c)
          (looks_empty (seen i c) (seen-IsValid i) nothing)
        ∙ falls_asleep n (i + 1) (seen i c) up

-- Lost wakeup: an unbounded `BlockingPop` on a valid empty queue whose producer only raises and
-- lowers its flag, which is up when `TryPop` and when the check before the wait read it, has not
-- returned after any number of steps, even if the flag stays down from then on.
pub never_woken :
    (flag : ℕ → Bool) (n : ℕ) (c : Consumer)
    → IsValid c.queue
    → stored c.queue ≡ 0
    → flag 0 ≡ true
    → flag 2 ≡ true
    → unbounded_pop (flagged flag) n 0 popping c ≡ none
never_woken flag zero c v e up up' = no_fuel flag 0 _ c
never_woken flag (suc n) c v e up up' =
    step_waits (flagged flag) n 0 _ c _ (seen flag 0 c)
      (pops_none (seen flag 0 c) (seen-IsValid flag c v e 0) e up)
    ∙ looks flag (seen flag 0 c) (seen-IsValid flag c v e 0) e n 1 up'
