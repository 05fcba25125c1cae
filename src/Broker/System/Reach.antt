-- ===== src/Broker/System/Reach.antt =====
-- What a program can bring the broker and its handles to.
use omni_mailbox.Base.{ℕ}
use omni_mailbox.Spsc.{SpscQueue}
use omni_mailbox.Broker.System.{System, Command, step}
use omni_mailbox.Broker.System.Kept.{SystemIsValid}
use omni_mailbox.Broker.System.Refine.{new_system, new_system-IsValid, command_refines}

pub data Reachable : System → Type 0 where
  started : (store : ℕ → SpscQueue) → Reachable (new_system store)
  followed : {s : System} (c : Command) → Reachable s → Reachable (step c s).1

-- After any sequence of the broker's calls and of `TryPush`, `BatchPush`, `TryPop`, `BatchPop`
-- without a timeout and the destructors on the handles that it handed out, whichever allocations in
-- the `try` block of a request failed: no name is registered twice, every registered channel has a
-- valid queue of its own, the number of channels created is the number of those destroyed and of
-- those registered, modulo 2^64, and every handle that was handed out has a valid queue, no
-- reservation, and counters that fit their words.
pub Reachable-IsValid : (s : System) → Reachable s → SystemIsValid s
Reachable-IsValid s (started store) = new_system-IsValid store
Reachable-IsValid s (followed c r) = (command_refines c _ (Reachable-IsValid _ r)).1
