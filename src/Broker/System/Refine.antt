-- ===== src/Broker/System/Refine.antt =====
-- The broker with all its channels behaves as bounded queues under names.
use omni_mailbox.Base.{◌∙◌, if◌then◌else◌, ℕ, ◌≡◌, refl, sym, ap, none, List, [], ◌∷◌}
use omni_mailbox.Spsc.{SpscQueue}
use omni_mailbox.Broker.{empty_broker, has_channel, get_stats}
use omni_mailbox.Broker.Invariant.{empty_broker-IsValid}
use omni_mailbox.Broker.System.{
  System, Command, request, has, remove, stats, shut_down, call, lookup_fails, terminates, told,
  step, run, mailbox_step, mailbox_run, seen,
}
use omni_mailbox.Broker.System.Lookup.{address-contains}
use omni_mailbox.Broker.System.Kept.{SystemIsValid}
use omni_mailbox.Broker.System.Calls.{call_agrees}
use omni_mailbox.Broker.System.Requests.{request_agrees}
use omni_mailbox.Broker.System.Changes.{request-IsValid}
use omni_mailbox.Broker.System.Removals.{
  remove_agrees, remove-IsValid, shutdown_agrees, shutdown-IsValid,
}

pub command_refines :
    (c : Command) (s : System)
    → SystemIsValid s
    → (((step c s).0, seen (step c s).1) ≡ mailbox_step c (seen s)) × SystemIsValid (step c s).1
unfolding step mailbox_step
command_refines (request allocation now name config) s v =
    (request_agrees s v now name config allocation, request-IsValid s v now name config allocation)
command_refines (has name) s v = (
  unfold has_channel in ap (λ t. (told t, seen s)) (sym (address-contains name s.broker.channels)),
  v,
)
command_refines (remove name) s v = (remove_agrees s v name, remove-IsValid s v name)
command_refines stats s v = (unfold get_stats in refl, v)
command_refines shut_down s v = (shutdown_agrees s v, shutdown-IsValid s v)
command_refines (call a x) s v = call_agrees s v x a
command_refines lookup_fails s v = (refl, v)

run-seen : (cs : List Command) (s : System) → SystemIsValid s → run cs s ≡ mailbox_run cs (seen s)
unfolding run mailbox_run
run-seen [] s v = refl
run-seen (c ∷ cs) s v =
    let (same, valid) = command_refines c s v in
    let rest = run-seen cs (step c s).1 valid ∙ ap (λ t. mailbox_run cs t.1) same in
    (λ i. (same i).0 ∷ (if terminates c then [] else rest i))

-- A broker that was just made, of which the program has no handle.
abbrev pub new_system : (ℕ → SpscQueue) → System
new_system store = record { broker = empty_broker store; handles = λ a. none }

pub new_system-IsValid : (store : ℕ → SpscQueue) → SystemIsValid (new_system store)
new_system-IsValid store = record {
  broker_valid = empty_broker-IsValid store;
  handles_usable = λ a h e. absurd (cc);
}

-- For any sequence of the calls `RequestChannel`, `HasChannel`, `RemoveChannel`, `GetStats` and
-- `Shutdown` on a new broker, and of `TryPush`, `BatchPush`, `TryPop`, `BatchPop` without a timeout
-- and the destructors on the handles that it handed out, each call as one step, with any allocation
-- in the `try` block of a request failing: the program gets the answers of bounded first-in
-- first-out queues under names, one for each channel, of which a call on a handle changes one alone;
-- a name can be requested when it is not registered, and removed when both flags of its queue are
-- down; `Shutdown` returns at once and closes the queues of the registered names. A call by name
-- whose lookup has no memory for the copy of the name ends the program, and is the last one answered.
pub system_refines :
    (cs : List Command) (store : ℕ → SpscQueue)
    → run cs (new_system store) ≡ mailbox_run cs (seen (new_system store))
system_refines cs store = run-seen cs (new_system store) (new_system-IsValid store)
