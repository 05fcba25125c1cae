-- ===== src/Tests/Systems.antt =====
-- A broker, two channels and calls on both.
use omni_mailbox.Base.{◌≡◌, refl, true, false, some, List, [], ◌∷◌}
use omni_mailbox.Config.{ChannelError, PushResult, PopResult, normalize}
use omni_mailbox.Fifo
use omni_mailbox.Channel.{push, pop, pushed, popped, fifo_step}
use omni_mailbox.Broker.{Name, Allocation, empty_broker, find, same_name}
use omni_mailbox.Broker.System.{
  Command, request, has, remove, shut_down, call, lookup_fails, terminated, step, System, requested,
  told, replied, done, no_handle, run, mailbox_step, mailbox_run, seen,
}
use omni_mailbox.Broker.System.Kept.{SystemIsValid}
use omni_mailbox.Broker.System.Reach.{Reachable, started, followed, Reachable-IsValid}
use omni_mailbox.Broker.System.Refine.{new_system, system_refines}
use omni_mailbox.Tests.Fixtures.{smallest, wrapped}

abbrev a_name : Name
a_name = 97 ∷ []

abbrev b_name : Name
b_name = 98 ∷ []

abbrev commands : List Command
commands =
    request Allocation.granted 5 a_name smallest
    ∷ request Allocation.granted 6 a_name smallest
    ∷ request Allocation.no_consumer 7 b_name smallest
    ∷ call 0 (push (1 ∷ 2 ∷ []))
    ∷ call 1 pop
    ∷ call 0 pop
    ∷ remove a_name
    ∷ shut_down
    ∷ remove a_name
    ∷ has b_name
    ∷ lookup_fails
    ∷ has b_name
    ∷ []

system_refines_example :
    run commands (new_system (λ a. wrapped))
    ≡ mailbox_run commands (seen (new_system (λ a. wrapped)))
system_refines_example = system_refines commands (λ a. wrapped)

-- A channel with a message, whose broker was shut down.
abbrev used : System
used =
    (step shut_down
      (step (call 0 (push (1 ∷ 2 ∷ [])))
        (step (request Allocation.granted 5 a_name smallest) (new_system (λ a. wrapped))).1).1).1

used-Reachable : Reachable used
used-Reachable = followed shut_down (
    followed (call 0 (push (1 ∷ 2 ∷ [])))
      (followed (request Allocation.granted 5 a_name smallest) (started (λ a. wrapped))))

Reachable-IsValid_example : SystemIsValid used
Reachable-IsValid_example = Reachable-IsValid used used-Reachable

-- What the program is told.
answers :
    mailbox_run commands (seen (new_system (λ a. wrapped)))
    ≡ requested ChannelError.success
      ∷ requested ChannelError.name_exists
      ∷ requested ChannelError.allocation_failed
      ∷ replied (pushed PushResult.success)
      ∷ no_handle
      ∷ replied (popped PopResult.success (some (1 ∷ 2 ∷ [])))
      ∷ told false
      ∷ done
      ∷ told true
      ∷ told true
      ∷ terminated
      ∷ []
unfolding mailbox_run mailbox_step fifo_step Fifo.push Fifo.pop Fifo.pop_items same_name normalize
    empty_broker find
answers = refl
