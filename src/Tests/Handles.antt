-- ===== src/Tests/Handles.antt =====
-- The handles and the channel on the small queue.
use omni_mailbox.Base.{◌⊎◌, ℕ, ◌≡◌, refl, true, List, [], ◌∷◌, ◌++◌, Option, none, some, arith}
use omni_mailbox.Fifo
use omni_mailbox.Fifo.{view}
use omni_mailbox.Spsc.Invariant.{IsValid, contents}
use omni_mailbox.Helpers.{is_valid_message_size, is_queue_full}
use omni_mailbox.Producer.{
  Producer, ReserveResult, reserve, commit, fill, fill_and_commit, try_push, batch_push,
}
use omni_mailbox.Producer.Reservation.{ProducerIsValid, Accepts, reserve_lem}
use omni_mailbox.Producer.Commit.{commit-fill-reserve}
use omni_mailbox.Producer.Push.{try_push_refines, try_push_counts}
use omni_mailbox.Producer.BatchPush.Result.{
  BatchPushed, batch_push_lem, batch_push_leaves_reservation,
}
use omni_mailbox.Consumer.{try_pop}
use omni_mailbox.Consumer.Pop.{popped_bytes, try_pop_refines}
use omni_mailbox.Channel.{Call, push, pop, pop_batch, end_producer, run, fifo_run}
use omni_mailbox.Channel.Refine.{run_refines}
use omni_mailbox.Tests.Fixtures.{
  idle, reserving, reader, channel, idle-IsValid, reserving-IsValid, wrapped-IsValid,
  channel-IsValid,
}

abbrev two : List (List ℕ)
two = (1 ∷ []) ∷ (2 ∷ 3 ∷ []) ∷ []

-- One message fits, the next does not; a dead producer is noticed once the queue is drained.
abbrev script : List Call
script = push (5 ∷ []) ∷ push (6 ∷ []) ∷ pop ∷ end_producer ∷ pop_batch 9 ∷ pop ∷ []

run_refines_example : run script channel ≡ fifo_run script (view channel.queue)
run_refines_example = run_refines script channel channel-IsValid

try_push_refines_example :
    let (r, p') = try_push (5 ∷ 6 ∷ []) idle in
    ((r, view p'.queue) ≡ Fifo.push (5 ∷ 6 ∷ []) (view idle.queue))
    × ProducerIsValid p'
    × (p'.reserved_slot ≡ none)
try_push_refines_example = try_push_refines idle (5 ∷ 6 ∷ []) idle-IsValid refl

try_push_counts_example :
    let (r, p') = try_push (5 ∷ 6 ∷ []) idle in
    (p'.messages_sent ≡ 3) × (p'.bytes_sent ≡ 5) × (p'.failed_pushes ≡ 0)
unfolding try_push is_valid_message_size reserve is_queue_full fill_and_commit commit
try_push_counts_example = try_push_counts idle (5 ∷ 6 ∷ []) idle-IsValid refl

try_pop_refines_example :
    let (r, m, c') = try_pop reader in
    ((r, popped_bytes c'.queue.buffer m, view c'.queue) ≡ Fifo.pop (view reader.queue))
    × IsValid c'.queue
try_pop_refines_example = try_pop_refines reader wrapped-IsValid

batch_push_lem_example : BatchPushed two idle (batch_push two idle).0 (batch_push two idle).1
batch_push_lem_example =
    batch_push_lem idle two wrapped-IsValid (omega arith) (omega arith) (omega arith) refl

batch_push_leaves_reservation_example :
    let p' = (batch_push ((1 ∷ []) ∷ []) reserving).1 in
    (p'.reserved_slot ≡ some 1) × ¬ ProducerIsValid p'
batch_push_leaves_reservation_example =
    batch_push_leaves_reservation reserving ((1 ∷ []) ∷ []) 1 reserving-IsValid (omega arith)
      (omega arith) refl (omega arith) refl (omega arith)

accepted : Accepts 3 idle
accepted = record {
  not_empty = omega arith;
  fits = omega arith;
  unreserved = refl;
  connected = refl;
  has_room = omega arith;
}

abbrev handed_out : Option ReserveResult × Producer
handed_out = (some (record { destination = 12; capacity = 4 }), reserving)

reserve_lem_example :
    (Accepts 3 idle × (reserve 3 idle ≡ handed_out))
    ⊎ (¬ Accepts 3 idle × (reserve 3 idle ≡ (none, idle)))
reserve_lem_example = reserve_lem idle idle-IsValid 3

commit-fill-reserve_example :
    let (place, p1) = reserve 3 idle in
    let (committed, p2) = commit 2 (fill 12 (5 ∷ 6 ∷ []) p1) in
    (place ≡ some (record { destination = 12; capacity = 4 }))
    × (committed ≡ true)
    × ProducerIsValid p2
    × (contents p2.queue ≡ contents idle.queue ++ (5 ∷ 6 ∷ []) ∷ [])
    × (p2.reserved_slot ≡ none)
commit-fill-reserve_example =
    commit-fill-reserve idle 3 (5 ∷ 6 ∷ []) idle-IsValid accepted (omega arith) (omega arith)
