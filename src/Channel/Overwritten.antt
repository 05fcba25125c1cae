-- ===== src/Channel/Overwritten.antt =====
-- How long the spans of `BatchPop` show their messages.
use native.Mathlib.Nat.{add-mod_right}
use omni_mailbox.Base.{
  ℕ, suc, length-map, length-append, ◌+◌, ◌-◌, ◌*◌, ◌%◌, ◌≤◌, ◌<◌, ◌≡◌, ◌≢◌, refl, sym, ap, ◌∙◌,
  true, none, List, ◌∷◌, length, arith,
}
use mathlib.Core.List.{map}
use omni_mailbox.Base.Words.{add_u64}
use omni_mailbox.Config.{PushResult}
use omni_mailbox.Helpers.Bytes.{memcpy_from, memcpy_from-memcpy_to_self}
use omni_mailbox.Helpers.Indices.{next-mod}
use omni_mailbox.Spsc.{SpscQueue}
use omni_mailbox.Spsc.Invariant.{IsValid, stored, contents, read_slot, indices}
use omni_mailbox.Producer.{Producer, try_push}
use omni_mailbox.Producer.Reservation.{
  ProducerIsValid, Accepts, next_payload, next_slot_inside, prefix_keeps_payload,
}
use omni_mailbox.Producer.Push.{
  pushed, try_push_accepted, pushed_lem, length-contents, filled, filled-IsValid,
}
use omni_mailbox.Consumer.{
  Consumer, Message, message_bytes, front_message, advance, drain, batch_pop,
}
use omni_mailbox.Consumer.Batch.{drain_lem, drain_more, batch_pop-suc, batch_result_some}
use omni_mailbox.Consumer.Pop.{front_message_lem}
use omni_mailbox.Blocking.{arrives}

-- The bytes of a push stand at the payload of the slot that was next.
pushed_payload :
    (p : Producer) (v : ProducerIsValid p) (m : List ℕ)
    → Accepts (length m) p
    → memcpy_from (pushed p m).queue.buffer (next_payload p.queue) (length m) ≡ m
pushed_payload p v m a =
    let (valid, kept) = filled-IsValid p v m a in
    prefix_keeps_payload (filled p m).queue valid.queue_valid (length m)
    ∙ memcpy_from-memcpy_to_self p.queue.buffer (next_payload p.queue) m
        (omega (arith, next_slot_inside p.queue v.queue_valid, v.queue_valid.slot_low, a.fits))

-- When a full queue was emptied and takes one message, its next slot is the one that was oldest.
oldest_again :
    (q : SpscQueue)
    → IsValid q
    → stored q ≡ q.capacity - 1
    → 0 < q.capacity
    → add_u64 q.write_index 1 % q.capacity ≡ read_slot q
oldest_again q v full pos =
    let turn : q.read_index + (stored q + 1) ≡ q.read_index + q.capacity = omega arith in
    next-mod q.capacity q.write_index q.read_index (indices q v)
    ∙ ap (λ (t : ℕ). t % q.capacity) turn
    ∙ add-mod_right q.read_index q.capacity

-- A batch that takes a whole full queue.
record Emptied (c : Consumer) (ms : List Message) (c' : Consumer) : Type 0 where
  rest : List Message
  front : ms ≡ front_message c.queue ∷ rest
  valid : IsValid c'.queue
  empty : stored c'.queue ≡ 0
  kept : c'.queue ≡ record c.queue { read_index = c'.queue.read_index }

batch_pop-Emptied :
    (n : ℕ) (c : Consumer)
    → IsValid c.queue
    → stored c.queue ≢ 0
    → stored c.queue ≤ suc n
    → Emptied c (batch_pop (suc n) c).1 (batch_pop (suc n) c).2
batch_pop-Emptied n c v some_left enough =
    let t = drain_lem (suc n) c v in
    let taken = front_message c.queue ∷ (drain n (advance c)).0 in
    let first = drain_more n c v some_left in
    let last_one = rw first at t in
    rw (batch_pop-suc n c, first, batch_result_some _ _ _ _)
      (record {
        rest = (drain n (advance c)).0;
        front = refl;
        valid = last_one.valid;
        empty = omega (
          arith,
          last_one.count,
          ap length last_one.bytes,
          length-append (map (message_bytes c.queue.buffer) taken)
              (contents (drain n (advance c)).1.queue),
          length-map (message_bytes c.queue.buffer) taken,
          length-contents c.queue,
          length-contents (drain n (advance c)).1.queue,
        );
        kept = last_one.kept;
      })

-- When `BatchPop` has taken all messages of a valid full queue of at least four slots, two pushes
-- of messages of a valid size, by a handle without a reservation while the consumer lives, succeed,
-- and the second one writes its message over the first span that was handed out.
pub overwritten_batch :
    (n : ℕ) (p : Producer) (c : Consumer) (m m' : List ℕ)
    → IsValid c.queue
    → stored c.queue ≡ c.queue.capacity - 1
    → 4 ≤ c.queue.capacity
    → c.queue.capacity ≤ suc n
    → c.queue.consumer_alive ≡ true
    → p.reserved_slot ≡ none
    → 0 < length m
    → length m ≤ c.queue.max_message_size
    → 0 < length m'
    → length m' ≤ c.queue.max_message_size
    → let (r, spans, c') = batch_pop (suc n) c in
      let (first, p') = try_push m (arrives c'.queue p) in
      let (second, p'') = try_push m' p' in
      (first ≡ PushResult.success)
      × (second ≡ PushResult.success)
      × (span : Message) × (rest : List Message) × (spans ≡ span ∷ rest)
      × (message_bytes p''.queue.buffer (record span { size = length m' }) ≡ m')
overwritten_batch n p c m m' v full large enough alive free pos small pos' small' =
    let e = batch_pop-Emptied n c v (omega (arith, full)) (omega arith) in
    let start = arrives (batch_pop (suc n) c).2.queue p in
    let same_capacity = ap (λ (q : SpscQueue). q.capacity) e.kept in
    let same_limit = ap (λ (q : SpscQueue). q.max_message_size) e.kept in
    let start_valid : ProducerIsValid start = record {
      queue_valid = e.valid;
      reserved = λ k e. cc;
    } in
    let a : Accepts (length m) start = record {
      not_empty = pos;
      fits = omega (arith, same_limit);
      unreserved = free;
      connected = ap (λ (q : SpscQueue). q.consumer_alive) e.kept ∙ alive;
      has_room = omega (arith, e.empty, same_capacity);
    } in
    let (next_valid, one) = pushed_lem start start_valid m a in
    let one_stored : stored (pushed start m).queue ≡ 1 =
      omega (arith, e.empty, e.valid.fits_w, e.valid.fits_r) in
    let a' : Accepts (length m') (pushed start m) = record {
      not_empty = pos';
      fits = omega (arith, same_limit);
      unreserved = refl;
      connected = a.connected;
      has_room = omega (arith, one_stored, same_capacity);
    } in
    let pushes = try_push_accepted start start_valid m a in
    let pushes' = try_push_accepted (pushed start m) next_valid m' a' in
    let place : (front_message c.queue).payload ≡ next_payload (pushed start m).queue =
      ap (λ (x : Message). x.payload) (front_message_lem c.queue v)
      ∙ ap (λ (k : ℕ). k * c.queue.slot_size + 4) (sym (oldest_again c.queue v full (omega arith)))
      ∙ sym
          (ap (λ (q : SpscQueue). add_u64 q.write_index 1 % q.capacity * q.slot_size + 4) e.kept) in
    rw (pushes, pushes')
      (
        refl,
        refl,
        front_message c.queue,
        e.rest,
        e.front,
        ap (λ (k : ℕ). memcpy_from (pushed (pushed start m) m').queue.buffer k (length m')) place
            ∙ pushed_payload (pushed start m) next_valid m' a',
      )
