-- ===== src/Producer/BatchPush/Result.antt =====
-- `BatchPush` as a whole: what it accepts, what it pushes and counts, and what it leaves of a
-- reservation.
use omni_mailbox.Base.{
  ℕ, ◌+◌, ◌-◌, ◌≤◌, ◌<◌, ◌^◌, ◌%◌, ◌≡◌, ◌≢◌, refl, sym, ap, ap₂, ◌∙◌, true, false, Bool-cases, inl,
  inr, ◌⊎◌, some, List, [], ◌∷◌, ◌++◌, length, take, min, arith, append-nil,
}
use native.Mathlib.Decide.{ℕ_discrete}
use omni_mailbox.Base.Words.{add_u64, u64}
use omni_mailbox.Helpers.{max_safe_message_size, is_valid_message_size}
use omni_mailbox.Helpers.Prefix.{is_valid_message_size_iff}
use omni_mailbox.Spsc.{SpscQueue}
use omni_mailbox.Spsc.Invariant.{IsValid, stored, contents, write_slot, indices}
use omni_mailbox.Helpers.Indices.{write-mod, mod-eq_turn}
use omni_mailbox.Producer.{Producer, Batch, all_valid, batch_loop, batch_push}
use omni_mailbox.Producer.Reservation.{ProducerIsValid}
use omni_mailbox.Producer.BatchPush.{Sizes, total_size, SameShape, unchanged_shape, batch_loop_lem}

pub all_valid→Sizes :
    (limit : ℕ) (ms : List (List ℕ))
    → limit ≤ max_safe_message_size
    → all_valid limit ms ≡ true
    → Sizes limit ms
unfolding all_valid
all_valid→Sizes limit [] h e = tt
all_valid→Sizes limit (m ∷ ms) h e = elim (Bool-cases (is_valid_message_size (length m) limit)) [
  | inl good ↦
      let (pos, small) = (is_valid_message_size_iff (length m) limit h).0 good in
      (pos, small, all_valid→Sizes limit ms h (rw good at e))
  | inr bad ↦ cc (rw bad at e)
]

Sizes→all_valid :
    (limit : ℕ) (ms : List (List ℕ))
    → limit ≤ max_safe_message_size
    → Sizes limit ms
    → all_valid limit ms ≡ true
unfolding all_valid
Sizes→all_valid limit [] h s = refl
Sizes→all_valid limit (m ∷ ms) h (pos, small, s) =
    rw ((is_valid_message_size_iff (length m) limit h).1 (pos, small))
      (Sizes→all_valid limit ms h s)

-- What a batch has done that was let through.
pub record BatchPushed (ms : List (List ℕ)) (p : Producer) (n : ℕ) (p' : Producer) : Type 0 where
  pub valid : IsValid p'.queue
  pub shape : SameShape p.queue p'.queue
  pub more : stored p'.queue ≡ stored p.queue + n
  pub count : n ≡ min (length ms) (p.queue.capacity - 1 - stored p.queue)
  pub appended : contents p'.queue ≡ contents p.queue ++ take n ms
  pub reservation : p'.reserved_slot ≡ p.reserved_slot
  pub sent : p'.messages_sent ≡ u64 (p.messages_sent + n)
  pub bytes : p'.bytes_sent ≡ u64 (p.bytes_sent + total_size (take n ms))

-- The loop as `BatchPush` starts it.
abbrev looped : Producer → List (List ℕ) → Batch
looped p ms = batch_loop ms (record { queue = p.queue; pushed = 0; total_bytes = 0 })

module _ (p : Producer) (m : List ℕ) (ms : List (List ℕ))
    (limit_fits : p.queue.max_message_size ≤ max_safe_message_size)
    (s : Sizes p.queue.max_message_size (m ∷ ms)) (alive : p.queue.consumer_alive ≡ true) where
  batch_push_none :
      (looped p (m ∷ ms)).pushed ≡ 0
      → batch_push (m ∷ ms) p ≡ (0, record p { queue = (looped p (m ∷ ms)).queue })
  unfolding batch_push
  batch_push_none e = ground (arith, Sizes→all_valid p.queue.max_message_size (m ∷ ms) limit_fits s)

  batch_push_some :
      (looped p (m ∷ ms)).pushed ≢ 0
      → batch_push (m ∷ ms) p ≡ (
        (looped p (m ∷ ms)).pushed,
        record p {
          queue = (looped p (m ∷ ms)).queue;
          messages_sent = add_u64 p.messages_sent (looped p (m ∷ ms)).pushed;
          bytes_sent = add_u64 p.bytes_sent (looped p (m ∷ ms)).total_bytes;
        },
      )
  unfolding batch_push
  batch_push_some e = ground (arith, Sizes→all_valid p.queue.max_message_size (m ∷ ms) limit_fits s)

-- `BatchPush` on a valid queue with a live consumer, counters that fit their words and a batch
-- whose sizes are all valid pushes the first messages of the batch, as many as fit, in order; it
-- returns their number, counts them and their bytes, and keeps the queue valid.
pub batch_push_lem :
    (p : Producer) (ms : List (List ℕ))
    → IsValid p.queue
    → p.messages_sent < 2 ^ 64
    → p.bytes_sent < 2 ^ 64
    → Sizes p.queue.max_message_size ms
    → p.queue.consumer_alive ≡ true
    → BatchPushed ms p (batch_push ms p).0 (batch_push ms p).1
batch_push_lem p [] v f g s alive =
    unfold batch_push in
    record {
      valid = v;
      shape = unchanged_shape p.queue;
      more = omega arith;
      count = omega arith;
      appended = sym (append-nil (contents p.queue));
      reservation = refl;
      sent = omega arith;
      bytes = omega arith;
    }
batch_push_lem p (m ∷ ms) v f g s alive =
    let fits : p.queue.max_message_size ≤ max_safe_message_size = omega (arith, v.message_high) in
    let l =
      batch_loop_lem (m ∷ ms) (record { queue = p.queue; pushed = 0; total_bytes = 0 }) v
        (omega arith) (omega arith) s in
    let small : l.taken < 2 ^ 64 = omega (arith, l.count, v.capacity_high) in
    elim (ℕ_discrete (looped p (m ∷ ms)).pushed 0) [
      | yes e ↦
          let nothing : l.taken ≡ 0 = omega (arith, l.pushed) in
          rw (batch_push_none p m ms fits s alive e) (record {
            valid = l.valid;
            shape = l.shape;
            more = omega (arith, l.more);
            count = omega (arith, l.count);
            appended = l.appended ∙ ap (λ k. contents p.queue ++ take k (m ∷ ms)) nothing;
            reservation = refl;
            sent = omega arith;
            bytes = omega arith;
          })
      | no ne ↦
          let number : l.taken ≡ (looped p (m ∷ ms)).pushed = omega (arith, l.pushed) in
          rw (batch_push_some p m ms fits s alive ne) (record {
            valid = l.valid;
            shape = l.shape;
            more = omega (arith, l.more);
            count = omega (arith, l.count);
            appended = l.appended ∙ ap (λ k. contents p.queue ++ take k (m ∷ ms)) number;
            reservation = refl;
            sent = refl;
            bytes = omega (arith, l.bytes, ap (λ k. total_size (take k (m ∷ ms))) number);
          })
    ]

-- A batch with a size out of range, or towards a dead consumer, changes nothing.
pub batch_push_refused :
    (p : Producer) (ms : List (List ℕ))
    → IsValid p.queue
    → ¬ Sizes p.queue.max_message_size ms ⊎ (p.queue.consumer_alive ≡ false)
    → batch_push ms p ≡ (0, p)
unfolding batch_push
batch_push_refused p [] v h = refl
batch_push_refused p (m ∷ ms) v h =
    ground (arith, all_valid→Sizes p.queue.max_message_size (m ∷ ms))

-- `BatchPush` does not look at the reservation: for a batch of at least one message with valid
-- sizes, on a valid handle with a reserved slot, a live consumer and counters that fit their words,
-- it leaves the reservation as it was, and the handle is no longer valid, since the reserved slot
-- is not the one that the next `Commit` publishes.
pub batch_push_leaves_reservation :
    (p : Producer) (ms : List (List ℕ)) (k : ℕ)
    → ProducerIsValid p
    → p.messages_sent < 2 ^ 64
    → p.bytes_sent < 2 ^ 64
    → p.reserved_slot ≡ some k
    → Sizes p.queue.max_message_size ms
    → p.queue.consumer_alive ≡ true
    → 0 < length ms
    → let p' = (batch_push ms p).1 in (p'.reserved_slot ≡ some k) × ¬ ProducerIsValid p'
batch_push_leaves_reservation p ms k v f g e s alive some_sent = (b.reservation ∙ e, moved)
  where
    b : BatchPushed ms p (batch_push ms p).0 (batch_push ms p).1
    b = batch_push_lem p ms v.queue_valid f g s alive

    n : ℕ
    n = (batch_push ms p).0

    q' : SpscQueue
    q' = (batch_push ms p).1.queue

    next : write_slot q' ≡ (p.queue.read_index + stored p.queue + n) % p.queue.capacity
    next =
        write-mod q'.capacity q'.write_index q'.read_index (indices q' b.valid)
        ∙ ap₂ ◌%◌ (omega (arith, b.shape.same_read, b.more)) b.shape.same_capacity

    moved : ¬ ProducerIsValid (batch_push ms p).1
    moved w =
        let (before, room) = v.reserved k e in
        let (after, _) = w.reserved k (b.reservation ∙ e) in
        let turn =
          mod-eq_turn (p.queue.read_index + stored p.queue) n p.queue.capacity
            (omega (arith, b.count, v.queue_valid.room)) (omega (arith, b.count))
            (sym next
              ∙ sym after
              ∙ before
              ∙ write-mod p.queue.capacity p.queue.write_index p.queue.read_index
                  (indices p.queue v.queue_valid)) in
        omega (arith, b.count, v.queue_valid.room)
