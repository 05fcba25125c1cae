-- ===== src/Producer/BatchPush.antt =====
-- `BatchPush`: validation of the whole batch, then as many messages as fit.
pub mod Result
use omni_mailbox.Base.{
  ℕ, zero, suc, ◌+◌, ◌-◌, ◌*◌, ◌≤◌, ◌<◌, ◌^◌, ◌%◌, ◌≡◌, ◌≢◌, refl, sym, ap, ap₂, ◌∙◌, true, false,
  Bool-cases, inl, inr, ◌⊎◌, Option, none, some, List, [], ◌∷◌, ◌++◌, length, take, min, arith,
  append-nil, append_assoc, Bool, ◌==◌,
}
use native.Mathlib.Decide.{ℕ_discrete}
use omni_mailbox.Base.Words.{add_u64, u64}
use omni_mailbox.Helpers.{
  max_safe_message_size, is_valid_message_size, is_queue_full, write_size_prefix,
  get_payload_pointer,
}
use omni_mailbox.Helpers.Bytes.{
  memcpy_to, memcpy_from, memcpy_from-memcpy_to_before, memcpy_from-memcpy_to_self,
  length-memcpy_to,
}
use omni_mailbox.Helpers.Prefix.{is_valid_message_size_iff}
use omni_mailbox.Spsc.{SpscQueue}
use omni_mailbox.Spsc.Invariant.{
  IsValid, stored, contents, write_slot, get_slot_pointer-slot, indices,
}
use omni_mailbox.Helpers.Indices.{is_queue_full_iff, write-mod, mod-eq_turn}
use omni_mailbox.Producer.{Producer, Batch, all_valid, write_message, batch_loop, batch_push}
use omni_mailbox.Producer.Reservation.{
  ProducerIsValid, next_payload, next_slot_inside, publish_next, fill_next,
}

memcpy_to-nil : (b : List ℕ) (o : ℕ) → memcpy_to b o [] ≡ b
unfolding memcpy_to
memcpy_to-nil [] o = refl
memcpy_to-nil (b ∷ bs) zero = refl
memcpy_to-nil (b ∷ bs) (suc o) = ap (◌∷◌ b) (memcpy_to-nil bs o)

-- Two copies to different bytes may be made in either order.
memcpy_to_comm :
    (b : List ℕ) (o : ℕ) (xs ys : List ℕ) (o' : ℕ)
    → o + length xs ≤ o'
    → memcpy_to (memcpy_to b o xs) o' ys ≡ memcpy_to (memcpy_to b o' ys) o xs
unfolding memcpy_to
memcpy_to_comm b o [] ys o' h =
    ap (λ c. memcpy_to c o' ys) (memcpy_to-nil b o) ∙ sym (memcpy_to-nil (memcpy_to b o' ys) o)
memcpy_to_comm [] o (x ∷ xs) ys o' h = refl
memcpy_to_comm (b ∷ bs) zero (x ∷ xs) ys zero h = absurd (omega arith)
memcpy_to_comm (b ∷ bs) zero (x ∷ xs) ys (suc o') h =
    ap (◌∷◌ x) (memcpy_to_comm bs zero xs ys o' (omega arith))
memcpy_to_comm (b ∷ bs) (suc o) (x ∷ xs) ys zero h = absurd (omega arith)
memcpy_to_comm (b ∷ bs) (suc o) (x ∷ xs) ys (suc o') h =
    ap (◌∷◌ b) (memcpy_to_comm bs o (x ∷ xs) ys o' (omega arith))

-- The sizes that a batch may hold.
abbrev pub Sizes : ℕ → List (List ℕ) → Type 0
Sizes limit [] = Unit {0}
Sizes limit (m ∷ ms) = (0 < length m) × (length m ≤ limit) × Sizes limit ms

module _ (q : SpscQueue) (v : IsValid q) (m : List ℕ) where
  -- The queue after prefix, payload and index, with the payload written first.
  abbrev written : SpscQueue
  written = record q {
    buffer =
        write_size_prefix (memcpy_to q.buffer (next_payload q) m) (write_slot q * q.slot_size)
          (length m);
    write_index = add_u64 q.write_index 1;
  }

  write_message-written : write_message m q ≡ written
  unfolding write_message write_size_prefix get_payload_pointer
  write_message-written = rw (get_slot_pointer-slot q v) (
      ap (λ (b : List ℕ). record q { buffer = b; write_index = add_u64 q.write_index 1 })
        (memcpy_to_comm q.buffer (write_slot q * q.slot_size) _ m (next_payload q) (omega arith)))

  -- One round of the loop appends its message.
  pub write_message_lem :
      stored q ≢ q.capacity - 1
      → 0 < length m
      → length m ≤ q.max_message_size
      → IsValid (write_message m q)
        × (stored (write_message m q) ≡ stored q + 1)
        × (contents (write_message m q) ≡ contents q ++ m ∷ [])
  write_message_lem not_full pos small =
      let (valid, kept) = fill_next q v m small in
      let filled : SpscQueue = record q { buffer = memcpy_to q.buffer (next_payload q) m } in
      let copied =
        memcpy_from-memcpy_to_self q.buffer (next_payload q) m
          (omega (arith, next_slot_inside q v, v.slot_low)) in
      let (valid', more, appended) = publish_next filled valid (length m) not_full pos small in
      rw write_message-written (valid', more, appended ∙ ap₂ (λ xs x. xs ++ x ∷ []) kept copied)

-- The bytes of a batch.
abbrev pub total_size : List (List ℕ) → ℕ
total_size [] = 0
total_size (m ∷ ms) = length m + total_size ms

-- What a push leaves alone in the queue.
pub record SameShape (q q' : SpscQueue) : Type 0 where
  pub same_read : q'.read_index ≡ q.read_index
  pub same_capacity : q'.capacity ≡ q.capacity
  pub same_limit : q'.max_message_size ≡ q.max_message_size
  pub same_producer : q'.producer_alive ≡ q.producer_alive
  pub same_consumer : q'.consumer_alive ≡ q.consumer_alive

abbrev pub unchanged_shape : (q : SpscQueue) → SameShape q q
unchanged_shape q = record {
  same_read = refl;
  same_capacity = refl;
  same_limit = refl;
  same_producer = refl;
  same_consumer = refl;
}

pub SameShape_trans : {q q' q'' : SpscQueue} → SameShape q q' → SameShape q' q'' → SameShape q q''
SameShape_trans s t = record {
  same_read = t.same_read ∙ s.same_read;
  same_capacity = t.same_capacity ∙ s.same_capacity;
  same_limit = t.same_limit ∙ s.same_limit;
  same_producer = t.same_producer ∙ s.same_producer;
  same_consumer = t.same_consumer ∙ s.same_consumer;
}

write_message-SameShape : (m : List ℕ) (q : SpscQueue) → SameShape q (write_message m q)
unfolding write_message
write_message-SameShape m q = record {
  same_read = refl;
  same_capacity = refl;
  same_limit = refl;
  same_producer = refl;
  same_consumer = refl;
}

-- What the loop has done when it stops, started at `b`.
pub record Pushed (ms : List (List ℕ)) (b b' : Batch) : Type 0 where
  pub valid : IsValid b'.queue
  pub taken : ℕ
  pub shape : SameShape b.queue b'.queue
  pub more : stored b'.queue ≡ stored b.queue + taken
  pub count : taken ≡ min (length ms) (b.queue.capacity - 1 - stored b.queue)
  pub appended : contents b'.queue ≡ contents b.queue ++ take taken ms
  pub pushed : b'.pushed ≡ u64 (b.pushed + taken)
  pub bytes : b'.total_bytes ≡ u64 (b.total_bytes + total_size (take taken ms))

-- The state after one round.
abbrev round : List ℕ → Batch → Batch
round m b = record {
  queue = write_message m b.queue;
  pushed = add_u64 b.pushed 1;
  total_bytes = add_u64 b.total_bytes (length m);
}

batch_loop_full :
    (m : List ℕ) (ms : List (List ℕ)) (b : Batch)
    → IsValid b.queue
    → stored b.queue ≡ b.queue.capacity - 1
    → batch_loop (m ∷ ms) b ≡ b
unfolding batch_loop
batch_loop_full m ms b v e =
    let full = (is_queue_full_iff _ _ _ (indices b.queue v)).1 e in ground arith

batch_loop_more :
    (m : List ℕ) (ms : List (List ℕ)) (b : Batch)
    → IsValid b.queue
    → stored b.queue ≢ b.queue.capacity - 1
    → batch_loop (m ∷ ms) b ≡ batch_loop ms (round m b)
unfolding batch_loop
batch_loop_more m ms b v room = ground (arith, is_queue_full_iff _ _ _ (indices b.queue v))

pub batch_loop_lem :
    (ms : List (List ℕ)) (b : Batch)
    → IsValid b.queue
    → b.pushed < 2 ^ 64
    → b.total_bytes < 2 ^ 64
    → Sizes b.queue.max_message_size ms
    → Pushed ms b (batch_loop ms b)
batch_loop_lem [] b v fits fits' sizes =
    unfold batch_loop in
    record {
      valid = v;
      taken = 0;
      shape = unchanged_shape b.queue;
      more = omega arith;
      count = omega arith;
      appended = sym (append-nil (contents b.queue));
      pushed = omega arith;
      bytes = omega arith;
    }
batch_loop_lem (m ∷ ms) b v fits fits' (pos, small, sizes) =
    elim (ℕ_discrete (stored b.queue) (b.queue.capacity - 1)) [
      | yes e ↦ rw (batch_loop_full m ms b v e) (record {
        valid = v;
        taken = 0;
        shape = unchanged_shape b.queue;
        more = omega arith;
        count = omega arith;
        appended = sym (append-nil (contents b.queue));
        pushed = omega arith;
        bytes = omega arith;
      })
      | no room ↦
          let (valid, more, appended) = write_message_lem b.queue v m room pos small in
          let shape = write_message-SameShape m b.queue in
          let rest =
            batch_loop_lem ms (round m b) valid (omega arith) (omega arith)
              (rw shape.same_limit sizes) in
          rw (batch_loop_more m ms b v room) (record {
            valid = rest.valid;
            taken = suc rest.taken;
            shape = SameShape_trans shape rest.shape;
            more = omega (arith, rest.more, more);
            count = omega (arith, rest.count, shape.same_capacity, more, v.room);
            appended =
                rest.appended
                ∙ ap (λ xs. xs ++ take rest.taken ms) appended
                ∙ append_assoc (contents b.queue) (m ∷ []) (take rest.taken ms);
            pushed = omega (arith, rest.pushed);
            bytes = omega (arith, rest.bytes);
          })
    ]
