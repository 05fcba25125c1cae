-- ===== src/Producer/Commit.antt =====
-- `Commit`, `Rollback` and a whole zero-copy push.
use omni_mailbox.Base.{
  ℕ, ◌-◌, ◌*◌, ◌%◌, ◌≤◌, ◌<◌, ◌≡◌, ◌≢◌, refl, ap, ap₂, ◌∙◌, ◌⊎◌, true, false, none, some, List, [],
  ◌∷◌, ◌++◌, length, arith,
}
use native.Mathlib.Nat.{mod-mod}
use omni_mailbox.Base.Words.{add_u64}
use omni_mailbox.Helpers.{get_slot_pointer, write_size_prefix}
use omni_mailbox.Helpers.Bytes.{memcpy_from, memcpy_from-memcpy_to_self}
use omni_mailbox.Spsc.Invariant.{stored, contents, write_slot, get_slot_pointer-slot}
use omni_mailbox.Producer.{Producer, reserve, commit, rollback, fill}
use omni_mailbox.Producer.Reservation.{
  ProducerIsValid, Accepts, next_payload, fill_next, publish_next, next_slot_inside, valid_size,
  reserve_of_Accepts,
}

-- The handle after a `Commit` of `n` bytes that succeeds.
abbrev pub published : Producer → ℕ → Producer
published p n = record p {
  queue = record p.queue {
    buffer = write_size_prefix p.queue.buffer (write_slot p.queue * p.queue.slot_size) n;
    write_index = add_u64 p.queue.write_index 1;
  };
  messages_sent = add_u64 p.messages_sent 1;
  bytes_sent = add_u64 p.bytes_sent n;
  reserved_slot = none;
}

module _ (p : Producer) (v : ProducerIsValid p) where
  pointer_of_reserved :
      (k : ℕ)
      → k ≡ write_slot p.queue
      → get_slot_pointer k p.queue.capacity p.queue.slot_size
        ≡ write_slot p.queue * p.queue.slot_size
  pointer_of_reserved k e =
      get_slot_pointer-slot p.queue v.queue_valid k
      ∙ ap (λ (t : ℕ). t % p.queue.capacity * p.queue.slot_size) e
      ∙ ap (λ (t : ℕ). t * p.queue.slot_size) (mod-mod p.queue.write_index p.queue.capacity)

  pub commit-published :
      (k n : ℕ)
      → p.reserved_slot ≡ some k
      → 0 < n
      → n ≤ p.queue.max_message_size
      → commit n p ≡ (true, published p n)
  unfolding commit
  commit-published k n e pos small =
      ground (arith, valid_size p v n, v.reserved k, pointer_of_reserved k)

  -- On a valid handle with a reservation, and for a valid size, `Commit` publishes exactly the
  -- bytes that lie in the reserved slot, counts them, and ends the reservation; the handle stays
  -- valid.
  pub commit_reserved :
      (k n : ℕ)
      → p.reserved_slot ≡ some k
      → 0 < n
      → n ≤ p.queue.max_message_size
      → let (committed, p') = commit n p in
        (committed ≡ true)
        × ProducerIsValid p'
        × (contents p'.queue
            ≡ contents p.queue ++ memcpy_from p.queue.buffer (next_payload p.queue) n ∷ [])
        × (p'.reserved_slot ≡ none)
        × (p'.messages_sent ≡ add_u64 p.messages_sent 1)
        × (p'.bytes_sent ≡ add_u64 p.bytes_sent n)
  commit_reserved k n e pos small =
      let (_, not_full) = v.reserved k e in
      let (valid, _, appended) = publish_next p.queue v.queue_valid n not_full pos small in
      rw (commit-published k n e pos small)
        (refl, record { queue_valid = valid; reserved = λ j h. cc }, appended, refl, refl, refl)

  -- Without a reservation, or with a size out of range, it changes nothing.
  pub commit_refused :
      (n : ℕ)
      → (p.reserved_slot ≡ none) ⊎ (n ≡ 0) ⊎ (p.queue.max_message_size < n)
      → commit n p ≡ (false, p)
  unfolding commit
  commit_refused n h = ground (arith, valid_size p v n)

module _ (p : Producer) (v : ProducerIsValid p) where
  -- `Rollback` ends the reservation, and keeps the stored messages.
  pub rollback_lem :
      ProducerIsValid (rollback p)
      × ((rollback p).reserved_slot ≡ none)
      × (contents (rollback p).queue ≡ contents p.queue)
  unfolding rollback
  rollback_lem = (record { queue_valid = v.queue_valid; reserved = λ k e. cc }, refl, refl)

  -- What the caller of `Reserve` writes to the place that it was given, up to the largest size,
  -- keeps the reservation and every stored message.
  pub fill_reserved :
      (m : List ℕ)
      → length m ≤ p.queue.max_message_size
      → let p' = fill (next_payload p.queue) m p in
        ProducerIsValid p' × (contents p'.queue ≡ contents p.queue)
  fill_reserved m small =
      let (valid, kept) = fill_next p.queue v.queue_valid m small in
      (record { queue_valid = valid; reserved = v.reserved }, kept)

  pub reserved-IsValid :
      stored p.queue ≢ p.queue.capacity - 1
      → ProducerIsValid (record p { reserved_slot = some (write_slot p.queue) })
  reserved-IsValid not_full = record {
    queue_valid = v.queue_valid;
    reserved = λ k e. (cc, not_full);
  }

-- `Reserve`, a write of `m` to the place handed out, and `Commit` of its size: the message is
-- appended to the stored ones, for a valid handle on which `Reserve` succeeds and a valid size of
-- `m`, which need not be the one that was reserved.
pub commit-fill-reserve :
    (p : Producer) (bytes : ℕ) (m : List ℕ)
    → ProducerIsValid p
    → Accepts bytes p
    → 0 < length m
    → length m ≤ p.queue.max_message_size
    → let (place, p1) = reserve bytes p in
      let (committed, p2) = commit (length m) (fill (next_payload p.queue) m p1) in
      (place
        ≡ some (record { destination = next_payload p.queue; capacity = p.queue.max_message_size }))
      × (committed ≡ true)
      × ProducerIsValid p2
      × (contents p2.queue ≡ contents p.queue ++ m ∷ [])
      × (p2.reserved_slot ≡ none)
commit-fill-reserve p bytes m v a pos small =
    let p1 : Producer = record p { reserved_slot = some (write_slot p.queue) } in
    let v1 = reserved-IsValid p v a.has_room in
    let (v2, kept) = fill_reserved p1 v1 m small in
    let copied =
      memcpy_from-memcpy_to_self p.queue.buffer (next_payload p.queue) m
        (omega (arith, next_slot_inside p.queue v.queue_valid, v.queue_valid.slot_low)) in
    let (done, v3, appended, cleared, _, _) =
      commit_reserved (fill (next_payload p.queue) m p1) v2 (write_slot p.queue) (length m) refl pos
        small in
    rw (reserve_of_Accepts p v bytes a)
      (refl, done, v3, appended ∙ ap₂ (λ xs x. xs ++ x ∷ []) kept copied, cleared)
