-- ===== src/Producer/Reservation.antt =====
-- `Reserve`, `Commit` and `Rollback`: the zero-copy protocol of the producer.
use native.Mathlib.Nat.{mod-lt}
use native.Mathlib.Decide.{ℕ_discrete}
use omni_mailbox.Base.{
  ◌⊎◌, inl, inr, Bool-cases, false, refl, ℕ, ◌+◌, ◌-◌, ◌*◌, ◌≤◌, ◌<◌, ◌≡◌, ◌≢◌, ap, ◌∙◌, ◌↔◌, true,
  Option, none, some, List, [], ◌∷◌, ◌++◌, length, arith,
}
use omni_mailbox.Base.Words.{u32, add_u64}
use omni_mailbox.Helpers.{
  is_valid_message_size, is_queue_full, get_payload_pointer, write_size_prefix, read_size_prefix,
  bytes_of_u32,
}
use omni_mailbox.Helpers.Bytes.{
  memcpy_to, memcpy_from, length-memcpy_to, memcpy_from-memcpy_to_after,
}
use omni_mailbox.Helpers.Prefix.{is_valid_message_size_iff, read-write_size_prefix}
use omni_mailbox.Helpers.Indices.{is_queue_full_iff, get_slot_index-mod}
use omni_mailbox.Producer.{has_value}
use omni_mailbox.Spsc.{SpscQueue}
use omni_mailbox.Spsc.Window.{SameOutside-memcpy_to, message_at}
use omni_mailbox.Spsc.Invariant.{
  IsValid, stored, contents, write_slot, capacity_pos, indices, slot_inside, get_slot_pointer-slot,
}
use omni_mailbox.Spsc.Window.{SameOutside}
use omni_mailbox.Spsc.Changes.{write_spare, publish}
use omni_mailbox.Producer.{Producer, ReserveResult, reserve}

-- The queue is valid, and a reservation that stands is for the slot that is published next, which
-- is free.
pub record ProducerIsValid (p : Producer) : Type 0 where
  pub queue_valid : IsValid p.queue
  pub reserved :
      (k : ℕ)
      → p.reserved_slot ≡ some k
      → (k ≡ write_slot p.queue) × (stored p.queue ≢ p.queue.capacity - 1)

-- Where the next message goes.
abbrev pub next_payload : SpscQueue → ℕ
next_payload q = write_slot q * q.slot_size + 4

-- The prefix of the next slot lies inside that slot, and so does a payload of valid size.
module _ (q : SpscQueue) (v : IsValid q) where
  open v use {message_high, slot_low}

  abbrev pub start : ℕ
  start = write_slot q * q.slot_size

  pub next_slot_inside : start + q.slot_size ≤ length q.buffer
  next_slot_inside = slot_inside q v (write_slot q) (mod-lt q.write_index (capacity_pos q v))

  -- A payload copied into the next slot leaves every stored message alone.
  pub fill_next :
      (m : List ℕ)
      → length m ≤ q.max_message_size
      → let q' = record q { buffer = memcpy_to q.buffer (next_payload q) m } in
        IsValid q' × (contents q' ≡ contents q)
  fill_next m small =
      write_spare q v (memcpy_to q.buffer (next_payload q) m) (length-memcpy_to q.buffer _ m) (
        SameOutside-memcpy_to q.buffer (next_payload q) start (start + q.slot_size) m (omega arith)
          (omega arith))

  pub prefix_outside :
      (n : ℕ)
      → SameOutside start (start + q.slot_size) q.buffer (write_size_prefix q.buffer start n)
  unfolding write_size_prefix
  prefix_outside n =
      SameOutside-memcpy_to q.buffer start start (start + q.slot_size) _ (omega arith) (omega arith)

  -- So does its prefix.
  pub prefix_next :
      (n : ℕ)
      → let q' = record q { buffer = write_size_prefix q.buffer start n } in
        IsValid q' × (contents q' ≡ contents q)
  prefix_next n =
      write_spare q v (write_size_prefix q.buffer start n)
        (unfold write_size_prefix in length-memcpy_to q.buffer _ _) (prefix_outside n)

  pub prefix_keeps_payload :
      (n : ℕ)
      → memcpy_from (write_size_prefix q.buffer start n) (next_payload q) n
        ≡ memcpy_from q.buffer (next_payload q) n
  unfolding write_size_prefix
  prefix_keeps_payload n =
      memcpy_from-memcpy_to_after q.buffer start (bytes_of_u32 (u32 n)) (next_payload q) n
        (omega arith)

  -- Prefix and index together publish the bytes that lie in the slot.
  pub publish_next :
      (n : ℕ)
      → stored q ≢ q.capacity - 1
      → 0 < n
      → n ≤ q.max_message_size
      → let q' = record q {
        buffer = write_size_prefix q.buffer start n;
        write_index = add_u64 q.write_index 1;
      } in
        IsValid q'
        × (stored q' ≡ stored q + 1)
        × (contents q' ≡ contents q ++ memcpy_from q.buffer (next_payload q) n ∷ [])
  publish_next n not_full pos small =
      let b = write_size_prefix q.buffer start n in
      let (valid, kept) = prefix_next n in
      let size : read_size_prefix b start ≡ n =
        read-write_size_prefix q.buffer start n (omega (arith, next_slot_inside)) (omega arith) in
      let (valid', more, appended) =
        publish (record q { buffer = b }) valid not_full (omega arith) (omega arith) in
      let payload = memcpy_from q.buffer (next_payload q) n in
      let held : message_at q.slot_size q.capacity b (write_slot q) ≡ payload =
        ap (memcpy_from b (next_payload q)) size ∙ prefix_keeps_payload n in
      (
        valid',
        more,
        appended
            ∙ ap (λ ms. ms ++ message_at q.slot_size q.capacity b (write_slot q) ∷ []) kept
            ∙ ap (λ m. contents q ++ m ∷ []) held,
      )

no_value : (slot : Option ℕ) → has_value slot ≡ false → slot ≡ none
no_value none e = refl
no_value (some k) e = absurd (ground arith)

-- What `Reserve` asks for.
pub record Accepts (bytes : ℕ) (p : Producer) : Type 0 where
  pub not_empty : 0 < bytes
  pub fits : bytes ≤ p.queue.max_message_size
  pub unreserved : p.reserved_slot ≡ none
  pub connected : p.queue.consumer_alive ≡ true
  pub has_room : stored p.queue ≢ p.queue.capacity - 1

module _ (p : Producer) (v : ProducerIsValid p) where
  pub valid_size :
      (n : ℕ)
      → (is_valid_message_size n p.queue.max_message_size ≡ true)
        ↔ ((0 < n) × (n ≤ p.queue.max_message_size))
  valid_size n =
      is_valid_message_size_iff n p.queue.max_message_size
        (omega (arith, v.queue_valid.message_high))

  pub full_iff :
      (is_queue_full p.queue.write_index p.queue.read_index p.queue.capacity ≡ true)
      ↔ (stored p.queue ≡ p.queue.capacity - 1)
  full_iff = is_queue_full_iff _ _ _ (indices p.queue v.queue_valid)

  -- Where `Reserve` hands out the next slot.
  abbrev pub reservation : Option ReserveResult × Producer
  reservation = (
    some (record { destination = next_payload p.queue; capacity = p.queue.max_message_size }),
    record p { reserved_slot = some (write_slot p.queue) },
  )

  pub reserve_of_Accepts : (bytes : ℕ) → Accepts bytes p → reserve bytes p ≡ reservation
  unfolding reserve get_payload_pointer
  reserve_of_Accepts bytes a = ground (
    arith,
    valid_size bytes,
    full_iff,
    get_slot_pointer-slot p.queue v.queue_valid p.queue.write_index,
    get_slot_index-mod p.queue.capacity v.queue_valid.power (omega arith) p.queue.write_index,
  )

  pub reserve_of_not-Accepts : (bytes : ℕ) → ¬ Accepts bytes p → reserve bytes p ≡ (none, p)
  unfolding reserve
  reserve_of_not-Accepts bytes a = ground (arith, valid_size bytes, full_iff, missing)
    where
      missing :
          0 < bytes
          → bytes ≤ p.queue.max_message_size
          → p.reserved_slot ≡ none
          → p.queue.consumer_alive ≡ true
          → stored p.queue ≢ p.queue.capacity - 1
          → ⊥
      missing e f u c r =
          a (record { not_empty = e; fits = f; unreserved = u; connected = c; has_room = r })

  decide_Accepts : (bytes : ℕ) → Dec (Accepts bytes p)
  decide_Accepts bytes = elim (Bool-cases (is_valid_message_size bytes p.queue.max_message_size)) [
    | inr bad ↦
        no (λ a. let good = (valid_size bytes).1 (a.not_empty, a.fits) in absurd (ground arith))
    | inl sized ↦ elim (Bool-cases (has_value p.reserved_slot)) [
      | inl taken ↦ no (λ a. let free = ap has_value a.unreserved in absurd (ground arith))
      | inr free ↦ elim (Bool-cases p.queue.consumer_alive) [
        | inr dead ↦ no (λ a. let alive = a.connected in absurd (ground arith))
        | inl alive ↦ elim (ℕ_discrete (stored p.queue) (p.queue.capacity - 1)) [
          | yes full ↦ no (λ a. a.has_room full)
          | no room ↦
              let (pos, small) = (valid_size bytes).0 sized in
              yes (record {
                not_empty = pos;
                fits = small;
                unreserved = no_value p.reserved_slot free;
                connected = alive;
                has_room = room;
              })
        ]
      ]
    ]
  ]

  -- On a valid handle `Reserve` hands out the payload of the slot that is published next, and
  -- records that slot, when the size is valid, nothing is reserved, the consumer lives and a slot
  -- is free. In every other case it returns nothing and changes nothing.
  pub reserve_lem :
      (bytes : ℕ)
      → (Accepts bytes p × (reserve bytes p ≡ reservation))
        ⊎ (¬ Accepts bytes p × (reserve bytes p ≡ (none, p)))
  reserve_lem bytes = elim (decide_Accepts bytes) [
    | yes a ↦ inl (a, reserve_of_Accepts bytes a)
    | no n ↦ inr (n, reserve_of_not-Accepts bytes n)
  ]
