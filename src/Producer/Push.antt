-- ===== src/Producer/Push.antt =====
-- `TryPush` against `Fifo.push`.
use omni_mailbox.Base.{
  ℕ, ◌-◌, ◌≡◌, refl, ap, ap₂, ◌∙◌, ◌⊎◌, inl, inr, if◌then◌else◌, Bool, true, false, none, some,
  List, [], ◌∷◌, ◌++◌, length, arith, Bool-cases,
}
use native.Mathlib.Decide.{ℕ_discrete}
use omni_mailbox.Base.Words.{add_u64}
use omni_mailbox.Config.{PushResult}
use omni_mailbox.Fifo
use omni_mailbox.Fifo.{Fifo, view, admits}
use omni_mailbox.Helpers.{is_valid_message_size}
use omni_mailbox.Helpers.Bytes.{memcpy_from-memcpy_to_self}
use omni_mailbox.Spsc.{SpscQueue}
use omni_mailbox.Spsc.Window.{length-window}
use omni_mailbox.Spsc.Invariant.{stored, contents, write_slot}
use omni_mailbox.Producer.{Producer, fill, fill_and_commit, try_push, count_failure}
use omni_mailbox.Producer.Reservation.{
  ProducerIsValid, Accepts, next_payload, valid_size, reserve_of_Accepts, reserve_of_not-Accepts,
  next_slot_inside, publish_next,
}
use omni_mailbox.Producer.Commit.{published, commit-published, reserved-IsValid, fill_reserved}

-- The number of stored messages is the number that the indices give.
pub length-contents : (q : SpscQueue) → length (contents q) ≡ stored q
length-contents q = length-window q.slot_size q.capacity q.buffer (stored q) q.read_index

-- The handle after `Reserve` and the copy, and after a push that succeeds.
abbrev pub filled : Producer → List ℕ → Producer
filled p m = fill (next_payload p.queue) m (record p { reserved_slot = some (write_slot p.queue) })

abbrev pub pushed : Producer → List ℕ → Producer
pushed p m = published (filled p m) (length m)

module _ (p : Producer) (v : ProducerIsValid p) (m : List ℕ) where
  module _ (a : Accepts (length m) p) where
    pub filled-IsValid :
        ProducerIsValid (filled p m) × (contents (filled p m).queue ≡ contents p.queue)
    filled-IsValid =
        fill_reserved (record p { reserved_slot = some (write_slot p.queue) })
          (reserved-IsValid p v a.has_room) m a.fits

    pub fill_and_commit_lem :
        fill_and_commit
          (next_payload p.queue)
          m
          (record p { reserved_slot = some (write_slot p.queue) })
        ≡ (PushResult.success, pushed p m)
    unfolding fill_and_commit
    fill_and_commit_lem = rw (
        commit-published (filled p m) filled-IsValid.0 (write_slot p.queue) (length m) refl
          a.not_empty a.fits)

    pub try_push_accepted : try_push m p ≡ (PushResult.success, pushed p m)
    unfolding try_push
    try_push_accepted =
        ground (
          arith,
          valid_size p v (length m),
          reserve_of_Accepts p v (length m) a,
          fill_and_commit_lem,
        )

    pub pushed_lem :
        ProducerIsValid (pushed p m) × (contents (pushed p m).queue ≡ contents p.queue ++ m ∷ [])
    pushed_lem =
        let (valid, kept) = filled-IsValid in
        let copied =
          memcpy_from-memcpy_to_self p.queue.buffer (next_payload p.queue) m (
            omega
              (arith, next_slot_inside p.queue v.queue_valid, v.queue_valid.slot_low, a.fits)) in
        let (valid', _, appended) =
          publish_next (filled p m).queue valid.queue_valid (length m) a.has_room a.not_empty
            a.fits in
        (
          record { queue_valid = valid'; reserved = λ k e. cc },
          appended ∙ ap₂ (λ xs x. xs ++ x ∷ []) kept copied,
        )

    pub fifo_accepts :
        Fifo.push m (view p.queue)
        ≡ (PushResult.success, record (view p.queue) { items = contents p.queue ++ m ∷ [] })
    unfolding Fifo.push
    fifo_accepts = ground (arith, a, length-contents p.queue)

  -- The ways in which a push without a reservation fails.
  data Refused : Type 0 where
    invalid :
        try_push m p ≡ (PushResult.invalid_size, p)
        → Fifo.push m (view p.queue) ≡ (PushResult.invalid_size, view p.queue)
        → Refused
    closed :
        try_push m p ≡ (PushResult.channel_closed, count_failure p)
        → Fifo.push m (view p.queue) ≡ (PushResult.channel_closed, view p.queue)
        → Refused
    full :
        try_push m p ≡ (PushResult.queue_full, count_failure p)
        → Fifo.push m (view p.queue) ≡ (PushResult.queue_full, view p.queue)
        → Refused

  refused_invalid : is_valid_message_size (length m) p.queue.max_message_size ≡ false → Refused
  unfolding try_push Fifo.push
  refused_invalid e = invalid (rw e) (ground (arith, valid_size p v (length m)))

  module _ (sized : is_valid_message_size (length m) p.queue.max_message_size ≡ true) where
    refused_closed : p.queue.consumer_alive ≡ false → Refused
    unfolding try_push Fifo.push
    refused_closed dead = closed (rw (sized, dead)) (ground (arith, valid_size p v (length m)))

    refused_full :
        p.queue.consumer_alive ≡ true
        → p.reserved_slot ≡ none
        → stored p.queue ≡ p.queue.capacity - 1
        → Refused
    unfolding try_push Fifo.push
    refused_full alive free e =
        full (ground (arith, reserve_of_not-Accepts p v (length m) (λ a. a.has_room e)))
          (ground (arith, valid_size p v (length m), length-contents p.queue))

  push_cases : p.reserved_slot ≡ none → Accepts (length m) p ⊎ Refused
  push_cases free = elim (Bool-cases (is_valid_message_size (length m) p.queue.max_message_size)) [
    | inr bad ↦ inr (refused_invalid bad)
    | inl sized ↦ elim (Bool-cases p.queue.consumer_alive) [
      | inr dead ↦ inr (refused_closed sized dead)
      | inl alive ↦ elim (ℕ_discrete (stored p.queue) (p.queue.capacity - 1)) [
        | yes e ↦ inr (refused_full sized alive free e)
        | no room ↦
            let (pos, small) = (valid_size p v (length m)).0 sized in
            inl (record {
              not_empty = pos;
              fits = small;
              unreserved = free;
              connected = alive;
              has_room = room;
            })
      ]
    ]
  ]

-- On a valid handle without a reservation, `TryPush` returns the code of `Fifo.push` and leaves the
-- queue holding what `Fifo.push` leaves, on every branch; the handle stays valid and without a
-- reservation.
pub try_push_refines :
    (p : Producer) (m : List ℕ)
    → ProducerIsValid p
    → p.reserved_slot ≡ none
    → let (r, p') = try_push m p in
      ((r, view p'.queue) ≡ Fifo.push m (view p.queue))
      × ProducerIsValid p'
      × (p'.reserved_slot ≡ none)
try_push_refines p m v free = elim (push_cases p v m free) [
  | inl a ↦
      let (valid, appended) = pushed_lem p v m a in
      rw (try_push_accepted p v m a, fifo_accepts p v m a)
        (
          ap (λ xs. (PushResult.success, record (view p.queue) { items = xs })) appended,
          valid,
          refl,
        )
  | inr (invalid e f) ↦ rw (e, f) (refl, v, free)
  | inr (closed e f) ↦
      rw (e, f) (refl, record { queue_valid = v.queue_valid; reserved = v.reserved }, free)
  | inr (full e f) ↦
      rw (e, f) (refl, record { queue_valid = v.queue_valid; reserved = v.reserved }, free)
]

abbrev pub succeeded : PushResult → Bool
succeeded PushResult.success = true
succeeded _ = false

-- The codes that `TryPush` counts as failures: not the invalid size.
abbrev pub counted_failure : PushResult → Bool
counted_failure PushResult.channel_closed = true
counted_failure PushResult.queue_full = true
counted_failure _ = false

-- On a valid handle without a reservation `TryPush` counts a message and its bytes exactly when it
-- succeeds, and a failure exactly when it returns `ChannelClosed` or `QueueFull`.
pub try_push_counts :
    (p : Producer) (m : List ℕ)
    → ProducerIsValid p
    → p.reserved_slot ≡ none
    → let (r, p') = try_push m p in
      (p'.messages_sent ≡ (if succeeded r then add_u64 p.messages_sent 1 else p.messages_sent))
      × (p'.bytes_sent ≡ (if succeeded r then add_u64 p.bytes_sent (length m) else p.bytes_sent))
      × (p'.failed_pushes
          ≡ (if counted_failure r then add_u64 p.failed_pushes 1 else p.failed_pushes))
try_push_counts p m v free = elim (push_cases p v m free) [
  | inl a ↦ rw (try_push_accepted p v m a) (refl, refl, refl)
  | inr (invalid e _) ↦ rw e (refl, refl, refl)
  | inr (closed e _) ↦ rw e (refl, refl, refl)
  | inr (full e _) ↦ rw e (refl, refl, refl)
]
