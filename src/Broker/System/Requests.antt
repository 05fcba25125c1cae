-- ===== src/Broker/System/Requests.antt =====
-- A request for a channel, against the map of names.
use native.Mathlib.Numerals.{add-one}
use omni_mailbox.Base.{
  ℕ, ◌<◌, ◌≤◌, ◌≡◌, refl, sym, ap, ◌∙◌, Bool, true, false, Bool-cases, inl, inr, none, some, Option,
  if◌then◌else◌, ◌==◌, arith,
}
use omni_mailbox.Config.{ChannelError, ChannelConfig, normalize}
use omni_mailbox.Fifo.{Fifo, view}
use omni_mailbox.Spsc.{SpscQueue, spsc_queue}
use omni_mailbox.Producer.{open_producer, close_producer}
use omni_mailbox.Broker.{
  Name, Broker, ChannelPair, Allocation, put, same_name, find, contains, register, create,
  make_handles, request_channel,
}
use omni_mailbox.Broker.Registry.{put_same}
use omni_mailbox.Broker.Request.{channel_of, empty_fifo, granted_lem}
use omni_mailbox.Broker.Invariant.{
  fresh_queue, fresh_pair, request_registered, request_unregistered,
}
use omni_mailbox.Broker.System.{
  System, Mailboxes, request, requested, step, mailbox_step, hand_out, enrol, is_there, seen,
  address,
}
use omni_mailbox.Broker.System.Lookup.{address-contains}
use omni_mailbox.Broker.System.Kept.{Usable, SystemIsValid, usable_over, same_mailboxes, view-put}

-- A handle stays usable where the broker leaves its queue alone.
pub Usable-still :
    (b b' : Broker) (a : ℕ) (h : ChannelPair)
    → b.next ≤ b'.next
    → (a < b.next → b'.store a ≡ b.store a)
    → Usable b a h
    → Usable b' a h
Usable-still b b' a h more same u =
    let q = b'.store h.queue in
    let here : q ≡ b.store h.queue =
      ap b'.store u.place ∙ same u.below ∙ ap b.store (sym u.place) in
    record {
      place = u.place;
      below = omega (arith, u.below);
      usable = usable_over (channel_of b h) q u.usable (rw here u.usable.queue_valid);
    }

module _ (s : System) (v : SystemIsValid s) (now : ℕ) (name : Name) (config : ChannelConfig) where
  abbrev b : Broker
  b = s.broker

  abbrev enrolled : Broker
  enrolled = register now name (normalize config) b

  -- The broker with a new channel, as it is seen.
  seen-enrolled :
      (f : Fifo) (store : ℕ → SpscQueue) (handles : ℕ → Option ChannelPair) (opened : ℕ → Bool)
      → ((y : ℕ) → view (store y) ≡ (if y == b.next then f else view (b.store y)))
      → ((y : ℕ) → is_there (handles y) ≡ opened y)
      → seen (record { broker = record enrolled { store = store }; handles = handles })
        ≡ record (enrol name f (seen s)) { opened = opened }
  unfolding register find
  seen-enrolled f store handles opened boxes there =
      same_mailboxes
        (seen (record { broker = record enrolled { store = store }; handles = handles }))
        (record (enrol name f (seen s)) { opened = opened }) boxes there
        (λ n. elim (Bool-cases (same_name name n)) [
          | inl same ↦ rw same refl
          | inr other ↦ rw other refl
        ])
        (λ a. refl) refl (sym (add-one _)) refl

  new_view :
      view (spsc_queue (normalize config).capacity (normalize config).max_message_size)
      ≡ empty_fifo (normalize config)
  unfolding spsc_queue
  new_view = refl

  fresh_view : view (fresh_queue config) ≡ empty_fifo (normalize config)
  unfolding spsc_queue
  fresh_view = refl

  -- The store with the new queue, and with that queue written again.
  boxes_once :
      (y : ℕ)
      → view (enrolled.store y)
        ≡ (if y == b.next then empty_fifo (normalize config) else view (b.store y))
  unfolding register
  boxes_once y =
      view-put b.next _ b.store y ∙ ap (λ f. if y == b.next then f else view (b.store y)) new_view

  boxes_twice :
      (q : SpscQueue) (f : Fifo)
      → view q ≡ f
      → (y : ℕ)
      → view (put b.next q enrolled.store y) ≡ (if y == b.next then f else view (b.store y))
  boxes_twice q f e y = view-put b.next q enrolled.store y ∙ elim (Bool-cases (y == b.next)) [
    | inl same ↦ rw same e
    | inr other ↦ rw other (boxes_once y ∙ rw other refl)
  ]

  abbrev Agrees : Allocation → Type 0
  Agrees allocation =
      (
        (step (request allocation now name config) s).0,
        seen (step (request allocation now name config) s).1,
      )
      ≡ mailbox_step (request allocation now name config) (seen s)

  taken : contains name b.channels ≡ true → (allocation : Allocation) → Agrees allocation
  unfolding step mailbox_step
  taken there allocation =
      rw
        (
          request_registered now name config b there allocation,
          address-contains name b.channels,
          there,
        )
        refl

  module _ (fresh : contains name b.channels ≡ false) where
    free : is_there (address name b.channels) ≡ false
    free = address-contains name b.channels ∙ fresh

    failed :
        (allocation : Allocation) (b' : Broker) (m : Mailboxes)
        → request_channel allocation now name config b ≡ (ChannelError.allocation_failed, none, b')
        → mailbox_step (request allocation now name config) (seen s)
          ≡ (requested ChannelError.allocation_failed, m)
        → seen (record { broker = b'; handles = s.handles }) ≡ m
        → Agrees allocation
    unfolding step
    failed allocation b' m e spec same =
        rw e ((λ i. (requested ChannelError.allocation_failed, same i)) ∙ sym spec)

    created :
        (allocation : Allocation)
        → request_channel allocation now name config b
          ≡ create allocation now name (normalize config) b
    created = request_unregistered now name config b fresh

    granted : Agrees Allocation.granted
    unfolding step mailbox_step
    granted =
        rw (granted_lem now name config b fresh, free)
          (λ i. (
            requested ChannelError.success,
            seen-enrolled (empty_fifo (normalize config))
                (put b.next (fresh_queue config) enrolled.store)
                (hand_out (some (fresh_pair b.next config)) s.handles)
                (λ y. if y == b.next then true else is_there (s.handles y))
                (boxes_twice (fresh_queue config) (empty_fifo (normalize config)) fresh_view)
                (λ y. elim (Bool-cases (y == b.next)) [
                  | inl same ↦ rw same refl
                  | inr other ↦ rw other refl
                ])
                i,
          ))

    no_queue : Agrees Allocation.no_queue
    unfolding create mailbox_step
    no_queue =
        failed Allocation.no_queue b (seen s) (created Allocation.no_queue) (rw free refl) refl

    no_entry : Agrees Allocation.no_entry
    unfolding create mailbox_step
    no_entry =
        failed Allocation.no_entry b (seen s) (created Allocation.no_entry) (rw free refl) refl

    no_producer : Agrees Allocation.no_producer
    unfolding create make_handles mailbox_step
    no_producer =
        failed Allocation.no_producer enrolled (enrol name (empty_fifo (normalize config)) (seen s))
          (created Allocation.no_producer) (rw free refl)
          (seen-enrolled (empty_fifo (normalize config)) enrolled.store s.handles
            (λ y. is_there (s.handles y)) boxes_once (λ y. refl))

    -- The queue of which the producer's handle was made and destroyed again.
    abbrev orphan : SpscQueue
    orphan = close_producer (open_producer (enrolled.store b.next))

    orphan-view : view orphan ≡ record (empty_fifo (normalize config)) { producer_alive = false }
    unfolding close_producer open_producer register spsc_queue
    orphan-view =
        ap (λ (q : SpscQueue). view (record q { producer_alive = false }))
          (put_same b.next
            (spsc_queue (normalize config).capacity (normalize config).max_message_size) b.store)

    no_consumer : Agrees Allocation.no_consumer
    unfolding create make_handles mailbox_step
    no_consumer =
        let f = record (empty_fifo (normalize config)) { producer_alive = false } in
        failed Allocation.no_consumer (record enrolled { store = put b.next orphan enrolled.store })
          (enrol name f (seen s)) (created Allocation.no_consumer) (rw free refl)
          (seen-enrolled f (put b.next orphan enrolled.store) s.handles
            (λ y. is_there (s.handles y)) (boxes_twice orphan f orphan-view) (λ y. refl))

    by_allocation : (allocation : Allocation) → Agrees allocation
    by_allocation Allocation.granted = granted
    by_allocation Allocation.no_queue = no_queue
    by_allocation Allocation.no_entry = no_entry
    by_allocation Allocation.no_producer = no_producer
    by_allocation Allocation.no_consumer = no_consumer

  pub request_agrees : (allocation : Allocation) → Agrees allocation
  request_agrees allocation = elim (Bool-cases (contains name b.channels)) [
    | inl there ↦ taken there allocation
    | inr fresh ↦ by_allocation fresh allocation
  ]
