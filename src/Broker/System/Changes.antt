-- ===== src/Broker/System/Changes.antt =====
-- What a request, a removal and `Shutdown` leave of the broker and of the handles.
use mathlib.Core.Path.{subst}
use mathlib.Core.Option.{some-injective}
use omni_mailbox.Base.{
  ℕ, ◌<◌, ◌≤◌, ◌≡◌, refl, sym, ap, ◌∙◌, false, Bool-cases, inl, inr, none, ◌==◌, ==→eq, arith,
}
use omni_mailbox.Config.{ChannelConfig, normalize}
use omni_mailbox.Spsc.{SpscQueue}
use omni_mailbox.Broker.{
  Name, Broker, Allocation, put, contains, register, create, make_handles, request_channel,
}
use omni_mailbox.Broker.Registry.{put_same, put_other}
use omni_mailbox.Broker.Request.{granted_lem}
use omni_mailbox.Broker.Invariant.{
  BrokerIsValid, fresh_queue, fresh_pair, fresh_queue-IsValid, request_registered,
  request_unregistered, request_channel-IsValid,
}
use omni_mailbox.Broker.Opening.{fresh_channel, fresh_channel-IsValid}
use omni_mailbox.Broker.System.{System, request, step}
use omni_mailbox.Broker.System.Kept.{Usable, SystemIsValid, usable_over}
use omni_mailbox.Broker.System.Requests.{Usable-still}

-- A broker that left the queues of all handles alone.
abbrev Grown : Broker → Broker → Type 0
Grown b b' = (b.next ≤ b'.next) × ((a : ℕ) → a < b.next → b'.store a ≡ b.store a)

pub still_valid :
    (s : System) (v : SystemIsValid s) (b' : Broker)
    → BrokerIsValid b'
    → Grown s.broker b'
    → SystemIsValid (record { broker = b'; handles = s.handles })
still_valid s v b' valid (more, same) = record {
  broker_valid = valid;
  handles_usable = λ a h e. Usable-still s.broker b' a h more (same a) (v.handles_usable a h e);
}

module _ (s : System) (v : SystemIsValid s) where
  abbrev b : Broker
  b = s.broker

  module _ (now : ℕ) (name : Name) (config : ChannelConfig) where
    above :
        (q : SpscQueue) (store : ℕ → SpscQueue) (a : ℕ)
        → a < b.next
        → put b.next q store a ≡ store a
    above q store a h = put_other b.next a q store (omega arith)

    create-Grown :
        (allocation : Allocation) → Grown b (create allocation now name (normalize config) b).2
    unfolding create make_handles register
    create-Grown Allocation.no_queue = (omega arith, λ a h. refl)
    create-Grown Allocation.no_entry = (omega arith, λ a h. refl)
    create-Grown Allocation.no_producer = (omega arith, λ a h. above _ b.store a h)
    create-Grown Allocation.no_consumer =
        (omega arith, λ a h. above _ (put b.next _ b.store) a h ∙ above _ b.store a h)
    create-Grown Allocation.granted =
        (omega arith, λ a h. above _ (put b.next _ b.store) a h ∙ above _ b.store a h)

    fresh_pair-Usable :
        contains name b.channels ≡ false
        → Usable
            (request_channel Allocation.granted now name config b).2
            b.next
            (fresh_pair b.next config)
    unfolding register
    fresh_pair-Usable fresh =
        let store = (register now name (normalize config) b).store in
        rw (granted_lem now name config b fresh) (record {
          place = refl;
          below = omega arith;
          usable =
              usable_over (fresh_channel b.next config)
                (put b.next (fresh_queue config) store b.next) (fresh_channel-IsValid b.next config)
                (rw (put_same b.next (fresh_queue config) store) (fresh_queue-IsValid config));
        })

    abbrev Kept : Allocation → Type 0
    Kept allocation = SystemIsValid (step (request allocation now name config) s).1

    -- A request that hands out nothing.
    unhanded :
        (allocation : Allocation)
        → (request_channel allocation now name config b).1 ≡ none
        → Grown b (request_channel allocation now name config b).2
        → Kept allocation
    unfolding step
    unhanded allocation e grown = rw e (
        still_valid s v (request_channel allocation now name config b).2
          (request_channel-IsValid now name config b v.broker_valid allocation) grown)

    module _ (fresh : contains name b.channels ≡ false) where
      created :
          (allocation : Allocation)
          → request_channel allocation now name config b
            ≡ create allocation now name (normalize config) b
      created = request_unregistered now name config b fresh

      grown : (allocation : Allocation) → Grown b (request_channel allocation now name config b).2
      grown allocation = rw (created allocation) (create-Grown allocation)

      handed : Kept Allocation.granted
      unfolding step
      handed =
          let b' = (request_channel Allocation.granted now name config b).2 in
          let h = fresh_pair b.next config in
          let pair = ap (λ x. x.1) (granted_lem now name config b fresh) in
          let (more, same) = grown Allocation.granted in
          rw pair (record {
            broker_valid =
                request_channel-IsValid now name config b v.broker_valid Allocation.granted;
            handles_usable = λ a k e. elim (Bool-cases (a == b.next)) [
              | inl new ↦
                  subst (λ x. Usable b' x k) (sym (==→eq a b.next new))
                    (subst (Usable b' b.next) (some-injective _ _ (rw new at e))
                      (fresh_pair-Usable fresh))
              | inr old ↦ Usable-still b b' a k more (same a) (v.handles_usable a k (rw old at e))
            ];
          })

      by_allocation : (allocation : Allocation) → Kept allocation
      unfolding create make_handles
      by_allocation Allocation.granted = handed
      by_allocation Allocation.no_queue =
          unhanded Allocation.no_queue (ap (λ x. x.1) (created Allocation.no_queue))
            (grown Allocation.no_queue)
      by_allocation Allocation.no_entry =
          unhanded Allocation.no_entry (ap (λ x. x.1) (created Allocation.no_entry))
            (grown Allocation.no_entry)
      by_allocation Allocation.no_producer =
          unhanded Allocation.no_producer (ap (λ x. x.1) (created Allocation.no_producer))
            (grown Allocation.no_producer)
      by_allocation Allocation.no_consumer =
          unhanded Allocation.no_consumer (ap (λ x. x.1) (created Allocation.no_consumer))
            (grown Allocation.no_consumer)

    pub request-IsValid : (allocation : Allocation) → Kept allocation
    request-IsValid allocation = elim (Bool-cases (contains name b.channels)) [
      | inr fresh ↦ by_allocation fresh allocation
      | inl there ↦
          let e = request_registered now name config b there allocation in
          unhanded allocation (ap (λ x. x.1) e) (rw e (omega arith, λ a h. refl))
    ]
