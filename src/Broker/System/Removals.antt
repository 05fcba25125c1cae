-- ===== src/Broker/System/Removals.antt =====
-- `RemoveChannel` and `Shutdown`, against the map of names.
use omni_mailbox.Base.{
  ℕ, ◌-◌, ◌<◌, ◌≤◌, ◌≡◌, refl, ap, ◌∙◌, true, false, Bool-cases, Option-cases, inl, inr, none, some,
  if◌then◌else◌, ◌==◌, ◌||◌, arith,
}
use omni_mailbox.Base.Words.{add_u64}
use omni_mailbox.Fifo.{view}
use omni_mailbox.Spsc.{SpscQueue}
use omni_mailbox.Spsc.Invariant.{IsValid, flags-IsValid}
use omni_mailbox.Broker.{
  Name, Broker, ChannelState, same_name, find, contains, erase, remove_channel, remove_entry,
  shutdown, stop_all,
}
use omni_mailbox.Broker.Registry.{length-erase}
use omni_mailbox.Broker.Request.{channel_of}
use omni_mailbox.Broker.Invariant.{BrokerIsValid}
use omni_mailbox.Broker.Remove.{remove_channel_lem}
use omni_mailbox.Broker.Shutdown.{shutdown_lem}
use omni_mailbox.Broker.System.{
  System, remove, shut_down, told, done, step, mailbox_step, seen, listed, closed,
}
use omni_mailbox.Broker.System.Lookup.{address-erase, listed-erase}
use omni_mailbox.Broker.System.Kept.{SystemIsValid, usable_over, same_mailboxes, stop_all-at}
use omni_mailbox.Broker.System.Changes.{still_valid}

module _ (s : System) (v : SystemIsValid s) where
  abbrev b : Broker
  b = s.broker

  module _ (name : Name) where
    remove-valid : BrokerIsValid (remove_channel name b).1
    remove-valid = elim (remove_channel_lem name b v.broker_valid) [
      | inl (_, _, r) ↦ r.valid
      | inr (_, e) ↦ rw e v.broker_valid
    ]

    remove-Grown :
        (o : Broker)
        → o.store ≡ b.store
        → o.next ≡ b.next
        → (b.next ≤ o.next) × ((a : ℕ) → a < b.next → o.store a ≡ b.store a)
    remove-Grown o store next = (omega arith, λ a h. ap (λ f. f a) store)

    -- What a removal leaves alone.
    untouched :
        ((remove_channel name b).1.store ≡ b.store) × ((remove_channel name b).1.next ≡ b.next)
    unfolding remove_channel remove_entry
    untouched = elim (Option-cases (find name b.channels)) [
      | inl e ↦ rw e (refl, refl)
      | inr (t, e) ↦
          rw e
            (elim (Bool-cases
              ((b.store t.queue).producer_alive || (b.store t.queue).consumer_alive)) [
                | inl up ↦ rw up (refl, refl)
                | inr down ↦ rw down (refl, refl)
              ])
    ]

    pub remove-IsValid : SystemIsValid (step (remove name) s).1
    unfolding step
    remove-IsValid =
        let (store, next) = untouched in
        still_valid s v (remove_channel name b).1 remove-valid
          (remove-Grown (remove_channel name b).1 store next)

    there : (t : ChannelState) → find name b.channels ≡ some t → contains name b.channels ≡ true
    unfolding contains
    there t e = rw e refl

    -- The map without the name.
    abbrev erased : Broker
    erased = record b {
      channels = erase name b.channels;
      total_destroyed = add_u64 b.total_destroyed 1;
    }

    gone :
        (t : ChannelState)
        → find name b.channels ≡ some t
        → seen (record s { broker = erased }) ≡ record (seen s) {
          address_of = λ x. if same_name name x then none else (seen s).address_of x;
          registered = λ x. if x == t.queue then false else (seen s).registered x;
          active = (seen s).active - 1;
        }
    gone t e =
        same_mailboxes (seen (record s { broker = erased }))
          (record (seen s) {
            address_of = λ x. if same_name name x then none else (seen s).address_of x;
            registered = λ x. if x == t.queue then false else (seen s).registered x;
            active = (seen s).active - 1;
          })
          (λ a. refl) (λ a. refl) (λ x. address-erase name x b.channels v.broker_valid.distinct)
          (λ a. listed-erase a name b.next b.channels t e v.broker_valid.below) refl
          (omega (arith, length-erase name b.channels (there t e))) refl

    abbrev Agrees : Type 0
    Agrees =
        ((step (remove name) s).0, seen (step (remove name) s).1)
        ≡ mailbox_step (remove name) (seen s)

    found : (t : ChannelState) → find name b.channels ≡ some t → Agrees
    unfolding step mailbox_step remove_channel remove_entry
    found t e =
        rw e
          (elim (Bool-cases
            ((b.store t.queue).producer_alive || (b.store t.queue).consumer_alive)) [
              | inl up ↦ rw up refl
              | inr down ↦ rw down (λ i. (told true, gone t e i))
            ])

    pub remove_agrees : Agrees
    unfolding step mailbox_step remove_channel remove_entry
    remove_agrees = elim (Option-cases (find name b.channels)) [
      | inl e ↦ rw e refl
      | inr (t, e) ↦ found t e
    ]

  -- `Shutdown`, as it is seen at an address.
  closed_at :
      (a : ℕ)
      → view (stop_all b.channels b.store a)
        ≡ (if listed a b.channels then closed (view (b.store a)) else view (b.store a))
  closed_at a =
      ap (λ (q : SpscQueue). view q) (stop_all-at b.channels b.store a)
      ∙ elim (Bool-cases (listed a b.channels)) [
        | inl mine ↦ rw mine refl
        | inr other ↦ rw other refl
      ]

  pub shutdown_agrees :
      ((step shut_down s).0, seen (step shut_down s).1) ≡ mailbox_step shut_down (seen s)
  unfolding step mailbox_step shutdown
  shutdown_agrees = λ i. (
    done,
    same_mailboxes (seen (record s { broker = shutdown b }))
        (record (seen s) {
          boxes = λ a. if listed a b.channels then closed (view (b.store a)) else view (b.store a);
        })
        closed_at (λ a. refl) (λ n. refl) (λ a. refl) refl refl refl i,
  )

  stopped-IsValid : (a : ℕ) → IsValid (b.store a) → IsValid (stop_all b.channels b.store a)
  stopped-IsValid a valid =
      rw (stop_all-at b.channels b.store a) (elim (Bool-cases (listed a b.channels)) [
        | inl mine ↦ rw mine (flags-IsValid (b.store a) valid false false)
        | inr other ↦ rw other valid
      ])

  pub shutdown-IsValid : SystemIsValid (step shut_down s).1
  unfolding step shutdown
  shutdown-IsValid = record {
    broker_valid = (shutdown_lem b v.broker_valid).0;
    handles_usable = λ a h e.
        let u = v.handles_usable a h e in
        record {
          place = u.place;
          below = u.below;
          usable =
              usable_over (channel_of b h) (stop_all b.channels b.store h.queue) u.usable
                (stopped-IsValid h.queue u.usable.queue_valid);
        };
  }
