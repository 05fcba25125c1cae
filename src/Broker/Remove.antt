-- ===== src/Broker/Remove.antt =====
-- `RemoveChannel` and `Shutdown`.
use omni_mailbox.Base.{
  suc, ◌≡◌, ◌⊎◌, refl, sym, ap, ◌∙◌, Bool, true, false, Bool-cases, inl, inr, Option, none, some,
  length, arith, not, ◌&&◌,
}
use mathlib.Core.Option.{some-injective}
use omni_mailbox.Base.Words.{add_u64}
use omni_mailbox.Spsc.{SpscQueue}
use omni_mailbox.Spsc.Invariant.{IsValid}
use omni_mailbox.Broker.{
  Name, ChannelState, Broker, same_name, find, contains, erase, has_channel, remove_channel,
  remove_entry,
}
use omni_mailbox.Broker.Registry.{
  same_name-eq, length-erase, contains-erase_other, contains-erase_same, Distinct-erase,
  Below-erase, Every-erase,
}
use omni_mailbox.Broker.Invariant.{BrokerIsValid}

-- The name is registered, and both flags of its queue are down.
pub record Removable (name : Name) (b : Broker) : Type 0 where
  pub entry : ChannelState
  pub found : find name b.channels ≡ some entry
  pub no_producer : (b.store entry.queue).producer_alive ≡ false
  pub no_consumer : (b.store entry.queue).consumer_alive ≡ false

-- What a removal has done.
pub record Removed (name : Name) (b b' : Broker) : Type 0 where
  pub valid : BrokerIsValid b'
  pub names :
      (other : Name) → has_channel other b' ≡ (not (same_name name other) && has_channel other b)
  pub fewer : suc (length b'.channels) ≡ length b.channels
  pub store : b'.store ≡ b.store

module _ (name : Name) (b : Broker) (v : BrokerIsValid b) where
  -- The broker without the channel.
  abbrev erased : Broker
  erased = record b {
    channels = erase name b.channels;
    total_destroyed = add_u64 b.total_destroyed 1;
  }

  left :
      (other : Name)
      → contains other (erase name b.channels)
        ≡ (not (same_name name other) && contains other b.channels)
  left other = elim (Bool-cases (same_name name other)) [
    | inl same ↦
        rw (same, ← same_name-eq name other same) (contains-erase_same name b.channels v.distinct)
    | inr differs ↦ rw differs (contains-erase_other name other b.channels differs)
  ]

  removed : contains name b.channels ≡ true → Removed name b erased
  unfolding has_channel
  removed there =
      let fewer = length-erase name b.channels there in
      record {
        valid = record {
          distinct = Distinct-erase name b.channels v.distinct;
          below = Below-erase name b.next b.channels v.below;
          valid = Every-erase IsValid name b.store b.channels v.valid;
          counted = omega (arith, v.counted, fewer);
          fits = omega arith;
        };
        names = left;
        fewer = fewer;
        store = refl;
      }

  there : (s : ChannelState) → find name b.channels ≡ some s → contains name b.channels ≡ true
  unfolding contains
  there s e = rw e refl

  flag_up :
      (flag : SpscQueue → Bool) (s : ChannelState) (r : Removable name b)
      → find name b.channels ≡ some s
      → flag (b.store s.queue) ≡ true
      → flag (b.store r.entry.queue) ≡ true
  flag_up flag s r e up =
      ap (λ (t : ChannelState). flag (b.store t.queue)) (some-injective _ _ (sym r.found ∙ e)) ∙ up

  -- What the lookup decides.
  abbrev Outcome : Bool × Broker → Type 0
  Outcome x =
      (Removable name b × (x.0 ≡ true) × Removed name b x.1)
      ⊎ (¬ Removable name b × (x ≡ (false, b)))

  by_entry : (o : Option ChannelState) → find name b.channels ≡ o → Outcome (remove_entry name o b)
  unfolding remove_entry
  by_entry none e = inr (λ r. let f = r.found in absurd (ground arith), refl)
  by_entry (some s) e = elim (Bool-cases (b.store s.queue).producer_alive) [
    | inl alive ↦ rw alive (
        inr (
          λ r.
              let up = flag_up (λ q. q.producer_alive) s r e alive in
              let down = r.no_producer in absurd (ground arith),
          refl,
        ))
    | inr dead ↦ elim (Bool-cases (b.store s.queue).consumer_alive) [
      | inl alive ↦
          rw (dead, alive)
            (inr (
              λ r.
                  let up = flag_up (λ q. q.consumer_alive) s r e alive in
                  let down = r.no_consumer in absurd (ground arith),
              refl,
            ))
      | inr both ↦
          rw (dead, both)
            (inl (
              record { entry = s; found = e; no_producer = dead; no_consumer = both },
              refl,
              removed (there s e),
            ))
    ]
  ]

  -- On a valid broker `RemoveChannel` succeeds exactly when the name is registered and both flags
  -- of its queue are down. Then that name is gone, the other names and all queues are as they were,
  -- and the broker stays valid; otherwise it returns false and changes nothing.
  pub remove_channel_lem :
      (Removable name b
        × ((remove_channel name b).0 ≡ true)
        × Removed name b (remove_channel name b).1)
      ⊎ (¬ Removable name b × (remove_channel name b ≡ (false, b)))
  unfolding remove_channel
  remove_channel_lem = by_entry (find name b.channels) refl
