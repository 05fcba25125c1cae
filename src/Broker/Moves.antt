-- ===== src/Broker/Moves.antt =====
-- The moves of the two handles, of src/producer_handle.cpp and src/consumer_handle.cpp: a handle
-- owns its `Impl` or, after a move, nothing. Both moves are defaulted, so they are those of
-- `std::unique_ptr`.
use omni_mailbox.Base.{
  ℕ, ◌≡◌, ◌≢◌, refl, sym, ◌∙◌, true, false, Option, none, some, eq→==, ≢→==, if◌then◌else◌, ◌||◌,
  arith,
}
use omni_mailbox.Spsc.{SpscQueue}
use omni_mailbox.Producer.{Producer, close_producer}
use omni_mailbox.Consumer.{Consumer, close_consumer}
use omni_mailbox.Broker.{Name, Broker, ChannelState, find, put, remove_channel, remove_entry}

-- `pimpl_` with the address of the queue that it shares.
pub record OwnedProducer : Type 0 where
  pub queue : ℕ
  pub impl : Producer

pub record OwnedConsumer : Type 0 where
  pub queue : ℕ
  pub impl : Consumer

-- The move constructor: the new handle, and what is left of the old one.
pub move_construct {ℓ} : {A : Type ℓ} → Option A → Option A × Option A
move_construct source = (source, none)

-- The move assignment: both handles after it. The `Impl` that the target owned is deleted, whose
-- destructor does nothing to the queue.
pub move_assign {ℓ} : {A : Type ℓ} → (target source : Option A) → Option A × Option A
move_assign target source = (source, none)

-- The destructors of the handles.
pub destroy_producer : Option OwnedProducer → Broker → Broker
destroy_producer none b = b
destroy_producer (some h) b = record b {
  store = put h.queue (close_producer (record h.impl { queue = b.store h.queue })) b.store;
}

pub destroy_consumer : Option OwnedConsumer → Broker → Broker
destroy_consumer none b = b
destroy_consumer (some h) b = record b {
  store = put h.queue (close_consumer (record h.impl { queue = b.store h.queue })) b.store;
}

module _ (name : Name) (s : ChannelState) (b : Broker) (e : find name b.channels ≡ some s) where
  -- What `RemoveChannel` answers over another store, by the flags of the queue.
  remove_by_flags :
      (store : ℕ → SpscQueue) (q : SpscQueue)
      → store s.queue ≡ q
      → (remove_channel name (record b { store = store })).0
        ≡ (if q.producer_alive || q.consumer_alive then false else true)
  unfolding remove_channel remove_entry
  remove_by_flags store q there = rw (e, there) (ground arith)

  -- The queue of the channel after destructors of its handles and of others.
  module _ (p p' : OwnedProducer) (c c' : OwnedConsumer) (own : p.queue ≡ s.queue)
      (own' : c.queue ≡ s.queue) (other : p'.queue ≢ s.queue) (other' : c'.queue ≢ s.queue) where
    consumer_gone :
        (destroy_consumer (some c) (destroy_producer (some p') b)).store s.queue
        ≡ record (b.store s.queue) { consumer_alive = false }
    unfolding destroy_consumer destroy_producer close_consumer
    consumer_gone =
        rw (own', eq→== s.queue s.queue refl, ≢→== s.queue p'.queue (λ h. other (sym h))) refl

    producer_gone :
        (destroy_consumer (some c') (destroy_producer (some p) b)).store s.queue
        ≡ record (b.store s.queue) { producer_alive = false }
    unfolding destroy_consumer destroy_producer close_producer
    producer_gone =
        rw (own, eq→== s.queue s.queue refl, ≢→== s.queue c'.queue (λ h. other' (sym h))) refl

    both_gone :
        (destroy_consumer (some c) (destroy_producer (some p') (destroy_producer (some p) b))).store
          s.queue
        ≡ record (b.store s.queue) { producer_alive = false; consumer_alive = false }
    unfolding destroy_consumer destroy_producer close_producer close_consumer
    both_gone =
        rw (own, own', eq→== s.queue s.queue refl, ≢→== s.queue p'.queue (λ h. other (sym h))) refl

-- When the producer's handle of a registered channel, whose flags are up, is assigned the handle of
-- another channel, the flag of its end is never lowered: after the destructors of both producers'
-- handles and of the channel's consumer, `RemoveChannel` still refuses the channel. So it does when
-- the consumer's handle is assigned another channel's. Had the producer's handle been moved out
-- before, and what it was moved to been destroyed, `RemoveChannel` would succeed.
pub assigned_over :
    (name : Name) (s : ChannelState) (b : Broker) (p p' : OwnedProducer) (c c' : OwnedConsumer)
    → find name b.channels ≡ some s
    → p.queue ≡ s.queue
    → c.queue ≡ s.queue
    → p'.queue ≢ s.queue
    → c'.queue ≢ s.queue
    → (b.store s.queue).producer_alive ≡ true
    → (b.store s.queue).consumer_alive ≡ true
    → let (target, source) = move_assign (some p) (some p') in
      let (taker, giver) = move_assign (some c) (some c') in
      let (kept, hollow) = move_construct (some p) in
      let (filled, emptied) = move_assign hollow (some p') in
      ((remove_channel name
          (destroy_consumer (some c) (destroy_producer source (destroy_producer target b)))).0
        ≡ false)
      × ((remove_channel name
            (destroy_consumer giver (destroy_consumer taker (destroy_producer (some p) b)))).0
          ≡ false)
      × ((remove_channel name (
            destroy_consumer
              (some c)
              (destroy_producer emptied (destroy_producer filled (destroy_producer kept b))))).0
          ≡ true)
unfolding move_construct move_assign destroy_producer destroy_consumer
assigned_over name s b p p' c c' e own own' other other' producer_up consumer_up = (
  remove_by_flags name s b e (destroy_consumer (some c) (destroy_producer (some p') b)).store _
        (consumer_gone name s b e p p' c c' own own' other other')
      ∙ rw producer_up refl,
  remove_by_flags name s b e (destroy_consumer (some c') (destroy_producer (some p) b)).store _
        (producer_gone name s b e p p' c c' own own' other other')
      ∙ rw consumer_up refl,
  remove_by_flags name s b e
        (destroy_consumer (some c) (destroy_producer (some p') (destroy_producer (some p) b))).store
        _ (both_gone name s b e p p' c c' own own' other other')
      ∙ refl,
)
