-- ===== src/Broker/Request.antt =====
-- What `RequestChannel` returns: the new channel, and what a failed allocation leaves behind.
use mathlib.Core.Path.{subst}
use omni_mailbox.Base.{
  ◌<◌, ≢→==, Bool, if◌then◌else◌, ℕ, suc, ◌-◌, ◌≡◌, ◌≢◌, ◌⊎◌, refl, ap, ◌∙◌, true, false,
  Bool-cases, inl, inr, Option, none, some, [], eq→==, arith, ◌||◌,
}
use omni_mailbox.Config.{ChannelError, ChannelConfig, normalize, is_valid}
use omni_mailbox.Config.Normal.{normalize_settles}
use omni_mailbox.Fifo.{Fifo, view}
use omni_mailbox.Spsc.{spsc_queue}
use omni_mailbox.Producer.{open_producer, close_producer}
use omni_mailbox.Consumer.{open_consumer}
use omni_mailbox.Channel.{Channel}
use omni_mailbox.Channel.Refine.{ChannelIsValid}
use omni_mailbox.Broker.{
  Name, ChannelState, Broker, ChannelPair, Allocation, put, same_name, find, contains, register,
  make_handles, create, request_channel, request_or_terminate, has_channel, remove_channel,
  remove_entry, get_stats,
}
use omni_mailbox.Broker.Registry.{put_same, same_name_refl, Below-find}
use omni_mailbox.Broker.Invariant.{
  fresh_queue, fresh_pair, fresh_queue-IsValid, request_registered, request_unregistered,
  BrokerIsValid, request_channel-IsValid,
}

-- A pair of handles over the queue that they share.
abbrev pub channel_of : Broker → ChannelPair → Channel
channel_of b h = record { queue = b.store h.queue; producer = h.producer; consumer = h.consumer }

-- The bounded queue that a new channel is.
abbrev pub empty_fifo : ChannelConfig → Fifo
empty_fifo config = record {
  items = [];
  room = config.capacity - 1;
  limit = config.max_message_size;
  producer_alive = true;
  consumer_alive = true;
}

-- What a request that succeeds has done. Its queue lies where no channel of the broker has its own,
-- and the next request has another.
pub record Requested (now : ℕ) (name : Name) (config : ChannelConfig) (b : Broker)
    (e : ChannelError) (h : Option ChannelPair) (b' : Broker) : Type 0 where
  pub code : e ≡ ChannelError.success
  pub pair : ChannelPair
  pub returned : h ≡ some pair
  pub apart :
      (other : Name) (s : ChannelState) → find other b.channels ≡ some s → s.queue < pair.queue
  pub next_apart : pair.queue < b'.next
  pub entry :
      find name b'.channels ≡ some (record { queue = pair.queue; name = name; created_at = now })
  pub others : (a : ℕ) → a ≢ pair.queue → b'.store a ≡ b.store a
  pub valid : BrokerIsValid b'
  pub usable : ChannelIsValid (channel_of b' pair)
  pub empty : view (b'.store pair.queue) ≡ empty_fifo (normalize config)
  pub names : (other : Name) → has_channel other b' ≡ (same_name name other || has_channel other b)
  pub more : (get_stats b').active_channels ≡ suc (get_stats b).active_channels

module _ (now : ℕ) (name : Name) (config : ChannelConfig) (b : Broker) where
  pub granted_lem :
      contains name b.channels ≡ false
      → request_channel Allocation.granted now name config b ≡ (
        ChannelError.success,
        some (fresh_pair b.next config),
        record (register now name (normalize config) b) {
          store = put b.next (fresh_queue config) (register now name (normalize config) b).store;
        },
      )
  unfolding create make_handles register open_producer open_consumer
  granted_lem fresh =
      request_unregistered now name config b fresh Allocation.granted
      ∙ rw (eq→== b.next b.next refl) refl

  fresh_view : view (fresh_queue config) ≡ empty_fifo (normalize config)
  unfolding spsc_queue
  fresh_view = refl

  -- With memory for it, a request of a valid broker for a name that is not registered returns a pair
  -- of handles over a valid queue, which is an empty channel of the normalised sizes with both ends
  -- alive. The queue is none of a registered channel, nor will be that of the next request; every
  -- other queue is left as it was. The entry of the name has that queue, no other name is
  -- registered, there is one more channel, and the broker stays valid.
  pub request_granted :
      BrokerIsValid b
      → has_channel name b ≡ false
      → let (e, h, b') = request_channel Allocation.granted now name config b in
        Requested now name config b e h b'
  unfolding has_channel contains get_stats find
  request_granted v fresh =
      let kept = request_channel-IsValid now name config b v Allocation.granted in
      let same_queue =
        put_same b.next (fresh_queue config) (register now name (normalize config) b).store in
      rw (granted_lem fresh) (
        unfold register open_producer open_consumer in
        record {
          code = refl;
          pair = fresh_pair b.next config;
          returned = refl;
          apart = λ other s found. Below-find other b.next b.channels s found v.below;
          next_apart = omega arith;
          entry = rw (same_name_refl name) refl;
          others = λ a ne. rw (≢→== a b.next ne) refl;
          valid = subst (λ t. BrokerIsValid t.2) (granted_lem fresh) kept;
          usable = record {
            queue_valid = rw same_queue (fresh_queue-IsValid config);
            unreserved = refl;
            sent_fits = omega arith;
            bytes_fit = omega arith;
          };
          empty = ap view same_queue ∙ fresh_view;
          names = λ other. elim (Bool-cases (same_name name other)) [
            | inl same ↦ rw same refl
            | inr differs ↦ rw differs refl
          ];
          more = refl;
        })

  accepted_config : is_valid (normalize config) ≡ true
  accepted_config = (normalize_settles config).0

  create_code :
      (allocation : Allocation)
      → ((create allocation now name (normalize config) b).0 ≢ ChannelError.name_exists)
        × ((create allocation now name (normalize config) b).0 ≢ ChannelError.invalid_config)
  unfolding create make_handles
  create_code Allocation.granted = (ground arith, ground arith)
  create_code Allocation.no_queue = (ground arith, ground arith)
  create_code Allocation.no_entry = (ground arith, ground arith)
  create_code Allocation.no_producer = (ground arith, ground arith)
  create_code Allocation.no_consumer = (ground arith, ground arith)

  -- A request that has no memory for the copy of the name that it looks up terminates the program.
  -- Any other returns, whichever allocation of its `try` block fails: for a registered name it
  -- returns `NameExists` and changes nothing, for another name it returns another code; it never
  -- returns `InvalidConfig`.
  pub request_refused :
      (copied : Bool) (allocation : Allocation)
      → let (e, h, b') = request_channel allocation now name config b in
        (request_or_terminate copied allocation now name config b
          ≡ (if copied then some (e, h, b') else none))
        × (((has_channel name b ≡ true) × (e ≡ ChannelError.name_exists) × (h ≡ none) × (b' ≡ b))
            ⊎ ((has_channel name b ≡ false) × (e ≢ ChannelError.name_exists)))
        × (e ≢ ChannelError.invalid_config)
  unfolding has_channel
  request_refused copied allocation =
      let ends : request_or_terminate copied allocation now name config b
          ≡ (if copied then some (request_channel allocation now name config b) else none) =
        unfold request_or_terminate in rw accepted_config refl in
      elim (Bool-cases (contains name b.channels)) [
        | inl there ↦
            let e = request_registered now name config b there allocation in
            (ends, rw e (inl (there, refl, refl, refl)), rw e (ground arith))
        | inr fresh ↦
            let (no_name, no_config) = create_code allocation in
            let e = request_unregistered now name config b fresh allocation in
            (ends, rw e (inr (fresh, no_name)), rw e no_config)
      ]

  -- A registered channel with a live end stays.
  kept :
      (b' : Broker) (s : ChannelState)
      → find name b'.channels ≡ some s
      → (b'.store s.queue).consumer_alive ≡ true
      → (has_channel name b' ≡ true)
        × (remove_channel name b' ≡ (false, b'))
        × ((next : Allocation) (now' : ℕ) (config' : ChannelConfig)
            → request_channel next now' name config' b' ≡ (ChannelError.name_exists, none, b'))
  unfolding has_channel contains remove_channel remove_entry
  kept b' s found alive = (
    rw found refl,
    rw found (ground arith),
    λ next now' config'.
        request_registered now' name config' b' (unfold contains in rw found refl) next,
  )

  no_producer_lem :
      contains name b.channels ≡ false
      → request_channel Allocation.no_producer now name config b
        ≡ (ChannelError.allocation_failed, none, register now name (normalize config) b)
  unfolding create make_handles
  no_producer_lem fresh = request_unregistered now name config b fresh Allocation.no_producer

  -- The broker after the producer's handle is destroyed again.
  abbrev halved : Broker
  halved = record (register now name (normalize config) b) {
    store =
        put b.next
          (close_producer (open_producer ((register now name (normalize config) b).store b.next)))
          (register now name (normalize config) b).store;
  }

  no_consumer_lem :
      contains name b.channels ≡ false
      → request_channel Allocation.no_consumer now name config b
        ≡ (ChannelError.allocation_failed, none, halved)
  unfolding create make_handles
  no_consumer_lem fresh = request_unregistered now name config b fresh Allocation.no_consumer

  abbrev entry : ChannelState
  entry = record { queue = b.next; name = name; created_at = now }

  -- When the memory for a handle runs out, the request for a new name returns `AllocationFailed`
  -- and no handle, but the name stays registered: a call of `RemoveChannel` for it that comes next is
  -- refused, a request for it that comes next returns `NameExists`, and neither changes the broker.
  pub request_stranded :
      (allocation : Allocation)
      → (allocation ≡ Allocation.no_producer) ⊎ (allocation ≡ Allocation.no_consumer)
      → has_channel name b ≡ false
      → let (e, h, b') = request_channel allocation now name config b in
        (e ≡ ChannelError.allocation_failed)
        × (h ≡ none)
        × (has_channel name b' ≡ true)
        × (remove_channel name b' ≡ (false, b'))
        × ((next : Allocation) (now' : ℕ) (config' : ChannelConfig)
            → request_channel next now' name config' b' ≡ (ChannelError.name_exists, none, b'))
  unfolding has_channel register spsc_queue find
  request_stranded allocation (inl e) fresh =
      rw (e, no_producer_lem fresh)
        (let (has, removed, later) =
            kept (register now name (normalize config) b) entry (rw (same_name_refl name) refl)
              (rw (eq→== b.next b.next refl) refl) in
          (refl, refl, has, removed, later))
  request_stranded allocation (inr e) fresh =
      rw (e, no_consumer_lem fresh)
        (unfold close_producer open_producer in
          let (has, removed, later) =
            kept halved entry (rw (same_name_refl name) refl)
              (rw (eq→== b.next b.next refl) refl) in
          (refl, refl, has, removed, later))
