-- ===== src/Broker/Shutdown.antt =====
-- `Shutdown`: what it leaves, and which names can be removed after it.
use omni_mailbox.Base.{
  ℕ, ◌≡◌, refl, sym, ap, ◌∙◌, true, false, Bool-cases, inl, inr, some, List, [], ◌∷◌, ==→eq, ◌==◌,
}
use omni_mailbox.Spsc.{SpscQueue}
use omni_mailbox.Spsc.Invariant.{IsValid, contents, flags-IsValid}
use omni_mailbox.Broker.{
  Name, ChannelState, Broker, put, find, contains, has_channel, remove_channel, stop_all, shutdown,
}
use omni_mailbox.Broker.Registry.{Every, Every-find, put_same, contains-find}
use omni_mailbox.Broker.Invariant.{BrokerIsValid}
use omni_mailbox.Broker.Remove.{remove_channel_lem}

-- A queue with both flags down.
abbrev stopped : SpscQueue → SpscQueue
stopped q = record q { producer_alive = false; consumer_alive = false }

pub record Down (q : SpscQueue) : Type 0 where
  pub no_producer : q.producer_alive ≡ false
  pub no_consumer : q.consumer_alive ≡ false

-- The loop keeps what a queue has that the flags do not change.
stop_all-kept :
    (P : SpscQueue → Type 0)
    → ((q : SpscQueue) → P q → P (stopped q))
    → (ss : List ChannelState) (store : ℕ → SpscQueue) (a : ℕ) → P (store a)
    → P (stop_all ss store a)
unfolding stop_all
stop_all-kept P keeps [] store a p = p
stop_all-kept P keeps (s ∷ ss) store a p =
    stop_all-kept P keeps ss (put s.queue (stopped (store s.queue)) store) a
      (elim (Bool-cases (a == s.queue)) [
        | inl same ↦ rw same (keeps (store s.queue) (rw (==→eq a s.queue same) at p))
        | inr other ↦ rw other p
      ])

stop_all-Down : (ss : List ChannelState) (store : ℕ → SpscQueue) → Every Down (stop_all ss store) ss
unfolding stop_all
stop_all-Down [] store = tt
stop_all-Down (s ∷ ss) store =
    let after = put s.queue (stopped (store s.queue)) store in
    (
      stop_all-kept Down (λ q d. record { no_producer = refl; no_consumer = refl }) ss after s.queue
          (rw (put_same s.queue (stopped (store s.queue)) store)
            (record { no_producer = refl; no_consumer = refl })),
      stop_all-Down ss after,
    )

Every-stop_all :
    (ss channels : List ChannelState) (store : ℕ → SpscQueue)
    → Every IsValid store channels
    → Every IsValid (stop_all ss store) channels
Every-stop_all ss [] store every = tt
Every-stop_all ss (s ∷ rest) store (this, every) = (
  stop_all-kept IsValid (λ q v. flags-IsValid q v false false) ss store s.queue this,
  Every-stop_all ss rest store every,
)

-- `Shutdown` of a valid broker puts down both flags of every registered queue; it keeps the
-- registry, the stored messages of every queue, and the broker valid.
pub shutdown_lem :
    (b : Broker)
    → BrokerIsValid b
    → let b' = shutdown b in
      BrokerIsValid b'
      × Every Down b'.store b'.channels
      × (b'.channels ≡ b.channels)
      × ((a : ℕ) → contents (b'.store a) ≡ contents (b.store a))
unfolding shutdown
shutdown_lem b v = (
  record {
    distinct = v.distinct;
    below = v.below;
    valid = Every-stop_all b.channels b.channels b.store v.valid;
    counted = v.counted;
    fits = v.fits;
  },
  stop_all-Down b.channels b.store,
  refl,
  λ a. stop_all-kept (λ q. contents q ≡ contents (b.store a)) (λ q e. e) b.channels b.store a refl,
)

-- After `Shutdown` of a valid broker, `RemoveChannel` succeeds for exactly the names that are
-- registered.
pub remove_channel-shutdown :
    (name : Name) (b : Broker)
    → BrokerIsValid b
    → (remove_channel name (shutdown b)).0 ≡ has_channel name b
remove_channel-shutdown name b v =
    let (valid, down, same, _) = shutdown_lem b v in
    elim (remove_channel_lem name (shutdown b) valid) [
      | inl (r, ok, _) ↦ ok ∙ sym (registered r.entry (ap (find name) (sym same) ∙ r.found))
      | inr (stays, e) ↦ elim (Bool-cases (has_channel name b)) [
        | inr missing ↦ ap (λ x. x.0) e ∙ sym missing
        | inl there ↦
            let (s, found) = contains-find name b.channels (unfold has_channel in there) in
            let found' = ap (find name) same ∙ found in
            let d = Every-find Down name (shutdown b).store (shutdown b).channels s found' down in
            absurd (
              stays (record {
                entry = s;
                found = found';
                no_producer = d.no_producer;
                no_consumer = d.no_consumer;
              }))
      ]
    ]
  where
    registered : (s : ChannelState) → find name b.channels ≡ some s → has_channel name b ≡ true
    registered s e = unfold has_channel contains in rw e refl
