-- ===== src/Broker/System/Kept.antt =====
-- What holds of the broker and its handles at any time, and of what a program sees of them.
use omni_mailbox.Base.{
  ℕ, ◌<◌, ◌≡◌, refl, ◌∙◌, false, Bool-cases, inl, inr, some, List, [], ◌∷◌, if◌then◌else◌, ◌==◌,
  ==→eq,
}
use omni_mailbox.Fifo.{view}
use omni_mailbox.Spsc.{SpscQueue}
use omni_mailbox.Spsc.Invariant.{IsValid}
use omni_mailbox.Channel.{Channel}
use omni_mailbox.Channel.Refine.{ChannelIsValid}
use omni_mailbox.Broker.{Name, Broker, ChannelState, ChannelPair, put, stop_all}
use omni_mailbox.Broker.Request.{channel_of}
use omni_mailbox.Broker.Invariant.{BrokerIsValid}
use omni_mailbox.Broker.System.{System, Mailboxes, listed}

-- A handle at its address, over a usable channel.
pub record Usable (b : Broker) (a : ℕ) (h : ChannelPair) : Type 0 where
  pub place : h.queue ≡ a
  pub below : a < b.next
  pub usable : ChannelIsValid (channel_of b h)

pub record SystemIsValid (s : System) : Type 0 where
  pub broker_valid : BrokerIsValid s.broker
  pub handles_usable : (a : ℕ) (h : ChannelPair) → s.handles a ≡ some h → Usable s.broker a h

-- A channel over another valid queue.
pub usable_over :
    (ch : Channel) (q : SpscQueue)
    → ChannelIsValid ch
    → IsValid q
    → ChannelIsValid (record ch { queue = q })
usable_over ch q v valid = record {
  queue_valid = valid;
  unreserved = v.unreserved;
  sent_fits = v.sent_fits;
  bytes_fit = v.bytes_fit;
}

-- Mailboxes with the same parts.
pub same_mailboxes :
    (m m' : Mailboxes)
    → ((a : ℕ) → m.boxes a ≡ m'.boxes a)
    → ((a : ℕ) → m.opened a ≡ m'.opened a)
    → ((n : Name) → m.address_of n ≡ m'.address_of n)
    → ((a : ℕ) → m.registered a ≡ m'.registered a)
    → m.next ≡ m'.next
    → m.active ≡ m'.active
    → m.created ≡ m'.created
    → m ≡ m'
same_mailboxes m m' boxes opened names registered next active created = λ i. record {
  boxes = λ a. boxes a i;
  opened = λ a. opened a i;
  address_of = λ n. names n i;
  registered = λ a. registered a i;
  next = next i;
  active = active i;
  created = created i;
}

-- A write to the store, as it is seen.
pub view-put :
    (a : ℕ) (q : SpscQueue) (store : ℕ → SpscQueue) (x : ℕ)
    → view (put a q store x) ≡ (if x == a then view q else view (store x))
view-put a q store x = elim (Bool-cases (x == a)) [
  | inl same ↦ rw same refl
  | inr other ↦ rw other refl
]

abbrev stopped : SpscQueue → SpscQueue
stopped q = record q { producer_alive = false; consumer_alive = false }

-- `Shutdown` puts down the flags of the queues that the registry lists.
pub stop_all-at :
    (ss : List ChannelState) (store : ℕ → SpscQueue) (a : ℕ)
    → stop_all ss store a ≡ (if listed a ss then stopped (store a) else store a)
unfolding stop_all
stop_all-at [] store a = refl
stop_all-at (t ∷ ts) store a =
    stop_all-at ts (put t.queue (stopped (store t.queue)) store) a
    ∙ (elim (Bool-cases (a == t.queue)) [
      | inr other ↦ rw other refl
      | inl same ↦ elim (Bool-cases (listed a ts)) [
        | inl more ↦ rw (same, more, ==→eq a t.queue same) refl
        | inr no_more ↦ rw (same, no_more, ==→eq a t.queue same) refl
      ]
    ])
