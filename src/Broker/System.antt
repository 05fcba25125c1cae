-- ===== src/Broker/System.antt =====
-- The broker and the handles that it handed out: the broker's calls, and those of the handles that
-- Channel has, on any channel, and what a program may rely on, a bounded queue for each channel and a map from names to channels.
pub mod Lookup
pub mod Kept
pub mod Calls
pub mod Requests
pub mod Changes
pub mod Removals
pub mod Refine
pub mod Reach
use mathlib.Core.Option
use omni_mailbox.Base.{
  ℕ, ◌+◌, ◌-◌, Bool, true, false, Option, none, some, List, [], ◌∷◌, length, if◌then◌else◌, ◌==◌,
  ◌||◌,
}
use omni_mailbox.Base.Words.{add_u64}
use omni_mailbox.Config.{ChannelError, ChannelConfig, normalize}
use omni_mailbox.Fifo.{Fifo, view}
use omni_mailbox.Channel
use omni_mailbox.Channel.{Call, Reply, fifo_step}
use omni_mailbox.Broker.{
  Name, Broker, ChannelState, ChannelPair, Allocation, put, same_name, find, request_channel,
  has_channel, remove_channel, shutdown, get_stats,
}
use omni_mailbox.Broker.Request.{channel_of, empty_fifo}

-- The handles are kept by the address of their queue.
pub record System : Type 0 where
  pub broker : Broker
  pub handles : ℕ → Option ChannelPair

pub data Command : Type 0 where
  request : Allocation → ℕ → Name → ChannelConfig → Command
  has : Name → Command
  remove : Name → Command
  stats : Command
  shut_down : Command
  call : ℕ → Call → Command
  -- `RequestChannel`, `HasChannel` or `RemoveChannel`, where the copy of the name that it looks up
  -- throws in a `noexcept` function.
  lookup_fails : Command

pub data Answer : Type 0 where
  requested : ChannelError → Answer
  told : Bool → Answer
  counted : (active created : ℕ) → Answer
  replied : Reply → Answer
  done : Answer
  terminated : Answer
  no_handle : Answer  -- the program has no handle of such a channel

abbrev pub hand_out : Option ChannelPair → (ℕ → Option ChannelPair) → ℕ → Option ChannelPair
hand_out none handles a = handles a
hand_out (some h) handles a = if a == h.queue then some h else handles a

-- A call on the handles of a channel, over its queue in the store.
abbrev pub on_channel : Call → System → ChannelPair → Answer × System
on_channel x s h =
    let (r, ch) = Channel.step x (channel_of s.broker h) in
    (
      replied r,
      record {
        broker = record s.broker { store = put h.queue ch.queue s.broker.store };
        handles =
            hand_out
              (some (record { queue = h.queue; producer = ch.producer; consumer = ch.consumer }))
              s.handles;
      },
    )

abbrev pub call_on : Option ChannelPair → Call → System → Answer × System
call_on none x s = (no_handle, s)
call_on (some h) x s = on_channel x s h

pub step : Command → System → Answer × System
step (request allocation now name config) s =
    let (e, h, b) = request_channel allocation now name config s.broker in
    (requested e, record { broker = b; handles = hand_out h s.handles })
step (has name) s = (told (has_channel name s.broker), s)
step (remove name) s =
    let (removed, b) = remove_channel name s.broker in (told removed, record s { broker = b })
step stats s = let t = get_stats s.broker in (counted t.active_channels t.total_channels_created, s)
step shut_down s = (done, record s { broker = shutdown s.broker })
step (call a x) s = call_on (s.handles a) x s
step lookup_fails s = (terminated, s)

abbrev pub terminates : Command → Bool
terminates lookup_fails = true
terminates _ = false

pub run : List Command → System → List Answer
run [] s = []
run (c ∷ cs) s =
    let rest = run cs (step c s).1 in (step c s).0 ∷ (if terminates c then [] else rest)

-- What a program may rely on.
pub record Mailboxes : Type 0 where
  pub boxes : ℕ → Fifo
  pub opened : ℕ → Bool  -- the channels of which the program has handles
  pub address_of : Name → Option ℕ  -- the names that are registered
  pub registered : ℕ → Bool
  pub next : ℕ
  pub active : ℕ
  pub created : ℕ

abbrev pub is_there {ℓ} : {A : Type ℓ} → Option A → Bool
is_there none = false
is_there (some a) = true

abbrev pub closed : Fifo → Fifo
closed f = record f { producer_alive = false; consumer_alive = false }

-- A new channel under a name.
abbrev pub enrol : Name → Fifo → Mailboxes → Mailboxes
enrol name f m = record {
  boxes = λ a. if a == m.next then f else m.boxes a;
  opened = m.opened;
  address_of = λ x. if same_name name x then some m.next else m.address_of x;
  registered = λ a. if a == m.next then true else m.registered a;
  next = m.next + 1;
  active = m.active + 1;
  created = add_u64 m.created 1;
}

abbrev pub open_at : ℕ → Mailboxes → Mailboxes
open_at a m = record m { opened = λ x. if x == a then true else m.opened x }

-- A request for a name that is free. Where memory runs out for a handle, the name is taken.
abbrev pub request_free : Allocation → Name → ChannelConfig → Mailboxes → Answer × Mailboxes
request_free Allocation.granted name n m =
    (requested ChannelError.success, open_at m.next (enrol name (empty_fifo n) m))
request_free Allocation.no_queue name n m = (requested ChannelError.allocation_failed, m)
request_free Allocation.no_entry name n m = (requested ChannelError.allocation_failed, m)
request_free Allocation.no_producer name n m =
    (requested ChannelError.allocation_failed, enrol name (empty_fifo n) m)
request_free Allocation.no_consumer name n m = (
  requested ChannelError.allocation_failed,
  enrol name (record (empty_fifo n) { producer_alive = false }) m,
)

abbrev pub remove_at : Name → Option ℕ → Mailboxes → Answer × Mailboxes
remove_at name none m = (told false, m)
remove_at name (some a) m =
    if (m.boxes a).producer_alive || (m.boxes a).consumer_alive then (told false, m) else (
      told true,
      record m {
        address_of = λ x. if same_name name x then none else m.address_of x;
        registered = λ x. if x == a then false else m.registered x;
        active = m.active - 1;
      },
    )

unfoldable pub mailbox_step : Command → Mailboxes → Answer × Mailboxes
mailbox_step (request allocation now name config) m =
    if is_there (m.address_of name)
    then (requested ChannelError.name_exists, m)
    else request_free allocation name (normalize config) m
mailbox_step (has name) m = (told (is_there (m.address_of name)), m)
mailbox_step (remove name) m = remove_at name (m.address_of name) m
mailbox_step stats m = (counted m.active m.created, m)
mailbox_step shut_down m =
    (done, record m { boxes = λ a. if m.registered a then closed (m.boxes a) else m.boxes a })
mailbox_step (call a x) m =
    let (r, f) = fifo_step x (m.boxes a) in
    if m.opened a
    then (replied r, record m { boxes = λ b. if b == a then f else m.boxes b })
    else (no_handle, m)
mailbox_step lookup_fails m = (terminated, m)

unfoldable pub mailbox_run : List Command → Mailboxes → List Answer
mailbox_run [] m = []
mailbox_run (c ∷ cs) m =
    let rest = mailbox_run cs (mailbox_step c m).1 in
    (mailbox_step c m).0 ∷ (if terminates c then [] else rest)

-- The broker's queues and registry, seen so.
abbrev pub listed : ℕ → List ChannelState → Bool
listed a [] = false
listed a (t ∷ ts) = if a == t.queue then true else listed a ts

abbrev pub address : Name → List ChannelState → Option ℕ
address name ss = Option.map (λ (t : ChannelState). t.queue) (find name ss)

abbrev pub seen : System → Mailboxes
seen s = record {
  boxes = λ a. view (s.broker.store a);
  opened = λ a. is_there (s.handles a);
  address_of = λ name. address name s.broker.channels;
  registered = λ a. listed a s.broker.channels;
  next = s.broker.next;
  active = length s.broker.channels;
  created = s.broker.total_created;
}
