-- ===== src/Backpressure/Facts.antt =====
-- What the places of the two threads say of the counters and of the channel.
use omni_mailbox.Base.{
  ℕ, suc, ◌+◌, ◌≤◌, ◌<◌, ◌≡◌, ◌⊎◌, inl, inr, refl, Bool, true, false, Bool-cases, none, some, List,
  [], ◌∷◌, ◌++◌, length, if◌then◌else◌, ltb, ◌==◌, arith,
}
use omni_mailbox.Config.{PushResult, PopResult}
use omni_mailbox.Fifo
use omni_mailbox.Fifo.{Fifo, view, admits, pop_items}
use omni_mailbox.Channel.Api.{ChannelApi}
use omni_mailbox.Backpressure.{
  ProducerThread, sending, leaving, finished, ConsumerThread, testing, tested, popping, timed_out,
  retested, stopped, Demo, message,
}

pub message_fits : (i limit : ℕ) → i < 50 → 11 ≤ limit → admits limit (message i) ≡ true
message_fits i limit small h = elim (Bool-cases (ltb (i + 1) 10)) [
  | inl one ↦ rw one (ground arith)
  | inr two ↦ rw two (ground arith)
]

pub push_cases :
    (m : List ℕ) (f : Fifo)
    → admits f.limit m ≡ true
    → f.consumer_alive ≡ true
    → (Fifo.push m f ≡ (PushResult.queue_full, f))
      ⊎ (Fifo.push m f ≡ (PushResult.success, record f { items = f.items ++ m ∷ [] }))
unfolding Fifo.push
push_cases m f fits alive = elim (Bool-cases (length f.items == f.room)) [
  | inl full ↦ inl (rw (fits, alive, full) refl)
  | inr room ↦ inr (rw (fits, alive, room) refl)
]

pop_items_cases :
    (xs : List (List ℕ)) (f : Fifo)
    → f.producer_alive ≡ true
    → ((length xs ≡ 0) × (pop_items xs f ≡ (PopResult.empty, none, f)))
      ⊎ ((x : List ℕ) × (ys : List (List ℕ)) × (length xs ≡ suc (length ys))
          × (pop_items xs f ≡ (PopResult.success, some x, record f { items = ys })))
unfolding pop_items
pop_items_cases [] f alive = inl (refl, rw alive refl)
pop_items_cases (x ∷ xs) f alive = inr (x, xs, refl, refl)

pub pop_cases :
    (f : Fifo)
    → f.producer_alive ≡ true
    → ((length f.items ≡ 0) × (Fifo.pop f ≡ (PopResult.empty, none, f)))
      ⊎ ((x : List ℕ) × (ys : List (List ℕ)) × (length f.items ≡ suc (length ys))
          × (Fifo.pop f ≡ (PopResult.success, some x, record f { items = ys })))
unfolding Fifo.pop
pop_cases f alive = pop_items_cases f.items f alive

-- What the producer's place says of the messages that it has dealt with.
abbrev pub ProducerFact : ProducerThread → ℕ → Bool → Type 0
ProducerFact (sending i) n flag = (n ≡ i) × (i ≤ 50) × (flag ≡ false)
ProducerFact leaving n flag = (n ≡ 50) × (flag ≡ false)
ProducerFact finished n flag = (n ≡ 50) × (flag ≡ true)

-- What the consumer's place says of the flag and of the number of stored messages.
abbrev pub ConsumerFact : ConsumerThread → Bool → ℕ → Type 0
ConsumerFact tested flag n = flag ≡ true
ConsumerFact retested flag n = flag ≡ true
ConsumerFact stopped flag n = (flag ≡ true) × (n ≡ 0)
ConsumerFact _ flag n = Unit {0}

pub unflagged : (c : ConsumerThread) (n n' : ℕ) → ConsumerFact c false n → ConsumerFact c false n'
unflagged testing n n' h = tt
unflagged tested n n' h = h
unflagged popping n n' h = tt
unflagged timed_out n n' h = tt
unflagged retested n n' h = h
unflagged stopped n n' h = absurd (ground arith)

pub flagged : (c : ConsumerThread) (n : ℕ) → ConsumerFact c false n → ConsumerFact c true n
flagged testing n h = tt
flagged tested n h = refl
flagged popping n h = tt
flagged timed_out n h = tt
flagged retested n h = refl
flagged stopped n h = absurd (ground arith)

pub by_test :
    (b flag : Bool) (n : ℕ) (c c' : ConsumerThread)
    → (b ≡ true → ConsumerFact c flag n)
    → ConsumerFact c' flag n
    → ConsumerFact (if b then c else c') flag n
by_test true flag n c c' met unmet = met refl
by_test false flag n c c' met unmet = unmet

-- Two ends that live, and room for the messages in a slot.
pub record Open (f : Fifo) : Type 0 where
  pub producer_up : f.producer_alive ≡ true
  pub consumer_up : f.consumer_alive ≡ true
  pub large : 11 ≤ f.limit

module _ {S : Type 0} (api : ChannelApi S) where
  pub record Balanced (d : Demo S) : Type 0 where
    pub up : Open (api.shown d.channel)
    pub balance : d.messages_sent ≡ d.messages_received + length (api.shown d.channel).items
    pub producer_fact :
        ProducerFact d.producer (d.messages_sent + d.messages_dropped) d.producer_finished
    pub consumer_fact :
        ConsumerFact d.consumer d.producer_finished (length (api.shown d.channel).items)
