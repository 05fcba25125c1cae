-- ===== src/Usage/Facts.antt =====
-- What the places of the two threads of the basic example say of the messages.
use native.Mathlib.Numerals.{add-one}
use omni_mailbox.Base.{
  ℕ, zero, suc, ◌+◌, ◌≤◌, ◌<◌, ◌≡◌, inl, inr, refl, sym, ap, ◌∙◌, true, Bool-cases, List, [], ◌∷◌,
  ◌++◌, length, length-append, ltb, arith,
}
use omni_mailbox.Fifo.{Fifo, admits}
use omni_mailbox.Channel.Api.{ChannelApi}
use omni_mailbox.Usage.{greeting, ProducerThread, sending, ConsumerThread, receiving, Session}

-- The first `n` greetings.
abbrev pub greetings : ℕ → List (List ℕ)
greetings zero = []
greetings (suc n) = greetings n ++ greeting n ∷ []

pub length-greetings : (n : ℕ) → length (greetings n) ≡ n
length-greetings zero = refl
length-greetings (suc n) =
    length-append (greetings n) (greeting n ∷ []) ∙ omega (arith, length-greetings n)

pub greetings_next : (n i : ℕ) → n ≡ i → greetings n ++ greeting i ∷ [] ≡ greetings (n + 1)
greetings_next n i e = rw (← e) (ap greetings (sym (add-one n)))

pub greeting_fits : (i limit : ℕ) → i < 10 → 26 ≤ limit → admits limit (greeting i) ≡ true
unfolding greeting
greeting_fits i limit small h = elim (Bool-cases (ltb (i + 1) 10)) [
  | inl one ↦ rw one (ground arith)
  | inr two ↦ rw two (ground arith)
]

-- Both ends live, a greeting fits into a slot and ten of them into the queue.
pub record Roomy (f : Fifo) : Type 0 where
  pub producer_up : f.producer_alive ≡ true
  pub consumer_up : f.consumer_alive ≡ true
  pub large : 26 ≤ f.limit
  pub deep : 10 ≤ f.room

abbrev pub ProducerFact : ProducerThread → ℕ → Type 0
ProducerFact (sending i) n = (n ≡ i) × (i ≤ 10)
ProducerFact ProducerThread.finished n = n ≡ 10

abbrev pub ConsumerFact : ConsumerThread → ℕ → Type 0
ConsumerFact (receiving i) n = (n ≡ i) × (i ≤ 10)
ConsumerFact ConsumerThread.finished n = n ≤ 10

module _ {S : Type 0} (api : ChannelApi S) where
  -- What was received and what is stored are the greetings that were sent.
  pub record InOrder (d : Session S) : Type 0 where
    pub up : Roomy (api.shown d.channel)
    pub flow : d.received ++ (api.shown d.channel).items ≡ greetings d.sent
    pub producer_fact : ProducerFact d.producer d.sent
    pub consumer_fact : ConsumerFact d.consumer (length d.received)
