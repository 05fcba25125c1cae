-- ===== src/Usage/Ends.antt =====
-- Every run of the threads of the basic example ends, and with all ten greetings sent.
use mathlib.Core.Path.{subst}
use omni_mailbox.Base.{
  ℕ, zero, suc, ◌+◌, ◌-◌, ◌≤◌, ◌<◌, ◌≡◌, ◌⊎◌, inl, inr, refl, ap, ◌∙◌, Option, none, some, List, [],
  ◌++◌, length, arith,
}
use omni_mailbox.Config.{PushResult, PopResult}
use omni_mailbox.Channel.Api.{ChannelApi}
use omni_mailbox.Usage.{
  ProducerThread, sending, ConsumerThread, receiving, Session, greet, after_push, waited_push,
  listen, after_pop, waited_pop, Step, send_next, send_end, receive_next, receive_end, Runs, here,
  next, greeting, started,
}
use omni_mailbox.Usage.Facts.{greetings, Roomy, ProducerFact, ConsumerFact, InOrder}
use omni_mailbox.Usage.Order.{Step-InOrder, Runs-InOrder}
use native.Mathlib.Decide.{dec_lt}

abbrev producer_left : ProducerThread → ℕ
producer_left (sending i) = 11 - i
producer_left ProducerThread.finished = 0

abbrev consumer_left : ConsumerThread → ℕ
consumer_left (receiving i) = 11 - i
consumer_left ConsumerThread.finished = 0

-- The steps that are left at most.
abbrev pub left : {S : Type 0} → Session S → ℕ
left d = producer_left d.producer + consumer_left d.consumer

module _ {S : Type 0} (api : ChannelApi S) where
  after_push-left :
      (i : ℕ) (r : PushResult) (d : Session S)
      → i < 10
      → ((after_push api i r d).consumer ≡ d.consumer)
        × (producer_left (after_push api i r d).producer < producer_left (sending i))
  unfolding after_push
  after_push-left i PushResult.success d h = (refl, omega arith)
  after_push-left i r d h = (refl, omega arith)

  greet-left :
      (i : ℕ) (d : Session S) → d.producer ≡ sending i → i < 10 → left (greet api i d) < left d
  unfolding greet
  greet-left i d e h =
      let (same, less) =
        after_push-left i (waited_push (api.push (greeting i) d.channel).0)
          (record d { channel = (api.push (greeting i) d.channel).1 }) h in
      omega (arith, less, ap consumer_left same, ap producer_left e)

  after_pop-left :
      (i : ℕ) (r : PopResult) (m : Option (List ℕ)) (d : Session S)
      → i < 10
      → ((after_pop api i r m d).producer ≡ d.producer)
        × (consumer_left (after_pop api i r m d).consumer < consumer_left (receiving i))
  unfolding after_pop
  after_pop-left i PopResult.success none d h = (refl, omega arith)
  after_pop-left i PopResult.success (some m) d h = (refl, omega arith)
  after_pop-left i r m d h = (refl, omega arith)

  listen-left :
      (i : ℕ) (d : Session S) → d.consumer ≡ receiving i → i < 10 → left (listen api i d) < left d
  unfolding listen
  listen-left i d e h =
      let (r, m, s) = api.pop d.channel in
      let (same, less) = after_pop-left i (waited_pop r) m (record d { channel = s }) h in
      omega (arith, less, ap producer_left same, ap consumer_left e)

  Step-left : {d e : Session S} → Step api d e → left e < left d
  Step-left {d} (send_next {i} e h) = greet-left i d e h
  Step-left (send_end e) = rw e (omega arith)
  Step-left {d} (receive_next {i} e h) = listen-left i d e h
  Step-left (receive_end e) = rw e (omega arith)

  -- The number of steps of a run.
  pub steps : {d e : Session S} → Runs api d e → ℕ
  steps here = 0
  steps (next r step) = suc (steps r)

  steps-le : {d e : Session S} (r : Runs api d e) → steps r + left e ≤ left d
  unfolding steps
  steps-le here = omega arith
  steps-le (next r step) = omega (arith, steps-le r, Step-left step)

  abbrev pub Over : Session S → Type 0
  Over d = (d.producer ≡ ProducerThread.finished) × (d.consumer ≡ ConsumerThread.finished)

  producer_moves :
      (d : Session S) (p : ProducerThread)
      → d.producer ≡ p
      → ProducerFact p d.sent
      → (p ≡ ProducerThread.finished) ⊎ ((e : Session S) × Step api d e)
  producer_moves d (sending i) e (_, most) = inr (elim (dec_lt i 10) [
    | yes more ↦ (_, send_next e more)
    | no last ↦ (_, send_end (rw e (ap sending (omega arith))))
  ])
  producer_moves d ProducerThread.finished e fact = inl refl

  consumer_moves :
      (d : Session S) (c : ConsumerThread)
      → d.consumer ≡ c
      → ConsumerFact c (length d.received)
      → (c ≡ ConsumerThread.finished) ⊎ ((e : Session S) × Step api d e)
  consumer_moves d (receiving i) e (_, most) = inr (elim (dec_lt i 10) [
    | yes more ↦ (_, receive_next e more)
    | no last ↦ (_, receive_end (rw e (ap receiving (omega arith))))
  ])
  consumer_moves d ConsumerThread.finished e fact = inl refl

  -- A thread that has not finished can step.
  moves : (d : Session S) → InOrder api d → Over d ⊎ ((e : Session S) × Step api d e)
  moves d b = elim (producer_moves d d.producer refl b.producer_fact) [
    | inr step ↦ inr step
    | inl sent ↦ elim (consumer_moves d d.consumer refl b.consumer_fact) [
      | inr step ↦ inr step
      | inl heard ↦ inl (sent, heard)
    ]
  ]

  goes-InOrder : {d e : Session S} → InOrder api d → Runs api d e → InOrder api e
  goes-InOrder b here = b
  goes-InOrder b (next r step) = Step-InOrder api step (goes-InOrder b r)

  goes_on :
      (n : ℕ) (d e : Session S)
      → left e < n
      → InOrder api e
      → Runs api d e
      → (f : Session S) × Runs api d f × Over f
  goes_on zero d e h b r = elim h [ ]
  goes_on (suc n) d e h b r = elim (moves e b) [
    | inl over ↦ (e, r, over)
    | inr (f, step) ↦
        goes_on n d f (omega (arith, Step-left step)) (Step-InOrder api step b) (next r step)
  ]

  -- Every run of the threads of the basic example, on a channel that keeps the laws of the bounded
  -- queue, starts empty with both ends alive, takes messages of 26 bytes and has room for ten: what
  -- was received and then what is stored are the greetings that were sent, in order; the run has 22
  -- steps at most; and it goes on to a state where both threads have finished, and the messages
  -- received and those stored are the ten greetings.
  pub session_ends :
      (s : S) (d : Session S)
      → Roomy (api.shown s)
      → (api.shown s).items ≡ []
      → (r : Runs api (started api s) d)
      → (d.received ++ (api.shown d.channel).items ≡ greetings d.sent)
        × (steps r ≤ 22)
        × ((e : Session S) × Runs api d e
            × Over e
            × (e.received ++ (api.shown e.channel).items ≡ greetings 10))
  session_ends s d up empty r =
      let b = Runs-InOrder api s up empty r in
      let (e, more, over) = goes_on (suc (left d)) d d (omega arith) b here in
      let c = goes-InOrder b more in
      (
        b.flow,
        omega (arith, steps-le r),
        (
          e,
          more,
          over,
          c.flow ∙ ap greetings (subst (λ p. ProducerFact p e.sent) over.0 c.producer_fact),
        ),
      )
