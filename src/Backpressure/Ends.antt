-- ===== src/Backpressure/Ends.antt =====
-- Every run of the backpressure demonstration can be carried to its end.
use omni_mailbox.Base.{
  ℕ, zero, suc, ◌+◌, ◌-◌, ◌<◌, ◌≤◌, ◌≡◌, refl, sym, ap, ◌∙◌, true, Bool-cases, inl, inr, List, [],
  ◌∷◌, length, if◌then◌else◌, ◌==◌, eq→==, arith,
}
use omni_mailbox.Fifo.{Fifo}
use omni_mailbox.Channel.Api.{ChannelApi}
use omni_mailbox.Channel.Answers.{push_answers, pop_answers, was_full, stored, was_empty, taken}
use omni_mailbox.Backpressure.{
  ProducerThread, sending, leaving, finished, ConsumerThread, testing, tested, popping, timed_out,
  retested, stopped, Demo, message, send, sent, receive, received, Step, send_next, send_last,
  finish, test, count, pop_next, retest, recount, Runs, here, next, started,
}
use omni_mailbox.Backpressure.Facts.{message_fits, ProducerFact, Open, Balanced}
use omni_mailbox.Backpressure.Balance.{Step-Balanced, Runs-Balanced}

module _ {S : Type 0} (api : ChannelApi S) where
  before : {d e f : Demo S} → Step api d e → Runs api e f → Runs api d f
  before step here = next here step
  before step (next r last) = next (before step r) last

  -- A run to the end of the consumer.
  abbrev pub Stops : Demo S → Type 0
  Stops d = (e : Demo S) × Runs api d e × (e.consumer ≡ stopped)

  begins : {d e : Demo S} → Step api d e → Stops e → Stops d
  begins step (e, r, at) = (e, before step r, at)

  abbrev stored_in : Demo S → ℕ
  stored_in d = length (api.shown d.channel).items

  none_available : (d : Demo S) → stored_in d ≡ 0 → (api.available d.channel == 0) ≡ true
  none_available d nothing =
      eq→== (api.available d.channel) 0 (api.available_law d.channel ∙ nothing)

  retested_stops : (d : Demo S) → stored_in d ≡ 0 → d.consumer ≡ retested → Stops d
  retested_stops d nothing at = (_, next here (recount at), rw (none_available d nothing) refl)

  timed_out_stops :
      (d : Demo S) → stored_in d ≡ 0 → d.producer_finished ≡ true → d.consumer ≡ timed_out → Stops d
  timed_out_stops d nothing up at = begins (retest at) (
      retested_stops (record d { consumer = if d.producer_finished then retested else testing })
        nothing (rw up refl))

  -- What a `BlockingPop` that finds nothing, or a message, leaves.
  receive_nothing :
      (d : Demo S) (b : Balanced api d)
      → (api.shown d.channel).items ≡ []
      → ((receive api d).consumer ≡ timed_out)
        × ((receive api d).producer_finished ≡ d.producer_finished)
        × (stored_in (receive api d) ≡ 0)
  unfolding receive received
  receive_nothing d b nothing = elim (pop_answers api d.channel b.up.producer_up) [
    | was_empty _ code message same ↦
        rw code (refl, refl, ap (λ (f : Fifo). length f.items) same ∙ ap length nothing)
    | taken x xs found code message same ↦ absurd (let t = sym nothing ∙ found in cc)
  ]

  receive_one :
      (d : Demo S) (b : Balanced api d) (x : List ℕ) (xs : List (List ℕ))
      → (api.shown d.channel).items ≡ x ∷ xs
      → ((receive api d).consumer ≡ testing)
        × ((receive api d).producer_finished ≡ d.producer_finished)
        × (suc (stored_in (receive api d)) ≡ stored_in d)
  unfolding receive received
  receive_one d b x xs there = elim (pop_answers api d.channel b.up.producer_up) [
    | was_empty nothing code message same ↦ absurd (let t = sym nothing ∙ there in cc)
    | taken y ys found code message same ↦
        rw code (refl, refl, ap (λ (f : Fifo). suc (length f.items)) same ∙ sym (ap length found))
  ]

  -- What the consumer does at the head of its loop when a message less is stored.
  abbrev Later : Demo S → Type 0
  Later d =
      (e : Demo S) (b : Balanced api e)
      → suc (stored_in e) ≡ stored_in d
      → e.producer_finished ≡ true
      → e.consumer ≡ testing
      → Stops e

  popping_stops :
      (d : Demo S) (b : Balanced api d)
      → d.producer_finished ≡ true
      → d.consumer ≡ popping
      → Later d
      → Stops d
  popping_stops d b up at later = begins (pop_next at) (by_items (api.shown d.channel).items refl)
    where
      by_items : (xs : List (List ℕ)) → (api.shown d.channel).items ≡ xs → Stops (receive api d)
      by_items [] e =
          let (timed, same, nothing) = receive_nothing d b e in
          timed_out_stops (receive api d) nothing (same ∙ up) timed
      by_items (x ∷ xs) e =
          let (again, same, less) = receive_one d b x xs e in
          later (receive api d) (Step-Balanced api (pop_next at) b) less (same ∙ up) again

  tested_stops :
      (d : Demo S) (b : Balanced api d)
      → d.producer_finished ≡ true
      → d.consumer ≡ tested
      → Later d
      → Stops d
  tested_stops d b up at later = elim (Bool-cases (api.available d.channel == 0)) [
    | inl none_left ↦ (_, next here (count at), rw none_left refl)
    | inr some_left ↦ begins (count at) (
        popping_stops
          (record d { consumer = if api.available d.channel == 0 then stopped else popping })
          (Step-Balanced api (count at) b) up (rw some_left refl) later)
  ]

  testing_stops :
      (n : ℕ) (d : Demo S) (b : Balanced api d)
      → stored_in d ≤ n
      → d.producer_finished ≡ true
      → d.consumer ≡ testing
      → Stops d
  testing_stops zero d b small up at = begins (test at) (
      tested_stops (record d { consumer = if d.producer_finished then tested else popping })
        (Step-Balanced api (test at) b) up (rw up refl) (λ e c less up' at'. absurd (omega arith)))
  testing_stops (suc n) d b small up at = begins (test at) (
      tested_stops (record d { consumer = if d.producer_finished then tested else popping })
        (Step-Balanced api (test at) b) up (rw up refl)
        (λ e c less up' at'. testing_stops n e c (omega arith) up' at'))

  rounds_stop : (d : Demo S) → Later d
  rounds_stop d e c less up at = testing_stops (stored_in e) e c (omega arith) up at

  retested_goes_on :
      (d : Demo S) (b : Balanced api d)
      → d.producer_finished ≡ true
      → d.consumer ≡ retested
      → Stops d
  retested_goes_on d b up at = elim (Bool-cases (api.available d.channel == 0)) [
    | inl none_left ↦ (_, next here (recount at), rw none_left refl)
    | inr some_left ↦
        let e : Demo S = record d {
          consumer = if api.available d.channel == 0 then stopped else testing;
        } in
        begins (recount at) (
          testing_stops (stored_in d) e (Step-Balanced api (recount at) b) (omega arith) up
            (rw some_left refl))
  ]

  -- With the flag up, the consumer comes to its end from every place.
  flagged_stops :
      (d : Demo S) (b : Balanced api d) (c : ConsumerThread)
      → d.producer_finished ≡ true
      → d.consumer ≡ c
      → Stops d
  flagged_stops d b testing up at = testing_stops (stored_in d) d b (omega arith) up at
  flagged_stops d b tested up at = tested_stops d b up at (rounds_stop d)
  flagged_stops d b popping up at = popping_stops d b up at (rounds_stop d)
  flagged_stops d b timed_out up at = begins (retest at) (
      retested_goes_on (record d { consumer = if d.producer_finished then retested else testing })
        (Step-Balanced api (retest at) b) up (rw up refl))
  flagged_stops d b retested up at = retested_goes_on d b up at
  flagged_stops d b stopped up at = (d, here, at)

  leaving_stops : (d : Demo S) (b : Balanced api d) → d.producer ≡ leaving → Stops d
  leaving_stops d b at = begins (finish at) (
      flagged_stops (record d { producer = finished; producer_finished = true })
        (Step-Balanced api (finish at) b) d.consumer refl refl)

  send-sending :
      (i : ℕ) (d : Demo S) (b : Balanced api d) → i < 50 → (send api i d).producer ≡ sending (i + 1)
  unfolding send sent
  send-sending i d b small =
      elim (push_answers api (message i) d.channel
        (message_fits i (api.shown d.channel).limit small b.up.large) b.up.consumer_up) [
          | was_full full code same ↦ rw code refl
          | stored room code same ↦ rw code refl
        ]

  sending_stops :
      (k i : ℕ) → i + k ≡ 50 → (d : Demo S) (b : Balanced api d) → d.producer ≡ sending i → Stops d
  sending_stops zero i left d b at =
      let last = at ∙ ap sending (let t : i ≡ 50 = omega arith in t) in
      begins (send_last last) (
        leaving_stops (record d { producer = leaving }) (Step-Balanced api (send_last last) b) refl)
  sending_stops (suc k) i left d b at =
      let small : i < 50 = omega arith in
      begins (send_next at small) (
        sending_stops k (i + 1) (omega arith) (send api i d)
          (Step-Balanced api (send_next at small) b) (send-sending i d b small))

  from_anywhere :
      (d : Demo S) (b : Balanced api d) (p : ProducerThread)
      → d.producer ≡ p
      → ProducerFact p (d.messages_sent + d.messages_dropped) d.producer_finished
      → Stops d
  from_anywhere d b (sending i) at (_, most, _) = sending_stops (50 - i) i (omega arith) d b at
  from_anywhere d b leaving at fact = leaving_stops d b at
  from_anywhere d b finished at (_, up) = flagged_stops d b d.consumer up refl

  -- On a channel that keeps the laws of the bounded queue, starts empty with both ends alive and
  -- takes messages of 11 bytes: whatever steps the threads of the demonstration have taken, there are
  -- further steps after which the consumer has stopped.
  pub demo_stops :
      (s : S) (d : Demo S)
      → Open (api.shown s)
      → (api.shown s).items ≡ []
      → Runs api (started api s) d
      → Stops d
  demo_stops s d up empty r =
      let b = Runs-Balanced api s up empty r in from_anywhere d b d.producer refl b.producer_fact
