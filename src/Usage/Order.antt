-- ===== src/Usage/Order.antt =====
-- The greetings of the basic example arrive in order.
use mathlib.Core.Path.{subst}
use omni_mailbox.Base.{
  ℕ, ◌+◌, ◌<◌, ◌≡◌, refl, sym, ap, ◌∙◌, [], ◌∷◌, ◌++◌, append_assoc, length, length-append, arith,
}
use omni_mailbox.Fifo.{Fifo}
use omni_mailbox.Channel.Api.{ChannelApi}
use omni_mailbox.Channel.Answers.{push_answers, pop_answers, was_full, stored, was_empty, taken}
use omni_mailbox.Usage.{
  greeting, ProducerThread, sending, ConsumerThread, receiving, Session, greet, after_push, listen,
  after_pop, Step, send_next, send_end, receive_next, receive_end, Runs, here, next, started,
}
use omni_mailbox.Usage.Facts.{
  length-greetings, greetings_next, greeting_fits, Roomy, ProducerFact, ConsumerFact, InOrder,
}

module _ {S : Type 0} (api : ChannelApi S) where
  module _ (d : Session S) (b : InOrder api d) where
    counts : length d.received + length (api.shown d.channel).items ≡ d.sent
    counts =
        sym (length-append d.received (api.shown d.channel).items)
        ∙ ap length b.flow
        ∙ length-greetings d.sent

    greet_kept : (i : ℕ) → d.producer ≡ sending i → i < 10 → InOrder api (greet api i d)
    unfolding greet after_push
    greet_kept i e small =
        let (n, _) = subst (λ p. ProducerFact p d.sent) e b.producer_fact in
        elim (push_answers api (greeting i) d.channel
          (greeting_fits i (api.shown d.channel).limit small b.up.large) b.up.consumer_up) [
            | was_full full code same ↦ absurd (omega (arith, counts, b.up.deep, full, n))
            | stored room code same ↦ rw code (record {
              up = rw same (record {
                producer_up = b.up.producer_up;
                consumer_up = b.up.consumer_up;
                large = b.up.large;
                deep = b.up.deep;
              });
              flow =
                  ap (λ (f : Fifo). d.received ++ f.items) same
                  ∙ sym (append_assoc d.received (api.shown d.channel).items (greeting i ∷ []))
                  ∙ ap (λ ys. ys ++ greeting i ∷ []) b.flow
                  ∙ greetings_next d.sent i n;
              producer_fact = (omega arith, omega arith);
              consumer_fact = b.consumer_fact;
            })
          ]

    listen_kept : (i : ℕ) → d.consumer ≡ receiving i → i < 10 → InOrder api (listen api i d)
    unfolding listen after_pop
    listen_kept i e small =
        let (n, _) = subst (λ c. ConsumerFact c (length d.received)) e b.consumer_fact in
        elim (pop_answers api d.channel b.up.producer_up) [
          | was_empty nothing code no_message same ↦ rw code (record {
            up = rw same b.up;
            flow = ap (λ (f : Fifo). d.received ++ f.items) same ∙ b.flow;
            producer_fact = b.producer_fact;
            consumer_fact = omega arith;
          })
          | taken x xs found code message same ↦
              rw (code, message)
                (record {
                  up = rw same (record {
                    producer_up = b.up.producer_up;
                    consumer_up = b.up.consumer_up;
                    large = b.up.large;
                    deep = b.up.deep;
                  });
                  flow =
                      ap (λ (f : Fifo). (d.received ++ x ∷ []) ++ f.items) same
                      ∙ append_assoc d.received (x ∷ []) xs
                      ∙ ap (λ ys. d.received ++ ys) (sym found)
                      ∙ b.flow;
                  producer_fact = b.producer_fact;
                  consumer_fact =
                      (omega (arith, n, length-append d.received (x ∷ [])), omega arith);
                })
        ]

    send_end_kept :
        d.producer ≡ sending 10 → InOrder api (record d { producer = ProducerThread.finished })
    send_end_kept e =
        let (n, _) = subst (λ p. ProducerFact p d.sent) e b.producer_fact in
        record { up = b.up; flow = b.flow; producer_fact = n; consumer_fact = b.consumer_fact }

    receive_end_kept :
        d.consumer ≡ receiving 10 → InOrder api (record d { consumer = ConsumerThread.finished })
    receive_end_kept e =
        let (n, _) = subst (λ c. ConsumerFact c (length d.received)) e b.consumer_fact in
        record {
          up = b.up;
          flow = b.flow;
          producer_fact = b.producer_fact;
          consumer_fact = omega arith;
        }

  pub Step-InOrder : {d e : Session S} → Step api d e → InOrder api d → InOrder api e
  Step-InOrder {d} (send_next {i} e small) b = greet_kept d b i e small
  Step-InOrder {d} (send_end e) b = send_end_kept d b e
  Step-InOrder {d} (receive_next {i} e small) b = listen_kept d b i e small
  Step-InOrder {d} (receive_end e) b = receive_end_kept d b e

  pub Runs-InOrder :
      (s : S)
      → Roomy (api.shown s)
      → (api.shown s).items ≡ []
      → {d : Session S} → Runs api (started api s) d
      → InOrder api d
  Runs-InOrder s up empty here = record {
    up = up;
    flow = empty;
    producer_fact = (refl, omega arith);
    consumer_fact = (refl, omega arith);
  }
  Runs-InOrder s up empty (next r step) = Step-InOrder step (Runs-InOrder s up empty r)
