-- ===== src/Backpressure/Rounds.antt =====
-- A round of either thread keeps the counters in balance.
use mathlib.Core.Path.{subst}
use omni_mailbox.Base.{
  ℕ, ◌+◌, ◌<◌, ◌≡◌, inl, inr, sym, ap, ◌∙◌, true, [], ◌∷◌, length, length-append, ◌==◌, ==→eq,
  arith,
}
use omni_mailbox.Fifo.{Fifo}
use omni_mailbox.Channel.Api.{ChannelApi}
use omni_mailbox.Backpressure.{
  sending, ConsumerThread, popping, stopped, Demo, message, sent, send, received, receive,
}
use omni_mailbox.Backpressure.Facts.{
  message_fits, push_cases, pop_cases, ProducerFact, ConsumerFact, unflagged, Open, Balanced,
}

module _ {S : Type 0} (api : ChannelApi S) where
  module _ (d : Demo S) (b : Balanced api d) where
    -- A round of the producer that was counted one way or the other.
    sent_one :
        (i : ℕ) (s' : S) (sent' dropped' : ℕ)
        → d.producer ≡ sending i
        → i < 50
        → Open (api.shown s')
        → sent' ≡ d.messages_received + length (api.shown s').items
        → sent' + dropped' ≡ d.messages_sent + d.messages_dropped + 1
        → Balanced api (record d {
          channel = s';
          producer = sending (i + 1);
          messages_sent = sent';
          messages_dropped = dropped';
        })
    sent_one i s' sent' dropped' e small up balance counted =
        let (n, _, flag) =
          subst (λ p. ProducerFact p (d.messages_sent + d.messages_dropped) d.producer_finished) e
            b.producer_fact in
        record {
          up = up;
          balance = balance;
          producer_fact = (omega arith, omega arith, flag);
          consumer_fact =
              subst (λ fl. ConsumerFact d.consumer fl (length (api.shown s').items)) (sym flag)
                (unflagged d.consumer _ _ (
                  subst (λ fl. ConsumerFact d.consumer fl (length (api.shown d.channel).items)) flag
                    b.consumer_fact));
        }

    pub send_kept : (i : ℕ) → d.producer ≡ sending i → i < 50 → Balanced api (send api i d)
    unfolding send sent
    send_kept i e small =
        let law = api.push_law (message i) d.channel in
        elim (push_cases (message i) (api.shown d.channel)
          (message_fits i (api.shown d.channel).limit small b.up.large) b.up.consumer_up) [
            | inl full ↦
                let code = ap (λ x. x.0) (law ∙ full) in
                let same = ap (λ x. x.1) (law ∙ full) in
                rw code (
                  sent_one i _ d.messages_sent (d.messages_dropped + 1) e small (rw same b.up)
                    (b.balance ∙ ap (λ (f : Fifo). d.messages_received + length f.items) (sym same))
                    (omega arith))
            | inr room ↦
                let code = ap (λ x. x.0) (law ∙ room) in
                let same = ap (λ x. x.1) (law ∙ room) in
                rw code (
                  sent_one i _ (d.messages_sent + 1) d.messages_dropped e small
                    (rw same (record {
                      producer_up = b.up.producer_up;
                      consumer_up = b.up.consumer_up;
                      large = b.up.large;
                    }))
                    (omega (
                      arith,
                      b.balance,
                      ap (λ (f : Fifo). length f.items) same,
                      length-append (api.shown d.channel).items (message i ∷ []),
                    ))
                    (omega arith))
          ]

    pub receive_kept : d.consumer ≡ popping → Balanced api (receive api d)
    unfolding receive received
    receive_kept e =
        let law = api.pop_law d.channel in
        elim (pop_cases (api.shown d.channel) b.up.producer_up) [
          | inl (nothing, empty) ↦
              let code = ap (λ x. x.0) (law ∙ empty) in
              let same = ap (λ x. x.2) (law ∙ empty) in
              rw code (record {
                up = rw same b.up;
                balance =
                    b.balance ∙ ap (λ (f : Fifo). d.messages_received + length f.items) (sym same);
                producer_fact = b.producer_fact;
                consumer_fact = tt;
              })
          | inr (x, ys, more, found) ↦
              let code = ap (λ x. x.0) (law ∙ found) in
              let same = ap (λ x. x.2) (law ∙ found) in
              rw code (record {
                up = rw same (record {
                  producer_up = b.up.producer_up;
                  consumer_up = b.up.consumer_up;
                  large = b.up.large;
                });
                balance = omega (arith, b.balance, more, ap (λ (f : Fifo). length f.items) same);
                producer_fact = b.producer_fact;
                consumer_fact = tt;
              })
        ]

    -- A step that only moves the consumer.
    pub moved :
        (c : ConsumerThread)
        → ConsumerFact c d.producer_finished (length (api.shown d.channel).items)
        → Balanced api (record d { consumer = c })
    moved c fact = record {
      up = b.up;
      balance = b.balance;
      producer_fact = b.producer_fact;
      consumer_fact = fact;
    }

    -- With the flag up and nothing available the consumer may stop.
    pub nothing_left :
        d.producer_finished ≡ true
        → (api.available d.channel == 0) ≡ true
        → ConsumerFact stopped d.producer_finished (length (api.shown d.channel).items)
    nothing_left up e =
        (up, omega (arith, api.available_law d.channel, ==→eq (api.available d.channel) 0 e))
