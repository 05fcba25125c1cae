-- ===== src/Latency/Flight.antt =====
-- A step of either thread of the round-trip benchmark keeps its one message where it belongs.
use mathlib.Core.Path.{subst}
use omni_mailbox.Base.{
  ℕ, ◌<◌, ◌≡◌, refl, sym, ap, ◌∙◌, Bool, false, none, some, List, [], ◌∷◌, ◌++◌, length, arith,
}
use omni_mailbox.Fifo.{Fifo}
use omni_mailbox.Channel.Api.{ChannelApi}
use omni_mailbox.Channel.Answers.{push_answers, pop_answers, was_full, stored, was_empty, taken}
use omni_mailbox.Latency.{
  payload, Loop, pinging, awaiting, Responder, popping, echoing, Bench, send_ping, after_pong,
  take_pong, after_ping, take_ping, echo,
}
use omni_mailbox.Latency.Facts.{
  Ready, payload_fits, same_flight, at_home, at_responder, on_ping, on_pong, is_awaiting, held,
  at_rest, sent, caught, answered, LoopFact, ResponderFact, Steady,
}

-- A queue with other messages.
left_over : (f : Fifo) (xs : List (List ℕ)) → Ready f → Ready (record f { items = xs })
left_over f xs up = record {
  producer_up = up.producer_up;
  consumer_up = up.consumer_up;
  large = up.large;
  deep = up.deep;
}

module _ {S : Type 0} (api : ChannelApi S) (n : ℕ) where
  -- A push of the payload on an empty queue stores it.
  pub push_stores :
      (s : S)
      → Ready (api.shown s)
      → (api.shown s).items ≡ []
      → Ready (api.shown (api.push payload s).1)
        × ((api.shown (api.push payload s).1).items ≡ payload ∷ [])
  push_stores s up none_stored =
      elim (push_answers api payload s (payload_fits (api.shown s).limit up.large) up.consumer_up) [
        | was_full full code same ↦ absurd (omega (arith, full, up.deep, ap length none_stored))
        | stored room code same ↦
            rw same (
              left_over (api.shown s) ((api.shown s).items ++ payload ∷ []) up,
              rw none_stored refl,
            )
      ]

  module _ (d : Bench S) (b : Steady api n d) where
    pub send_kept : (i : ℕ) → d.loop ≡ pinging i → i < n → Steady api n (send_ping api i d)
    unfolding send_ping
    send_kept i e small =
        let (count, _, flag) =
          subst (λ l. LoopFact n l d.iterations d.responder_running) e b.loop_fact in
        let (ping, kept, pong) = at_home b.flight (ap is_awaiting e) in
        let (up, one) = push_stores d.ping b.ping_up ping in
        record {
          ping_up = up;
          pong_up = b.pong_up;
          flight = sent refl one kept pong;
          unskipped = b.unskipped;
          loop_fact = (count, small, flag);
          responder_fact = b.responder_fact;
        }

    pub receive_kept : (i : ℕ) → d.loop ≡ awaiting i → Steady api n (take_pong api i d)
    unfolding take_pong after_pong
    receive_kept i e =
        let (count, small, flag) =
          subst (λ l. LoopFact n l d.iterations d.responder_running) e b.loop_fact in
        elim (pop_answers api d.pong b.pong_up.producer_up) [
          | was_empty nothing code message same ↦ rw code (record {
            ping_up = b.ping_up;
            pong_up = rw same b.pong_up;
            flight = same_flight b.flight refl refl refl (ap (λ (f : Fifo). f.items) same);
            unskipped = b.unskipped;
            loop_fact = b.loop_fact;
            responder_fact = b.responder_fact;
          })
          | taken x xs found code message same ↦
              let (ping, kept, _, last) = on_pong b.flight found in
              rw code (record {
                ping_up = b.ping_up;
                pong_up = rw same (left_over (api.shown d.pong) xs b.pong_up);
                flight = at_rest refl ping kept (ap (λ (f : Fifo). f.items) same ∙ last);
                unskipped = b.unskipped;
                loop_fact = (omega arith, omega arith, flag);
                responder_fact = b.responder_fact;
              })
        ]

    pub pop_kept : d.responder ≡ popping → Steady api n (take_ping api d)
    unfolding take_ping after_ping
    pop_kept e = elim (pop_answers api d.ping b.ping_up.producer_up) [
      | was_empty nothing code message same ↦ rw code (record {
        ping_up = rw same b.ping_up;
        pong_up = b.pong_up;
        flight = same_flight b.flight refl (ap (λ (f : Fifo). f.items) same) (sym (ap held e)) refl;
        unskipped = b.unskipped;
        loop_fact = b.loop_fact;
        responder_fact = tt;
      })
      | taken x xs found code message same ↦
          let (away, it, last, pong) = on_ping b.flight found in
          rw (code, message)
            (record {
              ping_up = rw same (left_over (api.shown d.ping) xs b.ping_up);
              pong_up = b.pong_up;
              flight = caught away (ap (λ (f : Fifo). f.items) same ∙ last) (ap some it) pong;
              unskipped = b.unskipped;
              loop_fact = b.loop_fact;
              responder_fact = tt;
            })
    ]

    pub answer_kept : (m : List ℕ) → d.responder ≡ echoing m → Steady api n (echo api m d)
    unfolding echo
    answer_kept m e =
        let (away, ping, it, pong) = at_responder b.flight (ap held e) in
        rw it (
          let (up, one) = push_stores d.pong b.pong_up pong in
          record {
            ping_up = b.ping_up;
            pong_up = up;
            flight = answered away ping refl one;
            unskipped = b.unskipped;
            loop_fact = b.loop_fact;
            responder_fact = tt;
          })

    -- A step that moves a thread and leaves the channels.
    pub loop_moves :
        (l : Loop) (flag : Bool)
        → is_awaiting d.loop ≡ false
        → is_awaiting l ≡ false
        → LoopFact n l d.iterations flag
        → ResponderFact d.responder flag
        → Steady api n (record d { loop = l; responder_running = flag })
    loop_moves l flag was is fact responder = record {
      ping_up = b.ping_up;
      pong_up = b.pong_up;
      flight = same_flight b.flight (is ∙ sym was) refl refl refl;
      unskipped = b.unskipped;
      loop_fact = fact;
      responder_fact = responder;
    }

    pub responder_moves :
        (r : Responder)
        → held d.responder ≡ none
        → held r ≡ none
        → ResponderFact r d.responder_running
        → Steady api n (record d { responder = r })
    responder_moves r was is fact = record {
      ping_up = b.ping_up;
      pong_up = b.pong_up;
      flight = same_flight b.flight refl refl (is ∙ sym was) refl;
      unskipped = b.unskipped;
      loop_fact = b.loop_fact;
      responder_fact = fact;
    }
