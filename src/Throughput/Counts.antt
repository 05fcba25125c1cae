-- ===== src/Throughput/Counts.antt =====
-- What the throughput benchmark reports, against what was pushed and consumed.
use mathlib.Core.Path.{subst}
use omni_mailbox.Base.{
  ℕ, ◌+◌, ◌*◌, ◌≤◌, ◌<◌, ◌≡◌, refl, ap, ◌∙◌, [], ◌∷◌, length, length-append, arith, replicate,
}
use omni_mailbox.Channel.Api.{ChannelApi}
use omni_mailbox.Channel.Answers.{push_answers, pop_answers, was_full, stored, was_empty, taken}
use omni_mailbox.Throughput.{
  ProducerThread, pushing, joining, reported, Trial, push_round, after_push, pop_round, after_pop,
  Step, push, stop, join, test, pop, Runs, here, next, started,
}
use omni_mailbox.Throughput.Facts.{Ready, payload_fits, ProducerFact, Counted}

module _ {S : Type 0} (api : ChannelApi S) (size n room : ℕ) where
  module _ (d : Trial S) (b : Counted api size n room d) where
    fact_at :
        (p : ProducerThread)
        → d.producer ≡ p
        → ProducerFact p n size (d.succeeded + d.paused) d.items_processed d.bytes_processed
    fact_at p e =
        subst
          (λ p. ProducerFact p n size (d.succeeded + d.paused) d.items_processed d.bytes_processed)
          e b.producer_fact

    push_kept :
        (i : ℕ)
        → 0 < size
        → d.producer ≡ pushing i
        → i < n
        → Counted api size n room (push_round api size i d)
    unfolding push_round after_push
    push_kept i pos e small =
        let (count, _) = fact_at (pushing i) e in
        elim (push_answers api (replicate size 0xAB) d.channel
          (payload_fits size (api.shown d.channel).limit pos b.up.large) b.up.consumer_up) [
            | was_full full code same ↦ rw code (record {
              up = rw same b.up;
              same_room = rw same b.same_room;
              within = rw same b.within;
              balance = rw same b.balance;
              producer_fact = (omega arith, omega arith);
            })
            | stored free code same ↦
                let more = length-append (api.shown d.channel).items (replicate size 0xAB ∷ []) in
                rw code (record {
                  up = rw same (record {
                    producer_up = b.up.producer_up;
                    consumer_up = b.up.consumer_up;
                    large = b.up.large;
                  });
                  same_room = rw same b.same_room;
                  within = rw same (omega (arith, more, b.within, b.same_room, free));
                  balance = rw same (omega (arith, more, b.balance));
                  producer_fact = (omega arith, omega arith);
                })
          ]

    pop_kept : Counted api size n room (pop_round api d)
    unfolding pop_round after_pop
    pop_kept = elim (pop_answers api d.channel b.up.producer_up) [
      | was_empty nothing code message same ↦ rw code (record {
        up = rw same b.up;
        same_room = rw same b.same_room;
        within = rw same b.within;
        balance = rw same b.balance;
        producer_fact = b.producer_fact;
      })
      | taken x xs found code message same ↦
          let one = ap length found in
          rw code (record {
            up = rw same (record {
              producer_up = b.up.producer_up;
              consumer_up = b.up.consumer_up;
              large = b.up.large;
            });
            same_room = rw same b.same_room;
            within = rw same (omega (arith, one, b.within));
            balance = rw same (omega (arith, one, b.balance));
            producer_fact = b.producer_fact;
          })
    ]

  Step-Counted :
      {d e : Trial S}
      → 0 < size
      → Step api size n d e
      → Counted api size n room d
      → Counted api size n room e
  Step-Counted {d} pos (push {i} e small) b = push_kept d b i pos e small
  Step-Counted {d} pos (stop e) b =
      let (count, _) = fact_at d b (pushing n) e in
      record {
        up = b.up;
        same_room = b.same_room;
        within = b.within;
        balance = b.balance;
        producer_fact = count;
      }
  Step-Counted {d} pos (join e over) b = record {
    up = b.up;
    same_room = b.same_room;
    within = b.within;
    balance = b.balance;
    producer_fact = (fact_at d b joining e, refl, refl);
  }
  Step-Counted {d} pos (test e) b = record {
    up = b.up;
    same_room = b.same_room;
    within = b.within;
    balance = b.balance;
    producer_fact = b.producer_fact;
  }
  Step-Counted {d} pos (pop e) b = pop_kept d b

  Runs-Counted :
      {d e : Trial S}
      → 0 < size
      → Counted api size n room d
      → Runs api size n d e
      → Counted api size n room e
  Runs-Counted pos b here = b
  Runs-Counted pos b (next r step) = Step-Counted pos step (Runs-Counted pos b r)

-- On a channel that keeps the laws of the bounded queue, starts empty with both ends alive and takes
-- messages of the size that is measured: however the threads of the throughput benchmark are
-- interleaved, when it has reported, the messages that it reports as processed are those consumed,
-- those still stored, as many as there is room at most, and the calls of `TryPush` that failed; it
-- reports the bytes of all of these.
pub throughput_counts :
    {S : Type 0} (api : ChannelApi S) (size n : ℕ) (s : S) (d : Trial S)
    → 0 < size
    → Ready size (api.shown s)
    → (api.shown s).items ≡ []
    → Runs api size n (started api s) d
    → d.producer ≡ reported
    → (d.items_processed ≡ d.messages_consumed + length (api.shown d.channel).items + d.paused)
      × (length (api.shown d.channel).items ≤ (api.shown s).room)
      × (d.bytes_processed
          ≡ (d.messages_consumed + length (api.shown d.channel).items + d.paused) * size)
throughput_counts api size n s d pos up empty r e =
    let b =
      Runs-Counted api size n (api.shown s).room pos
        (record {
          up = up;
          same_room = refl;
          within = omega (arith, ap length empty);
          balance = omega (arith, ap length empty);
          producer_fact = (refl, omega arith);
        })
        r in
    let (calls, items, bytes) = fact_at api size n (api.shown s).room d b reported e in
    let all : n ≡ d.messages_consumed + length (api.shown d.channel).items + d.paused =
      omega (arith, b.balance) in
    (items ∙ all, b.within, bytes ∙ ap (λ k. k * size) all)
