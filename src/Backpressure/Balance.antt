-- ===== src/Backpressure/Balance.antt =====
-- No message of the demonstration is lost between its threads.
use mathlib.Core.Path.{subst}
use omni_mailbox.Base.{ℕ, ◌+◌, ◌≡◌, refl, ap, true, [], length, ◌==◌, arith}
use omni_mailbox.Channel.Api.{ChannelApi}
use omni_mailbox.Backpressure.{
  ProducerThread, sending, leaving, finished, testing, popping, stopped, Demo, Step, send_next,
  send_last, finish, test, count, pop_next, retest, recount, Runs, here, next, started,
}
use omni_mailbox.Backpressure.Facts.{ProducerFact, ConsumerFact, flagged, by_test, Open, Balanced}
use omni_mailbox.Backpressure.Rounds.{send_kept, receive_kept, moved, nothing_left}

module _ {S : Type 0} (api : ChannelApi S) where
  pub Step-Balanced : {d e : Demo S} → Step api d e → Balanced api d → Balanced api e
  Step-Balanced {d} (send_next {i} e small) b = send_kept api d b i e small
  Step-Balanced {d} (send_last e) b =
      let (n, _, flag) =
        subst (λ p. ProducerFact p (d.messages_sent + d.messages_dropped) d.producer_finished) e
          b.producer_fact in
      record {
        up = b.up;
        balance = b.balance;
        producer_fact = (n, flag);
        consumer_fact = b.consumer_fact;
      }
  Step-Balanced {d} (finish e) b =
      let (n, flag) =
        subst (λ p. ProducerFact p (d.messages_sent + d.messages_dropped) d.producer_finished) e
          b.producer_fact in
      record {
        up = b.up;
        balance = b.balance;
        producer_fact = (n, refl);
        consumer_fact = flagged d.consumer _ (
            subst (λ fl. ConsumerFact d.consumer fl (length (api.shown d.channel).items)) flag
              b.consumer_fact);
      }
  Step-Balanced {d} (test e) b = moved api d b _ (by_test d.producer_finished _ _ _ _ (λ up. up) tt)
  Step-Balanced {d} (count e) b =
      let up =
        subst (λ c. ConsumerFact c d.producer_finished (length (api.shown d.channel).items)) e
          b.consumer_fact in
      moved api d b _
        (by_test (api.available d.channel == 0) _ _ stopped popping (nothing_left api d b up) tt)
  Step-Balanced {d} (pop_next e) b = receive_kept api d b e
  Step-Balanced {d} (retest e) b =
      moved api d b _ (by_test d.producer_finished _ _ _ _ (λ up. up) tt)
  Step-Balanced {d} (recount e) b =
      let up =
        subst (λ c. ConsumerFact c d.producer_finished (length (api.shown d.channel).items)) e
          b.consumer_fact in
      moved api d b _
        (by_test (api.available d.channel == 0) _ _ stopped testing (nothing_left api d b up) tt)

  pub Runs-Balanced :
      (s : S)
      → Open (api.shown s)
      → (api.shown s).items ≡ []
      → {d : Demo S} → Runs api (started api s) d
      → Balanced api d
  Runs-Balanced s up empty here = record {
    up = up;
    balance = omega (arith, ap length empty);
    producer_fact = (refl, omega arith, refl);
    consumer_fact = tt;
  }
  Runs-Balanced s up empty (next r step) = Step-Balanced step (Runs-Balanced s up empty r)

all_dealt : (p : ProducerThread) (n : ℕ) → ProducerFact p n true → (p ≡ finished) × (n ≡ 50)
all_dealt (sending i) n (e, small, down) = absurd (ground arith)
all_dealt leaving n (e, down) = absurd (ground arith)
all_dealt finished n (e, up) = (refl, e)

-- On a channel that keeps the laws of the bounded queue, starts empty with both ends alive and
-- takes messages of 11 bytes: however the threads of the backpressure demonstration are
-- interleaved, when the consumer has stopped, the producer has finished, nothing is stored, as many
-- messages were received as were sent, and the messages sent and those dropped are 50.
pub nothing_lost :
    {S : Type 0} (api : ChannelApi S) (s : S) (d : Demo S)
    → Open (api.shown s)
    → (api.shown s).items ≡ []
    → Runs api (started api s) d
    → d.consumer ≡ stopped
    → (d.producer ≡ finished)
      × (length (api.shown d.channel).items ≡ 0)
      × (d.messages_received ≡ d.messages_sent)
      × (d.messages_sent + d.messages_dropped ≡ 50)
nothing_lost api s d up empty r e =
    let b = Runs-Balanced api s up empty r in
    let (flag, left) =
      subst (λ c. ConsumerFact c d.producer_finished (length (api.shown d.channel).items)) e
        b.consumer_fact in
    let (over, dealt) = all_dealt d.producer (d.messages_sent + d.messages_dropped) (
      subst (ProducerFact d.producer (d.messages_sent + d.messages_dropped)) flag
        b.producer_fact) in
    (over, left, omega (arith, b.balance, left), dealt)
