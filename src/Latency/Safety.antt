-- ===== src/Latency/Safety.antt =====
-- Never more than one message is under way in the round-trip benchmark, and no call on it fails.
use mathlib.Core.Path.{subst}
use omni_mailbox.Base.{ℕ, ◌≤◌, ◌≡◌, refl, ap, Bool, true, false, [], if◌then◌else◌, arith}
use omni_mailbox.Channel.Api.{ChannelApi}
use omni_mailbox.Latency.{
  Loop, pinging, awaiting, stopping, joining, over, Responder, checking, popping, echoing, stopped,
  Bench, Step, send, receive, finish, stop, join, check, pop, answer, Runs, here, next, started,
}
use omni_mailbox.Latency.Facts.{
  Ready, is_awaiting, held, InFlight, at_rest, LoopFact, ResponderFact, Steady,
}
use omni_mailbox.Latency.Flight.{
  send_kept, receive_kept, pop_kept, answer_kept, loop_moves, responder_moves,
}

lowered : (r : Responder) (flag : Bool) → ResponderFact r flag → ResponderFact r false
lowered checking flag h = tt
lowered popping flag h = tt
lowered (echoing m) flag h = tt
lowered stopped flag h = refl

module _ {S : Type 0} (api : ChannelApi S) (n : ℕ) where
  check_kept :
      (d : Bench S) (b : Steady api n d) (flag : Bool)
      → d.responder ≡ checking
      → d.responder_running ≡ flag
      → Steady api n (record d { responder = if flag then popping else stopped })
  check_kept d b true e running = responder_moves api n d b popping (ap held e) refl tt
  check_kept d b false e running = responder_moves api n d b stopped (ap held e) refl running

  pub Step-Steady : {d e : Bench S} → Step api n d e → Steady api n d → Steady api n e
  Step-Steady {d} (send {i} e small) b = send_kept api n d b i e small
  Step-Steady {d} (receive {i} e) b = receive_kept api n d b i e
  Step-Steady {d} (finish e) b =
      let (count, _, flag) =
        subst (λ l. LoopFact n l d.iterations d.responder_running) e b.loop_fact in
      loop_moves api n d b stopping d.responder_running (ap is_awaiting e) refl (count, flag)
        b.responder_fact
  Step-Steady {d} (stop e) b =
      let (count, flag) =
        subst (λ l. LoopFact n l d.iterations d.responder_running) e b.loop_fact in
      loop_moves api n d b joining false (ap is_awaiting e) refl (count, refl)
        (lowered d.responder d.responder_running b.responder_fact)
  Step-Steady {d} (join e ended) b =
      let (count, flag) =
        subst (λ l. LoopFact n l d.iterations d.responder_running) e b.loop_fact in
      loop_moves api n d b over d.responder_running (ap is_awaiting e) refl (count, flag)
        b.responder_fact
  Step-Steady {d} (check e) b = check_kept d b d.responder_running e refl
  Step-Steady {d} (pop e) b = pop_kept api n d b e
  Step-Steady {d} (answer {m} e) b = answer_kept api n d b m e

  pub Runs-Steady : {d e : Bench S} → Steady api n d → Runs api n d e → Steady api n e
  Runs-Steady b here = b
  Runs-Steady b (next r step) = Step-Steady step (Runs-Steady b r)

  pub started-Steady :
      (s t : S)
      → Ready (api.shown s)
      → Ready (api.shown t)
      → (api.shown s).items ≡ []
      → (api.shown t).items ≡ []
      → Steady api n (started api s t)
  started-Steady s t ping_up pong_up ping pong = record {
    ping_up = ping_up;
    pong_up = pong_up;
    flight = at_rest refl ping refl pong;
    unskipped = refl;
    loop_fact = (refl, omega arith, refl);
    responder_fact = tt;
  }

  timed : (l : Loop) (k : ℕ) (flag : Bool) → LoopFact n l k flag → k ≤ n
  timed (pinging i) k flag (count, most, _) = omega arith
  timed (awaiting i) k flag (count, small, _) = omega arith
  timed stopping k flag (count, _) = omega arith
  timed joining k flag (count, _) = omega arith
  timed over k flag (count, _) = omega arith

  -- On two channels that keep the laws of the bounded queue, start empty with both ends alive and
  -- take the payload: however the threads of the round-trip benchmark are interleaved, the payload
  -- is stored once in one of the channels or held by the responder while a pong is awaited, and at
  -- other times nothing is stored or held; `SkipWithError` is never called; and no more iterations
  -- are timed than there are.
  pub one_in_flight :
      (s t : S) (d : Bench S)
      → Ready (api.shown s)
      → Ready (api.shown t)
      → (api.shown s).items ≡ []
      → (api.shown t).items ≡ []
      → Runs api n (started api s t) d
      → InFlight
          (is_awaiting d.loop)
          (api.shown d.ping).items
          (held d.responder)
          (api.shown d.pong).items
        × (d.skipped ≡ false)
        × (d.iterations ≤ n)
  one_in_flight s t d ping_up pong_up ping pong r =
      let b = Runs-Steady (started-Steady s t ping_up pong_up ping pong) r in
      (b.flight, b.unskipped, timed d.loop d.iterations d.responder_running b.loop_fact)
