-- ===== src/Latency/Ends.antt =====
-- Every run of the round-trip benchmark can be carried to its end.
use mathlib.Core.Path.{subst}
use omni_mailbox.Base.{
  ℕ, zero, suc, ◌+◌, ◌-◌, ◌<◌, ◌≡◌, refl, sym, ap, ◌∙◌, false, [], if◌then◌else◌, arith,
}
use omni_mailbox.Channel.Api.{ChannelApi}
use omni_mailbox.Channel.Answers.{pop_answers, was_empty, taken}
use omni_mailbox.Latency.{
  Loop, pinging, awaiting, stopping, joining, over, Responder, checking, popping, echoing, stopped,
  Bench, take_ping, after_ping, send_ping, send, finish, stop, join, check, pop, Runs, here, next,
  started,
}
use omni_mailbox.Latency.Facts.{Ready, is_awaiting, held, at_home, LoopFact, Steady}
use omni_mailbox.Latency.Safety.{Step-Steady, Runs-Steady, started-Steady}
use omni_mailbox.Latency.Progress.{Reaches, begins, follow, pong_arrives}

module _ {S : Type 0} (api : ChannelApi S) (n : ℕ) where
  from_stopped : (d : Bench S) → d.loop ≡ joining → d.responder ≡ stopped → Reaches api n d over
  from_stopped d e at = (_, next here (join e at), refl)

  joining_checks :
      (d : Bench S) (b : Steady api n d)
      → d.loop ≡ joining
      → d.responder ≡ checking
      → Reaches api n d over
  joining_checks d b e at =
      let (_, down) = subst (λ l. LoopFact n l d.iterations d.responder_running) e b.loop_fact in
      begins api n (check at) (
        from_stopped (record d { responder = if d.responder_running then popping else stopped }) e
          (rw down refl))

  take_ping-none :
      (d : Bench S) (b : Steady api n d)
      → (api.shown d.ping).items ≡ []
      → ((take_ping api d).responder ≡ checking) × ((take_ping api d).loop ≡ d.loop)
  unfolding take_ping after_ping
  take_ping-none d b none_stored = elim (pop_answers api d.ping b.ping_up.producer_up) [
    | was_empty nothing code message same ↦ rw code (refl, refl)
    | taken x xs found code message same ↦ absurd (let t = sym none_stored ∙ found in cc)
  ]

  from_joining :
      (d : Bench S) (b : Steady api n d) (r : Responder)
      → d.responder ≡ r
      → d.loop ≡ joining
      → Reaches api n d over
  from_joining d b checking at e = joining_checks d b e at
  from_joining d b popping at e =
      let (none_stored, _, _) = at_home b.flight (ap is_awaiting e) in
      let (checks, same) = take_ping-none d b none_stored in
      begins api n (pop at)
        (joining_checks (take_ping api d) (Step-Steady api n (pop at) b) (same ∙ e) checks)
  from_joining d b (echoing m) at e =
      let (_, free, _) = at_home b.flight (ap is_awaiting e) in
      absurd (let t = sym (ap held at) ∙ free in cc)
  from_joining d b stopped at e = from_stopped d e at

  from_stopping : (d : Bench S) (b : Steady api n d) → d.loop ≡ stopping → Reaches api n d over
  from_stopping d b e = begins api n (stop e) (
      from_joining (record d { loop = joining; responder_running = false })
        (Step-Steady api n (stop e) b) d.responder refl refl)

  -- One place of the loop's thread after another.
  then_reaches :
      {d : Bench S} {l m : Loop} (b : Steady api n d)
      → Reaches api n d l
      → ((e : Bench S) → Steady api n e → e.loop ≡ l → Reaches api n e m)
      → Reaches api n d m
  then_reaches b (e, r, at) onward =
      let (f, q, there) = onward e (Runs-Steady api n b r) at in (f, follow api n r q, there)

  from_pinging :
      (k i : ℕ)
      → i + k ≡ n
      → (d : Bench S) (b : Steady api n d) → d.loop ≡ pinging i
      → Reaches api n d over
  unfolding send_ping
  from_pinging zero i left d b e =
      let last = e ∙ ap pinging (let t : i ≡ n = omega arith in t) in
      begins api n (finish last)
        (from_stopping (record d { loop = stopping }) (Step-Steady api n (finish last) b) refl)
  from_pinging (suc k) i left d b e =
      let small : i < n = omega arith in
      let c = Step-Steady api n (send e small) b in
      begins api n (send e small) (
        then_reaches c (pong_arrives api n (send_ping api i d) c i refl)
          (from_pinging k (i + 1) (omega arith)))

  from_anywhere :
      (d : Bench S) (b : Steady api n d) (l : Loop)
      → d.loop ≡ l
      → LoopFact n l d.iterations d.responder_running
      → Reaches api n d over
  from_anywhere d b (pinging i) e (_, most, _) = from_pinging (n - i) i (omega arith) d b e
  from_anywhere d b (awaiting i) e (_, small, _) =
      then_reaches b (pong_arrives api n d b i e) (from_pinging (n - (i + 1)) (i + 1) (omega arith))
  from_anywhere d b stopping e fact = from_stopping d b e
  from_anywhere d b joining e fact = from_joining d b d.responder refl e
  from_anywhere d b over e fact = (d, here, e)

  -- On two channels that keep the laws of the bounded queue, start empty with both ends alive and
  -- take the payload: whatever the threads of the round-trip benchmark have done, they can go on to
  -- its end, with all iterations timed, `SkipWithError` never called and nothing left in the
  -- channels.
  pub benchmark_ends :
      (s t : S) (d : Bench S)
      → Ready (api.shown s)
      → Ready (api.shown t)
      → (api.shown s).items ≡ []
      → (api.shown t).items ≡ []
      → Runs api n (started api s t) d
      → (e : Bench S) × Runs api n d e
        × (e.loop ≡ over)
        × (e.iterations ≡ n)
        × (e.skipped ≡ false)
        × ((api.shown e.ping).items ≡ [])
        × ((api.shown e.pong).items ≡ [])
  benchmark_ends s t d ping_up pong_up ping pong r =
      let b = Runs-Steady api n (started-Steady api n s t ping_up pong_up ping pong) r in
      let (e, q, at) = from_anywhere d b d.loop refl b.loop_fact in
      let c = Runs-Steady api n b q in
      let (count, _) = subst (λ l. LoopFact n l e.iterations e.responder_running) at c.loop_fact in
      let (no_ping, _, no_pong) = at_home c.flight (ap is_awaiting at) in
      (e, q, at, count, c.unskipped, no_ping, no_pong)
