-- ===== src/Latency/Progress.antt =====
-- The round-trip benchmark never gets stuck: a pong can always arrive, and every run can end.
use mathlib.Core.Path.{subst}
use omni_mailbox.Base.{ℕ, ◌+◌, ◌≡◌, refl, sym, ap, ◌∙◌, none, some, [], ◌∷◌, if◌then◌else◌}
use omni_mailbox.Channel.Api.{ChannelApi}
use omni_mailbox.Channel.Answers.{pop_answers, was_empty, taken}
use omni_mailbox.Latency.{
  payload, Loop, pinging, awaiting, Responder, checking, popping, echoing, stopped, Bench,
  take_pong, after_pong, take_ping, after_ping, echo, Step, receive, check, pop, answer, Runs, here,
  next,
}
use omni_mailbox.Latency.Facts.{
  is_awaiting, held, at_rest, sent, caught, answered, at_responder, LoopFact, ResponderFact, Steady,
}
use omni_mailbox.Latency.Flight.{push_stores}
use omni_mailbox.Latency.Safety.{Step-Steady}

module _ {S : Type 0} (api : ChannelApi S) (n : ℕ) where
  before : {d e f : Bench S} → Step api n d e → Runs api n e f → Runs api n d f
  before step here = next here step
  before step (next r last) = next (before step r) last

  pub follow : {d e f : Bench S} → Runs api n d e → Runs api n e f → Runs api n d f
  follow r here = r
  follow r (next q last) = next (follow r q) last

  -- A run to a place of the loop's thread.
  abbrev pub Reaches : Bench S → Loop → Type 0
  Reaches d l = (e : Bench S) × Runs api n d e × (e.loop ≡ l)

  pub begins : {d e : Bench S} {l : Loop} → Step api n d e → Reaches e l → Reaches d l
  begins step (e, r, at) = (e, before step r, at)

  take_pong-loop :
      (d : Bench S) (b : Steady api n d) (i : ℕ)
      → (api.shown d.pong).items ≡ payload ∷ []
      → (take_pong api i d).loop ≡ pinging (i + 1)
  unfolding take_pong after_pong
  take_pong-loop d b i there = elim (pop_answers api d.pong b.pong_up.producer_up) [
    | was_empty nothing code message same ↦ absurd (let t = sym nothing ∙ there in cc)
    | taken x xs found code message same ↦ rw code refl
  ]

  take_ping-responder :
      (d : Bench S) (b : Steady api n d)
      → (api.shown d.ping).items ≡ payload ∷ []
      → ((take_ping api d).responder ≡ echoing payload) × ((take_ping api d).loop ≡ d.loop)
  unfolding take_ping after_ping
  take_ping-responder d b there = elim (pop_answers api d.ping b.ping_up.producer_up) [
    | was_empty nothing code message same ↦ absurd (let t = sym nothing ∙ there in cc)
    | taken x xs found code message same ↦
        let it : x ≡ payload = (let t = sym found ∙ there in cc) in
        rw (code, message, it) (refl, refl)
  ]

  from_answered :
      (d : Bench S) (b : Steady api n d) (i : ℕ)
      → d.loop ≡ awaiting i
      → (api.shown d.pong).items ≡ payload ∷ []
      → Reaches d (pinging (i + 1))
  from_answered d b i e there = (_, next here (receive e), take_pong-loop d b i there)

  from_caught :
      (d : Bench S) (b : Steady api n d) (i : ℕ)
      → d.loop ≡ awaiting i
      → d.responder ≡ echoing payload
      → Reaches d (pinging (i + 1))
  unfolding echo
  from_caught d b i e holds =
      let (_, _, _, none_stored) = at_responder b.flight (ap held holds) in
      let (_, one) = push_stores api n d.pong b.pong_up none_stored in
      begins (answer holds)
        (from_answered (echo api payload d) (Step-Steady api n (answer holds) b) i e one)

  from_popping :
      (d : Bench S) (b : Steady api n d) (i : ℕ)
      → d.loop ≡ awaiting i
      → d.responder ≡ popping
      → (api.shown d.ping).items ≡ payload ∷ []
      → Reaches d (pinging (i + 1))
  from_popping d b i e at there =
      let (holds, same) = take_ping-responder d b there in
      begins (pop at)
        (from_caught (take_ping api d) (Step-Steady api n (pop at) b) i (same ∙ e) holds)

  from_checking :
      (d : Bench S) (b : Steady api n d) (i : ℕ)
      → d.loop ≡ awaiting i
      → d.responder ≡ checking
      → (api.shown d.ping).items ≡ payload ∷ []
      → Reaches d (pinging (i + 1))
  from_checking d b i e at there =
      let (_, _, running) =
        subst (λ l. LoopFact n l d.iterations d.responder_running) e b.loop_fact in
      begins (check at) (
        from_popping (record d { responder = if d.responder_running then popping else stopped })
          (Step-Steady api n (check at) b) i e (rw running refl) there)

  -- The ping is stored: the responder, which runs, comes to take it.
  from_sent :
      (d : Bench S) (b : Steady api n d) (i : ℕ) (r : Responder)
      → d.responder ≡ r
      → d.loop ≡ awaiting i
      → held r ≡ none
      → ResponderFact r d.responder_running
      → (api.shown d.ping).items ≡ payload ∷ []
      → Reaches d (pinging (i + 1))
  from_sent d b i checking at e free fact there = from_checking d b i e at there
  from_sent d b i popping at e free fact there = from_popping d b i e at there
  from_sent d b i (echoing m) at e free fact there = absurd (cc)
  from_sent d b i stopped at e free fact there =
      let (_, _, running) =
        subst (λ l. LoopFact n l d.iterations d.responder_running) e b.loop_fact in
      absurd (cc)

  caught_at :
      (d : Bench S) (b : Steady api n d) (i : ℕ) (r : Responder)
      → d.responder ≡ r
      → d.loop ≡ awaiting i
      → held r ≡ some payload
      → Reaches d (pinging (i + 1))
  caught_at d b i checking at e holds = absurd (cc)
  caught_at d b i popping at e holds = absurd (cc)
  caught_at d b i (echoing m) at e holds =
      let it : m ≡ payload = cc in from_caught d b i e (at ∙ ap echoing it)
  caught_at d b i stopped at e holds = absurd (cc)

  pub pong_arrives :
      (d : Bench S) (b : Steady api n d) (i : ℕ) → d.loop ≡ awaiting i → Reaches d (pinging (i + 1))
  pong_arrives d b i e = elim b.flight [
    | at_rest away _ _ _ ↦ absurd (let t = ap is_awaiting e in cc)
    | sent away ping free pong ↦ from_sent d b i d.responder refl e free b.responder_fact ping
    | caught away ping holds pong ↦ caught_at d b i d.responder refl e holds
    | answered away ping free pong ↦ from_answered d b i e pong
  ]
