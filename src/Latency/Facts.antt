-- ===== src/Latency/Facts.antt =====
-- Where the one message of the round-trip benchmark is.
use omni_mailbox.Base.{
  ℕ, ◌≤◌, ◌<◌, ◌≡◌, sym, ◌∙◌, Bool, true, false, Option, none, some, List, [], ◌∷◌, arith,
}
use omni_mailbox.Fifo.{Fifo, admits}
use omni_mailbox.Channel.Api.{ChannelApi}
use omni_mailbox.Latency.{
  payload, Loop, pinging, awaiting, stopping, joining, over, Responder, echoing, stopped, Bench,
}

-- Both ends live, the payload fits into a slot and a message into the queue.
pub record Ready (f : Fifo) : Type 0 where
  pub producer_up : f.producer_alive ≡ true
  pub consumer_up : f.consumer_alive ≡ true
  pub large : 64 ≤ f.limit
  pub deep : 0 < f.room

pub payload_fits : (limit : ℕ) → 64 ≤ limit → admits limit payload ≡ true
unfolding payload
payload_fits limit h = ground arith

abbrev pub is_awaiting : Loop → Bool
is_awaiting (awaiting i) = true
is_awaiting _ = false

abbrev pub held : Responder → Option (List ℕ)
held (echoing m) = some m
held _ = none

-- Whether a pong is awaited, what the ping channel stores, what the responder holds, and what the
-- pong channel stores.
pub data InFlight (away : Bool) (ping : List (List ℕ)) (kept : Option (List ℕ))
    (pong : List (List ℕ)) : Type 0 where
  at_rest : away ≡ false → ping ≡ [] → kept ≡ none → pong ≡ [] → InFlight away ping kept pong
  sent : away ≡ true → ping ≡ payload ∷ [] → kept ≡ none → pong ≡ [] → InFlight away ping kept pong
  caught : away ≡ true → ping ≡ [] → kept ≡ some payload → pong ≡ [] → InFlight away ping kept pong
  answered :
      away ≡ true → ping ≡ [] → kept ≡ none → pong ≡ payload ∷ [] → InFlight away ping kept pong

module _ {a : Bool} {p q : List (List ℕ)} {k : Option (List ℕ)} where
  pub same_flight :
      {a' : Bool} {p' q' : List (List ℕ)} {k' : Option (List ℕ)}
      → InFlight a p k q
      → a' ≡ a
      → p' ≡ p
      → k' ≡ k
      → q' ≡ q
      → InFlight a' p' k' q'
  same_flight (at_rest w x y z) ea ep ek eq = at_rest (ea ∙ w) (ep ∙ x) (ek ∙ y) (eq ∙ z)
  same_flight (sent w x y z) ea ep ek eq = sent (ea ∙ w) (ep ∙ x) (ek ∙ y) (eq ∙ z)
  same_flight (caught w x y z) ea ep ek eq = caught (ea ∙ w) (ep ∙ x) (ek ∙ y) (eq ∙ z)
  same_flight (answered w x y z) ea ep ek eq = answered (ea ∙ w) (ep ∙ x) (ek ∙ y) (eq ∙ z)

  pub at_home : InFlight a p k q → a ≡ false → (p ≡ []) × (k ≡ none) × (q ≡ [])
  at_home (at_rest w x y z) e = (x, y, z)
  at_home (sent w x y z) e = absurd (let t = sym w ∙ e in cc)
  at_home (caught w x y z) e = absurd (let t = sym w ∙ e in cc)
  at_home (answered w x y z) e = absurd (let t = sym w ∙ e in cc)

  pub at_responder :
      InFlight a p k q
      → {m : List ℕ} → k ≡ some m
      → (a ≡ true) × (p ≡ []) × (m ≡ payload) × (q ≡ [])
  at_responder (at_rest w x y z) e = absurd (let t = sym y ∙ e in cc)
  at_responder (sent w x y z) e = absurd (let t = sym y ∙ e in cc)
  at_responder (caught w x y z) e = let t = sym e ∙ y in (w, x, cc, z)
  at_responder (answered w x y z) e = absurd (let t = sym y ∙ e in cc)

  pub on_ping :
      InFlight a p k q
      → {x : List ℕ} {xs : List (List ℕ)} → p ≡ x ∷ xs
      → (a ≡ true) × (x ≡ payload) × (xs ≡ []) × (q ≡ [])
  on_ping (at_rest w x y z) e = absurd (let t = sym x ∙ e in cc)
  on_ping (sent w x y z) e = let t = sym e ∙ x in (w, cc, cc, z)
  on_ping (caught w x y z) e = absurd (let t = sym x ∙ e in cc)
  on_ping (answered w x y z) e = absurd (let t = sym x ∙ e in cc)

  pub on_pong :
      InFlight a p k q
      → {x : List ℕ} {xs : List (List ℕ)} → q ≡ x ∷ xs
      → (p ≡ []) × (k ≡ none) × (x ≡ payload) × (xs ≡ [])
  on_pong (at_rest w x y z) e = absurd (let t = sym z ∙ e in cc)
  on_pong (sent w x y z) e = absurd (let t = sym z ∙ e in cc)
  on_pong (caught w x y z) e = absurd (let t = sym z ∙ e in cc)
  on_pong (answered w x y z) e = let t = sym e ∙ z in (x, y, cc, cc)

-- What the loop's place says of the iterations and of the flag.
abbrev pub LoopFact : ℕ → Loop → ℕ → Bool → Type 0
LoopFact n (pinging i) k flag = (k ≡ i) × (i ≤ n) × (flag ≡ true)
LoopFact n (awaiting i) k flag = (k ≡ i) × (i < n) × (flag ≡ true)
LoopFact n stopping k flag = (k ≡ n) × (flag ≡ true)
LoopFact n joining k flag = (k ≡ n) × (flag ≡ false)
LoopFact n over k flag = (k ≡ n) × (flag ≡ false)

abbrev pub ResponderFact : Responder → Bool → Type 0
ResponderFact stopped flag = flag ≡ false
ResponderFact _ flag = Unit {0}

module _ {S : Type 0} (api : ChannelApi S) (n : ℕ) where
  abbrev pub Flight : Bench S → Type 0
  Flight d =
      InFlight (is_awaiting d.loop) (api.shown d.ping).items (held d.responder)
        (api.shown d.pong).items

  pub record Steady (d : Bench S) : Type 0 where
    pub ping_up : Ready (api.shown d.ping)
    pub pong_up : Ready (api.shown d.pong)
    pub flight : Flight d
    pub unskipped : d.skipped ≡ false
    pub loop_fact : LoopFact n d.loop d.iterations d.responder_running
    pub responder_fact : ResponderFact d.responder d.responder_running
