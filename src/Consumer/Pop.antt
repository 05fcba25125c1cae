-- ===== src/Consumer/Pop.antt =====
-- `TryPop` and the loop of `BatchPop` against `Fifo.pop`.
use native.Mathlib.Decide.{ℕ_discrete}
use omni_mailbox.Base.{
  ℕ, ◌+◌, ◌*◌, ◌≡◌, ◌≢◌, refl, sym, ap, ◌∙◌, ◌↔◌, true, false, Option, none, some, List, [], ◌∷◌,
  arith, Bool-cases, inl, inr,
}
use omni_mailbox.Config.{PopResult}
use omni_mailbox.Fifo
use omni_mailbox.Fifo.{Fifo, view}
use omni_mailbox.Helpers.{is_queue_empty, get_payload_pointer}
use omni_mailbox.Helpers.Indices.{is_queue_empty_iff}
use omni_mailbox.Spsc.{SpscQueue}
use omni_mailbox.Spsc.Window.{size_at, window}
use omni_mailbox.Spsc.Invariant.{
  IsValid, stored, contents, read_slot, indices, get_slot_pointer-slot,
}
use omni_mailbox.Spsc.Changes.{release}
use omni_mailbox.Consumer.{
  Consumer, Message, message_bytes, front_message, advance, try_pop, count_failure,
}

module _ (q : SpscQueue) (v : IsValid q) where
  -- The span that a pop hands out.
  pub front_message_lem : front_message q ≡ record {
    payload = read_slot q * q.slot_size + 4;
    size = size_at q.slot_size q.capacity q.buffer (read_slot q);
  }
  unfolding front_message get_payload_pointer
  front_message_lem = rw (get_slot_pointer-slot q v)

  pub empty_iff : (is_queue_empty q.read_index q.write_index q.capacity ≡ true) ↔ (stored q ≡ 0)
  empty_iff = is_queue_empty_iff _ _ _ (indices q v)

-- Taking the oldest message: its bytes head the contents, and the rest stays.
pub advance_lem :
    (c : Consumer)
    → IsValid c.queue
    → stored c.queue ≢ 0
    → IsValid (advance c).queue
      × (contents c.queue
          ≡ message_bytes c.queue.buffer (front_message c.queue) ∷ contents (advance c).queue)
      × (stored (advance c).queue + 1 ≡ stored c.queue)
unfolding advance
advance_lem c v some_left =
    let (valid, fewer, front, _, _) = release c.queue v some_left in
    (
      valid,
      front
          ∙ ap (λ m. message_bytes c.queue.buffer m ∷ contents (advance c).queue)
              (sym (front_message_lem c.queue v)),
      fewer,
    )

-- The bytes of what a pop returns, if anything.
abbrev pub popped_bytes : List ℕ → Option Message → Option (List ℕ)
popped_bytes buffer none = none
popped_bytes buffer (some m) = some (message_bytes buffer m)

module _ (c : Consumer) (v : IsValid c.queue) where
  pub try_pop-some :
      stored c.queue ≢ 0 → try_pop c ≡ (PopResult.success, some (front_message c.queue), advance c)
  unfolding try_pop
  try_pop-some some_left = ground (arith, empty_iff c.queue v)

  pub fifo_some :
      stored c.queue ≢ 0
      → Fifo.pop (view c.queue) ≡ (
        PopResult.success,
        some (message_bytes c.queue.buffer (front_message c.queue)),
        view (advance c).queue,
      )
  unfolding Fifo.pop advance
  fifo_some some_left = let (_, front, _) = advance_lem c v some_left in rw front

  nothing_stored : stored c.queue ≡ 0 → contents c.queue ≡ []
  nothing_stored = ap (window c.queue.slot_size c.queue.capacity c.queue.buffer c.queue.read_index)

  pub try_pop_empty :
      stored c.queue ≡ 0
      → c.queue.producer_alive ≡ true
      → (try_pop c ≡ (PopResult.empty, none, c))
        × (Fifo.pop (view c.queue) ≡ (PopResult.empty, none, view c.queue))
  unfolding try_pop Fifo.pop
  try_pop_empty e alive =
      (ground (arith, empty_iff c.queue v), rw (nothing_stored e) (ground arith))

  pub try_pop_closed :
      stored c.queue ≡ 0
      → c.queue.producer_alive ≡ false
      → (try_pop c ≡ (PopResult.channel_closed, none, count_failure c))
        × (Fifo.pop (view c.queue) ≡ (PopResult.channel_closed, none, view c.queue))
  unfolding try_pop Fifo.pop
  try_pop_closed e dead =
      (ground (arith, empty_iff c.queue v), rw (nothing_stored e) (ground arith))

-- On a valid queue `TryPop` returns the code of `Fifo.pop`, a span over the bytes of the message
-- that `Fifo.pop` returns, and leaves the queue valid and holding what `Fifo.pop` leaves, on every
-- branch.
pub try_pop_refines :
    (c : Consumer)
    → IsValid c.queue
    → let (r, m, c') = try_pop c in
      ((r, popped_bytes c'.queue.buffer m, view c'.queue) ≡ Fifo.pop (view c.queue))
      × IsValid c'.queue
try_pop_refines c v = elim (ℕ_discrete (stored c.queue) 0) [
  | no some_left ↦
      rw (try_pop-some c v some_left, fifo_some c v some_left)
        (unfold advance in refl, (advance_lem c v some_left).0)
  | yes e ↦ elim (Bool-cases c.queue.producer_alive) [
    | inl alive ↦ let (popped, fifo) = try_pop_empty c v e alive in rw (popped, fifo) (refl, v)
    | inr dead ↦ let (popped, fifo) = try_pop_closed c v e dead in rw (popped, fifo) (refl, v)
  ]
]
