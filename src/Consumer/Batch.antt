-- ===== src/Consumer/Batch.antt =====
-- `BatchPop` without a timeout: the loop takes the oldest messages in order.
use omni_mailbox.Base.{
  if◌then◌else◌, ◌==◌, eq→==, ℕ, zero, suc, ◌<◌, ◌≡◌, ◌≢◌, refl, ap, ◌∙◌, true, false, List, [],
  ◌∷◌, ◌++◌, length, min, arith, Bool,
}
use mathlib.Core.List.{map}
use native.Mathlib.Decide.{ℕ_discrete}
use omni_mailbox.Config.{PopResult}
use omni_mailbox.Spsc.Invariant.{IsValid, stored, contents}
use omni_mailbox.Consumer.{
  Consumer, Message, message_bytes, front_message, advance, drain, batch_pop, batch_result,
}
use omni_mailbox.Consumer.Pop.{empty_iff, advance_lem}

-- What a loop has taken, from `c` to `c'`.
pub record Took (n : ℕ) (c : Consumer) (ms : List Message) (c' : Consumer) : Type 0 where
  pub valid : IsValid c'.queue
  pub bytes : contents c.queue ≡ map (message_bytes c.queue.buffer) ms ++ contents c'.queue
  pub count : length ms ≡ min n (stored c.queue)
  pub kept : c'.queue ≡ record c.queue { read_index = c'.queue.read_index }

drain_empty : (n : ℕ) (c : Consumer) → IsValid c.queue → stored c.queue ≡ 0 → drain n c ≡ ([], c)
unfolding drain
drain_empty zero c v e = refl
drain_empty (suc n) c v e = rw ((empty_iff c.queue v).1 e)

pub drain_more :
    (n : ℕ) (c : Consumer)
    → IsValid c.queue
    → stored c.queue ≢ 0
    → drain (suc n) c ≡ (front_message c.queue ∷ (drain n (advance c)).0, (drain n (advance c)).1)
unfolding drain
drain_more n c v some_left = ground (arith, empty_iff c.queue v)

pub drain_lem : (n : ℕ) (c : Consumer) → IsValid c.queue → Took n c (drain n c).0 (drain n c).1
unfolding advance
drain_lem zero c v =
    unfold drain in record { valid = v; bytes = refl; count = omega arith; kept = refl }
drain_lem (suc n) c v = elim (ℕ_discrete (stored c.queue) 0) [
  | yes e ↦
      rw (drain_empty (suc n) c v e)
        (record { valid = v; bytes = refl; count = omega arith; kept = refl })
  | no some_left ↦
      let (valid, front, fewer) = advance_lem c v some_left in
      let rest = drain_lem n (advance c) valid in
      rw (drain_more n c v some_left) (record {
        valid = rest.valid;
        bytes = front ∙ ap (◌∷◌ (message_bytes c.queue.buffer (front_message c.queue))) rest.bytes;
        count = omega (arith, rest.count);
        kept = rest.kept;
      })
]

-- The code that goes with an empty queue.
abbrev pub idle_code : Bool → PopResult
idle_code true = PopResult.empty
idle_code false = PopResult.channel_closed

batch_result_lem :
    (flag : Bool) (n : ℕ) (c : Consumer) (ms : List Message) (c' : Consumer)
    → Took (suc n) c ms c'
    → let (r, ms', c'') = batch_result flag (ms, c') in
      Took (suc n) c ms' c''
      × (stored c.queue ≢ 0 → r ≡ PopResult.success)
      × (stored c.queue ≡ 0 → r ≡ idle_code flag)
unfolding batch_result
batch_result_lem flag n c (m ∷ ms) c' t = (t, λ _. refl, λ e. absurd (omega (arith, t.count)))
batch_result_lem true n c [] c' t = (t, λ some_left. absurd (omega (arith, t.count)), λ _. refl)
batch_result_lem false n c [] c' t = (
  record { valid = t.valid; bytes = t.bytes; count = t.count; kept = t.kept },
  λ some_left. absurd (omega (arith, t.count)),
  λ _. refl,
)

pub batch_pop-suc :
    (n : ℕ) (c : Consumer)
    → batch_pop (suc n) c ≡ batch_result c.queue.producer_alive (drain (suc n) c)
unfolding batch_pop
batch_pop-suc n c = ground arith

pub batch_result_some :
    (flag : Bool) (m : Message) (ms : List Message) (c : Consumer)
    → batch_result flag (m ∷ ms, c) ≡ (PopResult.success, m ∷ ms, c)
unfolding batch_result
batch_result_some flag m ms c = refl

pub batch_pop-Took :
    (max_count : ℕ) (c : Consumer)
    → 0 < max_count
    → IsValid c.queue
    → let (r, ms, c') = batch_pop max_count c in
      Took max_count c ms c'
      × (stored c.queue ≢ 0 → r ≡ PopResult.success)
      × (stored c.queue ≡ 0 → r ≡ idle_code c.queue.producer_alive)
batch_pop-Took zero c pos v = absurd (omega arith)
batch_pop-Took (suc n) c pos v = rw (batch_pop-suc n c) (
    batch_result_lem c.queue.producer_alive n c (drain (suc n) c).0 (drain (suc n) c).1
      (drain_lem (suc n) c v))

-- For a positive `max_count` and a valid queue, `BatchPop` without a timeout takes as many messages
-- as are stored, `max_count` at most: the spans that it returns hold the oldest messages in order,
-- and the rest stays stored. It succeeds when something was stored; otherwise its code tells
-- whether the producer lives.
pub batch_pop_lem :
    (max_count : ℕ) (c : Consumer)
    → 0 < max_count
    → IsValid c.queue
    → let (r, ms, c') = batch_pop max_count c in
      Took max_count c ms c'
      × (r ≡ (if stored c.queue == 0 then idle_code c.queue.producer_alive else PopResult.success))
batch_pop_lem n c pos v =
    let (took, some_left, none_left) = batch_pop-Took n c pos v in
    (
      took,
      elim (ℕ_discrete (stored c.queue) 0) [
        | yes e ↦ rw (eq→== (stored c.queue) 0 e) (none_left e)
        | no ne ↦ ground (arith, some_left ne)
      ],
    )
