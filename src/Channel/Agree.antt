-- ===== src/Channel/Agree.antt =====
-- Where the operations of the queue and those of the bounded queue agree: the admitted sizes, and
-- what a batch takes.
use omni_mailbox.Base.{
  ℕ, zero, suc, ◌<◌, ◌≡◌, refl, sym, ap, ◌∙◌, ◌↔◌, true, List, [], ◌∷◌, ◌++◌, length, length-map,
  take, drop, min, arith,
}
use mathlib.Core.List.{map}
use omni_mailbox.Config.{PopResult}
use omni_mailbox.Fifo.{Fifo, view, all_admitted, pop_batch_items}
use omni_mailbox.Spsc.{SpscQueue}
use omni_mailbox.Spsc.Invariant.{contents}
use omni_mailbox.Producer.Push.{length-contents}
use omni_mailbox.Producer.BatchPush.{Sizes}
use omni_mailbox.Consumer.{Consumer, Message, message_bytes}
use omni_mailbox.Consumer.Batch.{Took, idle_code}

pub all_admitted-Sizes :
    (limit : ℕ) (ms : List (List ℕ)) → (all_admitted limit ms ≡ true) ↔ Sizes limit ms
unfolding all_admitted
all_admitted-Sizes limit [] = (λ _. tt, λ _. refl)
all_admitted-Sizes limit (m ∷ ms) =
    let rest = all_admitted-Sizes limit ms in
    (
      λ e. (ground arith, ground arith, rest.0 (ground arith)),
      λ (a, b, c). ground (arith, rest.1 c),
    )

-- A prefix of the length that `take` gives is what `take` gives.
take_prefix :
    (n : ℕ) (xs ys : List (List ℕ))
    → length xs ≡ min n (length (xs ++ ys))
    → (take n (xs ++ ys) ≡ xs) × (drop n (xs ++ ys) ≡ ys)
take_prefix zero [] ys h = (refl, refl)
take_prefix (suc n) [] [] h = (refl, refl)
take_prefix (suc n) [] (y ∷ ys) h = absurd (omega arith)
take_prefix zero (x ∷ xs) ys h = absurd (omega arith)
take_prefix (suc n) (x ∷ xs) ys h =
    let (a, b) = take_prefix n xs ys (omega arith) in (ap (◌∷◌ x) a, b)

pub pop_items_lem :
    (xs : List (List ℕ)) (n : ℕ) (f : Fifo) (r : PopResult)
    → f.items ≡ xs
    → (0 < length xs → r ≡ PopResult.success)
    → (length xs ≡ 0 → r ≡ idle_code f.producer_alive)
    → pop_batch_items xs (suc n) f ≡ (r, take (suc n) xs, record f { items = drop (suc n) xs })
unfolding pop_batch_items
pop_items_lem [] n f r e some_left none_left = ground (arith, none_left refl)
pop_items_lem (x ∷ xs) n f r e some_left none_left = ground (arith, some_left (omega arith))

module _ {n : ℕ} {c : Consumer} {ms : List Message} {c' : Consumer} (t : Took n c ms c') where
  pub shown : map (message_bytes c'.queue.buffer) ms ≡ map (message_bytes c.queue.buffer) ms
  shown = ap (λ (q : SpscQueue). map (message_bytes q.buffer) ms) t.kept

  pub taken :
      (take n (contents c.queue) ≡ map (message_bytes c.queue.buffer) ms)
      × (drop n (contents c.queue) ≡ contents c'.queue)
  taken = rw t.bytes (
      take_prefix n (map (message_bytes c.queue.buffer) ms) (contents c'.queue) (
        omega (
          arith,
          length-map (message_bytes c.queue.buffer) ms,
          ap length t.bytes,
          length-contents c.queue,
          t.count,
        )))

  pub left : record (view c.queue) { items = drop n (contents c.queue) } ≡ view c'.queue
  left =
      ap (λ xs. record (view c.queue) { items = xs }) taken.1
      ∙ sym (ap (λ (q : SpscQueue). record (view q) { items = contents c'.queue }) t.kept)
