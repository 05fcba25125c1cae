-- ===== src/Channel/Answers.antt =====
-- What the calls of a channel answer while both of its ends live, for the programs that use it.
use omni_mailbox.Base.{
  ◌≡◌, ◌≢◌, refl, ap, inl, inr, true, Bool-cases, Option, none, some, List, [], ◌∷◌, ◌++◌, length,
  ◌==◌, eq→==, ==→eq,
}
use omni_mailbox.Config.{PushResult, PopResult}
use omni_mailbox.Fifo
use omni_mailbox.Fifo.{Message, Fifo, admits, pop_items}
use omni_mailbox.Channel.Api.{ChannelApi}

-- A push of a message of a valid size: the queue was full, or the message is stored.
pub data Pushed (m : Message) (f : Fifo) (r : PushResult) (f' : Fifo) : Type 0 where
  was_full : length f.items ≡ f.room → r ≡ PushResult.queue_full → f' ≡ f → Pushed m f r f'
  stored :
      length f.items ≢ f.room
      → r ≡ PushResult.success
      → f' ≡ record f { items = f.items ++ m ∷ [] }
      → Pushed m f r f'

-- A pop: nothing was stored, or the oldest message is handed out.
pub data Popped (f : Fifo) (r : PopResult) (o : Option Message) (f' : Fifo) : Type 0 where
  was_empty : f.items ≡ [] → r ≡ PopResult.empty → o ≡ none → f' ≡ f → Popped f r o f'
  taken :
      (x : Message) (xs : List Message)
      → f.items ≡ x ∷ xs
      → r ≡ PopResult.success
      → o ≡ some x
      → f' ≡ record f { items = xs }
      → Popped f r o f'

push-Pushed :
    (m : Message) (f : Fifo)
    → admits f.limit m ≡ true
    → f.consumer_alive ≡ true
    → Pushed m f (Fifo.push m f).0 (Fifo.push m f).1
unfolding Fifo.push
push-Pushed m f fits alive = elim (Bool-cases (length f.items == f.room)) [
  | inl full ↦ rw (fits, alive, full) (was_full (==→eq _ _ full) refl refl)
  | inr room ↦ rw (fits, alive, room) (stored (λ e. let t = eq→== _ _ e in cc) refl refl)
]

pop_items-Popped :
    (xs : List Message) (f : Fifo)
    → f.items ≡ xs
    → f.producer_alive ≡ true
    → Popped f (pop_items xs f).0 (pop_items xs f).1 (pop_items xs f).2
unfolding pop_items
pop_items-Popped [] f e alive = rw alive (was_empty e refl refl refl)
pop_items-Popped (x ∷ xs) f e alive = taken x xs e refl refl refl

pop-Popped :
    (f : Fifo) → f.producer_alive ≡ true → Popped f (Fifo.pop f).0 (Fifo.pop f).1 (Fifo.pop f).2
unfolding Fifo.pop
pop-Popped f alive = pop_items-Popped f.items f refl alive

module _ {S : Type 0} (api : ChannelApi S) where
  pub push_answers :
      (m : Message) (s : S)
      → admits (api.shown s).limit m ≡ true
      → (api.shown s).consumer_alive ≡ true
      → Pushed m (api.shown s) (api.push m s).0 (api.shown (api.push m s).1)
  push_answers m s fits alive =
      let law = api.push_law m s in
      rw (ap (λ x. x.0) law, ap (λ x. x.1) law) (push-Pushed m (api.shown s) fits alive)

  pub pop_answers :
      (s : S)
      → (api.shown s).producer_alive ≡ true
      → Popped (api.shown s) (api.pop s).0 (api.pop s).1 (api.shown (api.pop s).2)
  pop_answers s alive =
      let law = api.pop_law s in
      rw (ap (λ x. x.0) law, ap (λ x. x.1) law, ap (λ x. x.2) law) (pop-Popped (api.shown s) alive)
