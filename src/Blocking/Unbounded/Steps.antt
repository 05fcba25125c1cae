-- ===== src/Blocking/Unbounded/Steps.antt =====
-- One step of an unbounded `BlockingPop`, by the place that it starts from.
use omni_mailbox.Base.{
  ℕ, suc, ◌+◌, ◌≡◌, ◌≢◌, refl, true, false, Option, none, some, eq→==, ≢→==, arith,
}
use omni_mailbox.Config.{PopResult}
use omni_mailbox.Spsc.{SpscQueue}
use omni_mailbox.Spsc.Invariant.{IsValid, stored}
use omni_mailbox.Consumer.{Consumer, Message, front_message, advance, count_failure}
use omni_mailbox.Consumer.Pop.{try_pop-some, try_pop_empty, try_pop_closed}
use omni_mailbox.Blocking.Unbounded.{
  Pause, popping, looking, checking, asleep, waits, returns, pause_step, unbounded_pop, meets,
}

-- Equal indices store nothing.
pub same_indices : (q : SpscQueue) → IsValid q → stored q ≡ 0 → q.write_index ≡ q.read_index
same_indices q v e = omega (arith, v.fits_w, v.fits_r)

pub other_indices : (q : SpscQueue) → IsValid q → stored q ≢ 0 → q.write_index ≢ q.read_index
other_indices q v ne e = ne (omega (arith, v.fits_w))

module _ (others : ℕ → SpscQueue → SpscQueue) (n i : ℕ) (at : Pause) (c : Consumer) where
  pub step_waits :
      (at' : Pause) (c' : Consumer)
      → pause_step at (meets (others i c.queue) c) ≡ waits at' c'
      → unbounded_pop others (suc n) i at c ≡ unbounded_pop others n (i + 1) at' c'
  unfolding unbounded_pop
  step_waits at' c' e = rw (unbounded_pop, e) refl

  pub step_returns :
      (r : PopResult) (m : Option Message) (c' : Consumer)
      → pause_step at (meets (others i c.queue) c) ≡ returns r m c'
      → unbounded_pop others (suc n) i at c ≡ some (r, m, c')
  unfolding unbounded_pop
  step_returns r m c' e = rw (unbounded_pop, e) refl

module _ (c : Consumer) (v : IsValid c.queue) where
  pub pops_some :
      stored c.queue ≢ 0
      → pause_step popping c ≡ returns PopResult.success (some (front_message c.queue)) (advance c)
  unfolding pause_step
  pops_some ne = rw (try_pop-some c v ne) refl

  pub pops_none :
      stored c.queue ≡ 0 → c.queue.producer_alive ≡ true → pause_step popping c ≡ waits looking c
  unfolding pause_step
  pops_none e alive = rw ((try_pop_empty c v e alive).0) refl

  pub pops_closed :
      stored c.queue ≡ 0
      → c.queue.producer_alive ≡ false
      → pause_step popping c ≡ returns PopResult.channel_closed none (count_failure c)
  unfolding pause_step
  pops_closed e dead = rw ((try_pop_closed c v e dead).0) refl

  pub looks_empty :
      stored c.queue ≡ 0 → pause_step looking c ≡ waits (checking c.queue.write_index) c
  unfolding pause_step
  looks_empty e = rw (eq→== c.queue.write_index c.queue.read_index (same_indices c.queue v e)) refl

  pub looks_some : stored c.queue ≢ 0 → pause_step looking c ≡ waits popping c
  unfolding pause_step
  looks_some ne = rw (≢→== c.queue.write_index c.queue.read_index (other_indices c.queue v ne)) refl

module _ (c : Consumer) (w : ℕ) where
  pub checks_alive : c.queue.producer_alive ≡ true → pause_step (checking w) c ≡ waits (asleep w) c
  unfolding pause_step
  checks_alive alive = rw alive refl

  pub checks_dead :
      c.queue.producer_alive ≡ false
      → pause_step (checking w) c ≡ returns PopResult.channel_closed none (count_failure c)
  unfolding pause_step
  checks_dead dead = rw dead refl

  pub sleeps : c.queue.write_index ≡ w → pause_step (asleep w) c ≡ waits (asleep w) c
  unfolding pause_step
  sleeps e = rw (eq→== c.queue.write_index w e) refl

  pub wakes : c.queue.write_index ≢ w → pause_step (asleep w) c ≡ waits looking c
  unfolding pause_step
  wakes ne = rw (≢→== c.queue.write_index w ne) refl
