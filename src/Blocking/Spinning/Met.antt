-- ===== src/Blocking/Spinning/Met.antt =====
-- The queues that a call with spins meets are those that the call in rounds finds.
use omni_mailbox.Base.{ℕ, zero, suc, ◌≡◌, inl, inr, refl, ap, ◌∙◌, Bool}
use omni_mailbox.Spsc.{SpscQueue}
use omni_mailbox.Spin.Rounds.{time, met, between, Met, MetLate}
use omni_mailbox.Blocking.Found.{found, Found, FoundLate}

module _ (others : ℕ → SpscQueue → SpscQueue) (try_operation : SpscQueue → Bool)
    (q : SpscQueue) where
  abbrev by_round : ℕ → SpscQueue → SpscQueue
  by_round = between others try_operation q

  same_rounds : (i : ℕ) → found by_round q i ≡ met others try_operation q i
  same_rounds zero = refl
  same_rounds (suc i) = ap (by_round (suc i)) (same_rounds i)

  pub same_queues : (s : SpscQueue) → Found by_round q s → Met others try_operation q s
  same_queues s (inl e) = inl e
  same_queues s (inr (i, e)) = inr (i, e ∙ same_rounds i)

  pub same_late_queues :
      (clock : ℕ → ℕ) (deadline : ℕ) (s : SpscQueue)
      → FoundLate by_round q (λ i. clock (time others try_operation q i)) deadline s
      → MetLate others try_operation q clock deadline s
  same_late_queues clock deadline s (i, e, late) = (i, e ∙ same_rounds i, late)
