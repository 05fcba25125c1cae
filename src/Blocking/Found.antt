-- ===== src/Blocking/Found.antt =====
-- The queues that a call that waits finds, when it leaves the queue as it is until it returns: what
-- the other thread does before each attempt is a function of the attempt.
use omni_mailbox.Base.{ℕ, zero, suc, ◌≤◌, ◌≡◌, ◌⊎◌}
use omni_mailbox.Spsc.{SpscQueue}

module _ (others : ℕ → SpscQueue → SpscQueue) (q : SpscQueue) where
  -- What the attempt in a round finds.
  abbrev pub found : ℕ → SpscQueue
  found zero = others 0 q
  found (suc i) = others (suc i) (found i)

  -- Found by the call: by its first attempt, or in a round.
  abbrev pub Found : SpscQueue → Type 0
  Found s = (s ≡ q) ⊎ ((i : ℕ) × (s ≡ found i))

  -- Found in a round that saw the deadline reached.
  abbrev pub FoundLate : (ℕ → ℕ) → ℕ → SpscQueue → Type 0
  FoundLate clock deadline s = (i : ℕ) × (s ≡ found i) × (deadline ≤ clock i)
