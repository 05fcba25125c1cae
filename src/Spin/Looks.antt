-- ===== src/Spin/Looks.antt =====
-- What `SpinWaitWithYield` has seen when it returns.
use omni_mailbox.Base.{
  ℕ, zero, suc, ◌+◌, ◌≤◌, ◌<◌, ◌≡◌, inl, inr, refl, Bool, true, false, Bool-cases, arith,
}
use omni_mailbox.Spin.{spin_count, Waited, spin_loop, spin_wait_with_yield}

module _ {S : Type 0} (others : ℕ → S → S) (try_operation : S → Bool) where
  -- The state after the others' work before `k` looks.
  abbrev pub later : ℕ → ℕ → S → S
  later zero t s = s
  later (suc k) t s = later k (t + 1) (others t s)

  -- The first `k` looks find the operation impossible.
  abbrev pub Futile : ℕ → ℕ → S → Type 0
  Futile zero t s = Unit {0}
  Futile (suc k) t s = (try_operation (others t s) ≡ false) × Futile k (t + 1) (others t s)

  -- The call ended at the first look that finds the operation possible, or yielded after `n`.
  pub data Spun (n t : ℕ) (s : S) (w : Waited S) : Type 0 where
    ready :
        (k : ℕ)
        → k < n
        → Futile k t s
        → w.time ≡ t + suc k
        → w.state ≡ later (suc k) t s
        → try_operation w.state ≡ true
        → w.yielded ≡ false
        → Spun n t s w
    exhausted :
        Futile n t s → w.time ≡ t + n → w.state ≡ later n t s → w.yielded ≡ true → Spun n t s w

  looked_on :
      {n t : ℕ} {s : S} {w : Waited S}
      → try_operation (others t s) ≡ false
      → Spun n (t + 1) (others t s) w
      → Spun (suc n) t s w
  looked_on no_use (ready k small futile time state possible stayed) =
      ready (suc k) (omega arith) (no_use, futile) (omega arith) state possible stayed
  looked_on no_use (exhausted futile time state yielded) =
      exhausted (no_use, futile) (omega arith) state yielded

  spin_loop-Spun : (n t : ℕ) (s : S) → Spun n t s (spin_loop others try_operation n t s)
  unfolding spin_loop
  spin_loop-Spun zero t s = exhausted tt (omega arith) refl refl
  spin_loop-Spun (suc n) t s = elim (Bool-cases (try_operation (others t s))) [
    | inl yes_now ↦ rw yes_now (ready 0 (omega arith) tt refl refl yes_now refl)
    | inr not_yet ↦ rw not_yet (looked_on not_yet (spin_loop-Spun n (t + 1) (others t s)))
  ]

  -- `SpinWaitWithYield` looks 1000 times at most: it returns at the first look that finds the
  -- operation possible, without a yield, and yields once when none of the 1000 looks did.
  pub spin_wait_with_yield_lem :
      (t : ℕ) (s : S) → Spun 1000 t s (spin_wait_with_yield others try_operation t s)
  unfolding spin_wait_with_yield
  spin_wait_with_yield_lem t s = spin_loop-Spun spin_count t s

  pub spin_wait-time :
      (t : ℕ) (s : S)
      → (t < (spin_wait_with_yield others try_operation t s).time)
        × ((spin_wait_with_yield others try_operation t s).time ≤ t + spin_count)
  spin_wait-time t s = elim (spin_wait_with_yield_lem t s) [
    | ready k small futile time state possible stayed ↦ (omega arith, omega arith)
    | exhausted futile time state yielded ↦ (omega arith, omega arith)
  ]

  -- What every look keeps, the call keeps.
  spin_loop_keeps :
      (P : S → Type 0)
      → ((t : ℕ) (s : S) → P s → P (others t s))
      → (n t : ℕ) (s : S) → P s
      → P (spin_loop others try_operation n t s).state
  unfolding spin_loop
  spin_loop_keeps P keep zero t s h = h
  spin_loop_keeps P keep (suc n) t s h = elim (Bool-cases (try_operation (others t s))) [
    | inl yes_now ↦ rw yes_now (keep t s h)
    | inr not_yet ↦ rw not_yet (spin_loop_keeps P keep n (t + 1) (others t s) (keep t s h))
  ]

  pub spin_keeps :
      (P : S → Type 0)
      → ((t : ℕ) (s : S) → P s → P (others t s))
      → (t : ℕ) (s : S) → P s
      → P (spin_wait_with_yield others try_operation t s).state
  unfolding spin_wait_with_yield
  spin_keeps P keep t s h = spin_loop_keeps P keep spin_count t s h
