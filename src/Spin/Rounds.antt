-- ===== src/Spin/Rounds.antt =====
-- A loop that tries once and spins in each round, seen as rounds: when each begins, and what the
-- others have done to the state by its attempt.
use omni_mailbox.Base.{ℕ, zero, suc, ◌+◌, ◌*◌, ◌≤◌, ◌≡◌, ◌⊎◌, Bool, arith}
use omni_mailbox.Spin.{Waited, spin_wait_with_yield}
use omni_mailbox.Spin.Looks.{spin_wait-time, spin_keeps}

module _ {S : Type 0} (others : ℕ → S → S) (try_operation : S → Bool) where
  -- The spin after an attempt at time `t` that found the state `s` and left it.
  abbrev pub spun : ℕ → S → Waited S
  spun t s = spin_wait_with_yield others try_operation (t + 1) s

  module _ (start : S) where
    -- The time at which a round begins, and the state that the last look left.
    abbrev pub begins : ℕ → ℕ × S
    begins zero = (0, start)
    begins (suc i) = let (t, s) = begins i in let w = spun t (others t s) in (w.time, w.state)

    abbrev pub time : ℕ → ℕ
    time i = (begins i).0

    -- The state that the attempt of a round finds.
    abbrev pub met : ℕ → S
    met i = others (begins i).0 (begins i).1

    -- A state that the loop met: at its start, or in a round.
    abbrev pub Met : S → Type 0
    Met s = (s ≡ start) ⊎ ((i : ℕ) × (s ≡ met i))

    -- Met in a round that saw the deadline reached.
    abbrev pub MetLate : (ℕ → ℕ) → ℕ → S → Type 0
    MetLate clock deadline s = (i : ℕ) × (s ≡ met i) × (deadline ≤ clock (time i))

    -- What the others do between two attempts.
    abbrev pub between : ℕ → S → S
    between zero s = others 0 s
    between (suc i) s = let w = spun (time i) s in others w.time w.state

    pub time-ge : (i : ℕ) → i ≤ time i
    time-ge zero = omega arith
    time-ge (suc i) =
        omega (arith, time-ge i, spin_wait-time others try_operation (time i + 1) (met i))

    pub time-le : (i : ℕ) → time i ≤ i * 1001
    time-le zero = omega arith
    time-le (suc i) =
        omega (arith, time-le i, spin_wait-time others try_operation (time i + 1) (met i))

    pub between_keeps :
        (P : S → Type 0)
        → ((t : ℕ) (s : S) → P s → P (others t s))
        → (i : ℕ) (s : S) → P s
        → P (between i s)
    between_keeps P keep zero s h = keep 0 s h
    between_keeps P keep (suc i) s h =
        let w = spun (time i) s in
        keep w.time w.state (spin_keeps others try_operation P keep (time i + 1) s h)

    pub met_keeps :
        (P : S → Type 0) → ((t : ℕ) (s : S) → P s → P (others t s)) → P start → (i : ℕ) → P (met i)
    met_keeps P keep h zero = keep 0 start h
    met_keeps P keep h (suc i) =
        let w = spun (time i) (met i) in
        keep w.time w.state
          (spin_keeps others try_operation P keep (time i + 1) (met i) (met_keeps P keep h i))
