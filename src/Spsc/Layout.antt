-- ===== src/Spsc/Layout.antt =====
-- How slots lie in the buffer: a slot holds the prefix and the largest message, slots do not
-- overlap, and no offset wraps.
use native.Mathlib.Nat.{mul-le-mul}
use omni_mailbox.Base.{ℕ, ◌+◌, ◌-◌, ◌*◌, ◌%◌, ◌^◌, ◌≤◌, ◌<◌, ◌≡◌, arith}
use omni_mailbox.Base.Words.{u64}
use omni_mailbox.Base.Bits.{bit_and_clear3}
use omni_mailbox.Spsc.{align_up}

-- The slot size is the least multiple of 8 that holds the prefix and the largest message.
pub align_up_8 :
    (n : ℕ) → n ≤ 2 ^ 63 → (align_up n 8 % 8 ≡ 0) × (n ≤ align_up n 8) × (align_up n 8 < n + 8)
unfolding align_up
align_up_8 n h = rw (bit_and_clear3 (u64 (n + 8 - 1)) (omega arith)) (omega arith)

-- Slot `i` ends before slot `j` begins, for `i < j`.
pub slot_ends : (i j s : ℕ) → i < j → i * s + s ≤ j * s
slot_ends i j s h = grind arith

-- No offset into the largest buffer comes near 2^64.
pub buffer_small : (c s : ℕ) → c ≤ 524288 → s ≤ 1048592 → c * s < 2 ^ 64
buffer_small c s hc hs = omega (arith, mul-le-mul hc hs)
