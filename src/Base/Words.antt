-- ===== src/Base/Words.antt =====
-- `uint64_t` and `size_t`: numbers below 2^64, with the wrap of each operation written out.
use omni_mailbox.Base.Bits.{bit_and_mask, bit_and-halve, bit_and_self}
use Prim.Native.Nat.{ℕ, zero, suc, ◌+◌, ◌-◌, ◌/◌, ◌%◌, ◌^◌, ◌≤◌, ◌<◌, bit_and}
use mathlib.Core.Path.{◌≡◌, ◌∙◌}
use native.Mathlib.Nat.{pow-suc, one-le-pow, mod_self}
use native.Mathlib.Decide.{ℕ_discrete}
use native.Mathlib.Omega.{arith}

abbrev pub u64 : ℕ → ℕ
u64 n = n % 2 ^ 64

abbrev pub u32 : ℕ → ℕ
u32 n = n % 2 ^ 32

abbrev pub add_u64 : ℕ → ℕ → ℕ
add_u64 a b = u64 (a + b)

abbrev pub sub_u64 : ℕ → ℕ → ℕ
sub_u64 a b = u64 (a + 2 ^ 64 - b)

abbrev pub shr : ℕ → ℕ → ℕ
shr x k = x / 2 ^ k

abbrev pub IsPow2 : ℕ → Type 0
IsPow2 n = (k : ℕ) × (n ≡ 2 ^ k)

pub IsPow2-pos : (n : ℕ) → IsPow2 n → 0 < n
IsPow2-pos n (k, e) = omega (arith, one-le-pow k 2)

-- The mask test `x & (x - 1)` is zero at a power of two.
pub bit_and_pred_of_IsPow2 : (n : ℕ) → IsPow2 n → bit_and n (n - 1) ≡ 0
bit_and_pred_of_IsPow2 n (k, e) = rw e (bit_and_mask k (2 ^ k) ∙ mod_self (2 ^ k))

-- And at no other number but zero.
IsPow2-below : (bound n : ℕ) → n ≤ bound → 0 < n → bit_and n (n - 1) ≡ 0 → IsPow2 n
IsPow2-below zero n h pos e = absurd (omega arith)
IsPow2-below (suc bound) n h pos e = elim (ℕ_discrete (n % 2) 0) [
  | yes even ↦
      let (k, half) =
        IsPow2-below bound (n / 2) (omega arith) (omega arith)
          (ground (arith, bit_and-halve n (n - 1))) in
      (suc k, omega (arith, pow-suc 2 k))
  | no odd ↦ (0, ground (arith, bit_and-halve n (n - 1), bit_and_self (n / 2)))
]

pub IsPow2-bit_and : (n : ℕ) → 0 < n → bit_and n (n - 1) ≡ 0 → IsPow2 n
IsPow2-bit_and n pos e = IsPow2-below n n (omega arith) pos e
