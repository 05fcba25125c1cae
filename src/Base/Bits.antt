-- ===== src/Base/Bits.antt =====
-- `&` and `|` of machine words as arithmetic. The native operations recurse on binary digits with
-- fuel; here the fuel is dropped, and both are described digit by digit.
use Prim.Native.Nat.{
  ℕ, zero, suc, ◌+◌, ◌-◌, ◌*◌, ◌/◌, ◌%◌, ◌^◌, ◌≤◌, ◌<◌, min, max, bit_and, bit_or, digits, bitwise,
  bit_and-bitwise, bit_or-bitwise,
}
use mathlib.Core.Path.{◌≡◌, refl, ap, ◌∙◌}
use native.Mathlib.Nat.{
  pow-suc, one-le-pow, mod-lt, mod-eq_of_lt, div-add-mod, mul-add-mod_self_left,
}
use native.Mathlib.Omega.{arith}

-- Any two amounts of fuel that cover the first number give one result.
module _ (other : ℕ → ℕ) (digit : ℕ → ℕ → ℕ) where
  digits_enough :
      (f g a b : ℕ) → a ≤ f → a ≤ g → digits other digit f a b ≡ digits other digit g a b
  digits_enough zero zero a b p q = refl
  digits_enough zero (suc g) zero b p q = refl
  digits_enough (suc f) zero zero b p q = refl
  digits_enough (suc f) (suc g) zero b p q = refl
  digits_enough zero g (suc a) b p q = absurd (omega arith)
  digits_enough (suc f) zero (suc a) b p q = absurd (omega arith)
  digits_enough (suc f) (suc g) (suc a) b p q =
      omega (arith, digits_enough f g (suc a / 2) (b / 2) (omega arith) (omega arith))

  bitwise_halve :
      (a b : ℕ)
      → bitwise other digit (suc a) b
        ≡ bitwise other digit (suc a / 2) (b / 2) * 2 + digit (suc a % 2) (b % 2)
  bitwise_halve a b =
      omega (arith, digits_enough a (suc a / 2) (suc a / 2) (b / 2) (omega arith) (omega arith))

pub bit_and-halve : (a b : ℕ) → bit_and a b ≡ bit_and (a / 2) (b / 2) * 2 + min (a % 2) (b % 2)
bit_and-halve zero b = omega (arith, bit_and-bitwise 0 b, bit_and-bitwise 0 (b / 2))
bit_and-halve (suc a) b = simp bit_and-bitwise (bitwise_halve (λ _. 0) min a b)

pub bit_or-halve : (a b : ℕ) → bit_or a b ≡ bit_or (a / 2) (b / 2) * 2 + max (a % 2) (b % 2)
bit_or-halve zero b = omega (arith, bit_or-bitwise 0 b, bit_or-bitwise 0 (b / 2))
bit_or-halve (suc a) b = simp bit_or-bitwise (bitwise_halve (λ n. n) max a b)

bit_and_zero_below : (bound a : ℕ) → a ≤ bound → bit_and a 0 ≡ 0
bit_and_zero_below bound zero h = refl
bit_and_zero_below zero (suc a) h = absurd (omega arith)
bit_and_zero_below (suc bound) (suc a) h =
    omega (arith, bit_and-halve (suc a) 0, bit_and_zero_below bound (suc a / 2) (omega arith))

bit_and_zero : (a : ℕ) → bit_and a 0 ≡ 0
bit_and_zero a = bit_and_zero_below a a (omega arith)

-- Doubling the modulus adds one digit to the remainder.
pub mod_double : (x p : ℕ) → 0 < p → x % (2 * p) ≡ x / 2 % p * 2 + x % 2
mod_double x p h =
    ap (λ (t : ℕ). t % (2 * p)) split
    ∙ mul-add-mod_self_left (2 * p) (x / 2 / p) low
    ∙ mod-eq_of_lt (omega (arith, mod-lt (x / 2) h))
  where
    low : ℕ
    low = x / 2 % p * 2 + x % 2

    split : x ≡ 2 * p * (x / 2 / p) + low
    split = omega (arith, div-add-mod (x / 2) p)

-- `x & (2^k - 1)` is the remainder by `2^k`, at every width.
pub bit_and_mask : (k x : ℕ) → bit_and x (2 ^ k - 1) ≡ x % 2 ^ k
bit_and_mask zero x = omega (arith, bit_and_zero x)
bit_and_mask (suc k) x = ground (
  arith,
  pow-suc 2 k,
  one-le-pow k 2,
  bit_and-halve x (2 ^ suc k - 1),
  mod_double x (2 ^ k),
  bit_and_mask k (x / 2),
)

-- `x & ~7` in 64 bits: the mask's low three digits are zero, and the rest are ones.
pub bit_and_clear3 : (x : ℕ) → x < 2 ^ 64 → bit_and x (2 ^ 64 - 8) ≡ x / 8 * 8
bit_and_clear3 x h = omega (
  arith,
  bit_and-halve x (2 ^ 64 - 8),
  bit_and-halve (x / 2) (2 ^ 63 - 4),
  bit_and-halve (x / 2 / 2) (2 ^ 62 - 2),
  bit_and_mask 61 (x / 2 / 2 / 2),
)

bit_and_self_below : (bound a : ℕ) → a ≤ bound → bit_and a a ≡ a
bit_and_self_below bound zero h = refl
bit_and_self_below zero (suc a) h = absurd (omega arith)
bit_and_self_below (suc bound) (suc a) h =
    omega (arith, bit_and-halve (suc a) (suc a), bit_and_self_below bound (suc a / 2) (omega arith))

pub bit_and_self : (a : ℕ) → bit_and a a ≡ a
bit_and_self a = bit_and_self_below a a (omega arith)

bit_or_zero_below : (bound a : ℕ) → a ≤ bound → bit_or a 0 ≡ a
bit_or_zero_below bound zero h = refl
bit_or_zero_below zero (suc a) h = absurd (omega arith)
bit_or_zero_below (suc bound) (suc a) h =
    omega (arith, bit_or-halve (suc a) 0, bit_or_zero_below bound (suc a / 2) (omega arith))

pub bit_or_zero : (a : ℕ) → bit_or a 0 ≡ a
bit_or_zero a = bit_or_zero_below a a (omega arith)

pub bit_or_zero_left : (a : ℕ) → bit_or 0 a ≡ a
bit_or_zero_left a = bit_or-bitwise 0 a

pub bit_or_halves :
    (a b : ℕ) → (bit_or a b / 2 ≡ bit_or (a / 2) (b / 2)) × (bit_or a b % 2 ≡ max (a % 2) (b % 2))
bit_or_halves a b = omega (arith, bit_or-halve a b)

bit_or_assoc_below :
    (bound a b c : ℕ) → a + b + c ≤ bound → bit_or (bit_or a b) c ≡ bit_or a (bit_or b c)
bit_or_assoc_below zero a b c h =
    let a0 : a ≡ 0 = omega arith in
    let b0 : b ≡ 0 = omega arith in let c0 : c ≡ 0 = omega arith in rw (a0, b0, c0)
bit_or_assoc_below (suc bound) a b c h = ground (
  arith,
  bit_or-halve (bit_or a b) c,
  bit_or-halve a (bit_or b c),
  bit_or_halves a b,
  bit_or_halves b c,
  bit_or_assoc_below bound (a / 2) (b / 2) (c / 2),
)

pub bit_or_assoc : (a b c : ℕ) → bit_or (bit_or a b) c ≡ bit_or a (bit_or b c)
bit_or_assoc a b c = bit_or_assoc_below (a + b + c) a b c (omega arith)

-- A number whose top digit stands at `k`, with all lower digits set.
pub bit_or_ones : (k x : ℕ) → 2 ^ k ≤ x → x < 2 ^ suc k → bit_or x (2 ^ k - 1) ≡ 2 ^ suc k - 1
bit_or_ones zero x low high = omega (arith, bit_or_zero x)
bit_or_ones (suc k) x low high = ground (
  arith,
  pow-suc 2 k,
  pow-suc 2 (suc k),
  one-le-pow k 2,
  bit_or-halve x (2 ^ suc k - 1),
  bit_or_ones k (x / 2),
)
