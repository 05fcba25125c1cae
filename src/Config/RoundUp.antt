-- ===== src/Config/RoundUp.antt =====
-- `ChannelConfig::RoundUpPowerOf2`: the shifts and ors fill every digit below the top one.
use Prim.Native.Nat.add
use native.Mathlib.Nat.{
  pow-suc, div-one, one-le-pow, div-div-eq-div-mul, mul_comm, pow-le-pow_right,
}
use native.Mathlib.Decide.{dec_lt, ℕ_discrete}
use omni_mailbox.Base.{
  ℕ, zero, suc, ◌+◌, ◌-◌, ◌*◌, ◌/◌, ◌^◌, ◌≤◌, ◌<◌, ◌≡◌, refl, sym, ap, ◌∙◌, bit_or, arith,
}
use omni_mailbox.Base.Bits.{bit_or_zero, bit_or_zero_left, bit_or_assoc, bit_or_halves, bit_or_ones}
use omni_mailbox.Base.Words.{IsPow2, shr}
use omni_mailbox.Config.{smear, round_up_power_of_2}

-- The or of `v`, `v >> 1`, …, `v >> (n - 1)`.
window : ℕ → ℕ → ℕ
window zero v = 0
window (suc n) v = bit_or v (window n (v / 2))

window-half : (n v : ℕ) → window n v / 2 ≡ window n (v / 2)
unfolding window
window-half zero v = refl
window-half (suc n) v = ground (arith, bit_or_halves v (window n (v / 2)), window-half n (v / 2))

shr-suc : (v k : ℕ) → shr v (suc k) ≡ shr (v / 2) k
shr-suc v k = rw (pow-suc 2 k, mul_comm (2 ^ k) 2) (sym (div-div-eq-div-mul v 2 (2 ^ k)))

window-shr : (k n v : ℕ) → shr (window n v) k ≡ window n (shr v k)
window-shr zero n v = div-one (window n v) ∙ ap (window n) (sym (div-one v))
window-shr (suc k) n v =
    shr-suc (window n v) k
    ∙ ap (λ w. shr w k) (window-half n v)
    ∙ window-shr k n (v / 2)
    ∙ ap (window n) (sym (shr-suc v k))

window-add : (m n v : ℕ) → bit_or (window m v) (window n (shr v m)) ≡ window (m + n) v
unfolding window
window-add zero n v =
    ap (bit_or 0) (ap (window n) (div-one v))
    ∙ bit_or_zero_left (window n v)
    ∙ ap (λ k. window k v) (sym (add.zero n))
window-add (suc m) n v =
    bit_or_assoc v (window m (v / 2)) (window n (shr v (suc m)))
    ∙ ap (λ w. bit_or v (bit_or (window m (v / 2)) (window n w))) (shr-suc v m)
    ∙ ap (bit_or v) (window-add m n (v / 2))
    ∙ ap (λ k. window k v) (sym (add.suc m n))

-- Each line doubles the window.
window_double : (m v : ℕ) → bit_or (window m v) (shr (window m v) m) ≡ window (m + m) v
window_double m v = ap (bit_or (window m v)) (window-shr m m v) ∙ window-add m m v

window_one : (v : ℕ) → window 1 v ≡ v
unfolding window
window_one v = bit_or_zero v

smear_line : (m w v : ℕ) → w ≡ window m v → bit_or w (shr w m) ≡ window (m + m) v
smear_line m w v e = ap (λ x. bit_or x (shr x m)) e ∙ window_double m v

smear-window : (v : ℕ) → smear v ≡ window 64 v
unfolding smear
smear-window v = smear_line 32 _ v (
    smear_line 16 _ v (
      smear_line 8 _ v
        (smear_line 4 _ v (smear_line 2 _ v (smear_line 1 _ v (sym (window_one v)))))))

window-zero : (n : ℕ) → window n 0 ≡ 0
unfolding window
window-zero zero = refl
window-zero (suc n) = ap (bit_or 0) (window-zero n)

-- A window as wide as the number fills every digit below the top one.
window_ones : (n k v : ℕ) → k < n → 2 ^ k ≤ v → v < 2 ^ suc k → window n v ≡ 2 ^ suc k - 1
unfolding window
window_ones zero k v h low high = absurd (omega arith)
window_ones (suc n) zero v h low high = let one : v ≡ 1 = omega arith in rw (one, window-zero n)
window_ones (suc n) (suc k) v h low high =
    ap (bit_or v) (
      window_ones n k (v / 2) (omega arith) (omega (arith, pow-suc 2 k))
        (omega (arith, pow-suc 2 (suc k))))
    ∙ bit_or_ones (suc k) v low high

-- The place of the top digit.
top_digit : (n v : ℕ) → 0 < v → v < 2 ^ n → (k : ℕ) × (k < n) × (2 ^ k ≤ v) × (v < 2 ^ suc k)
top_digit zero v pos h = absurd (omega arith)
top_digit (suc n) v pos h = elim (dec_lt v (2 ^ n)) [
  | yes below ↦ let (k, lt, low, high) = top_digit n v pos below in (k, omega arith, low, high)
  | no above ↦ (n, omega arith, omega arith, h)
]

round_up_past_one :
    (value k : ℕ)
    → k < 63
    → 2 ^ k < value
    → value ≤ 2 ^ suc k
    → round_up_power_of_2 value ≡ 2 ^ suc k
unfolding round_up_power_of_2
round_up_past_one value k h low high = ground (
  arith,
  smear-window (value - 1),
  window_ones 64 k (value - 1),
  pow-le-pow_right {n = 2} (omega arith) {i = suc k} {j = 63} (omega arith),
  one-le-pow (suc k) 2,
)

round_up_one : round_up_power_of_2 1 ≡ 1
unfolding round_up_power_of_2
round_up_one = refl

-- For a value from 1 to 2^63 the result of `RoundUpPowerOf2` is a power of two, not below the value
-- and below its double: the least power of two that is large enough.
pub round_up_power_of_2_least :
    (value : ℕ)
    → 0 < value
    → value ≤ 2 ^ 63
    → IsPow2 (round_up_power_of_2 value)
      × (value ≤ round_up_power_of_2 value)
      × (round_up_power_of_2 value < 2 * value)
round_up_power_of_2_least value pos small = elim (ℕ_discrete value 1) [
  | yes one ↦ rw (one, round_up_one) ((0, refl), omega arith, omega arith)
  | no more ↦
      let (k, lt, low, high) = top_digit 63 (value - 1) (omega arith) (omega arith) in
      rw (round_up_past_one value k lt (omega arith) (omega arith))
        ((suc k, refl), omega arith, omega (arith, pow-suc 2 k))
]
