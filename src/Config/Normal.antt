-- ===== src/Config/Normal.antt =====
-- `ChannelConfig::Normalize` and `ChannelConfig::IsValid`: what the one returns the other accepts.
use native.Mathlib.Nat.{pow-le-pow_right}
use native.Mathlib.Decide.{dec_lt}
use omni_mailbox.Base.{
  ℕ, ◌*◌, ◌≤◌, ◌<◌, ◌≡◌, refl, ◌↔◌, true, false, arith, Bool-cases, inl, inr, if◌then◌else◌,
}
use omni_mailbox.Base.Words.{IsPow2, bit_and_pred_of_IsPow2, IsPow2-bit_and}
use omni_mailbox.Config.{
  ChannelConfig, clamp, is_not_power_of_2, round_up_power_of_2, normalize, is_valid,
}
use omni_mailbox.Config.RoundUp.{round_up_power_of_2_least}

-- The sizes that a channel may have.
pub record Normal (c : ChannelConfig) : Type 0 where
  pub power : IsPow2 c.capacity
  pub capacity_low : 8 ≤ c.capacity
  pub capacity_high : c.capacity ≤ 524288
  pub message_low : 64 ≤ c.max_message_size
  pub message_high : c.max_message_size ≤ 1048576

-- The mask test of `Normalize` and `IsValid` tells the powers of two from the other numbers.
is_not_power_of_2-false : (n : ℕ) → IsPow2 n → is_not_power_of_2 n ≡ false
is_not_power_of_2-false n p = ground (arith, bit_and_pred_of_IsPow2 n p)

IsPow2-is_not_power_of_2 : (n : ℕ) → 0 < n → is_not_power_of_2 n ≡ false → IsPow2 n
IsPow2-is_not_power_of_2 n pos e = IsPow2-bit_and n pos (ground arith)

-- A power of two below 2^20 is at most 2^19.
IsPow2-le : (n : ℕ) → IsPow2 n → n < 1048576 → n ≤ 524288
IsPow2-le n (k, e) h = elim (dec_lt k 20) [
  | yes small ↦ omega (arith, pow-le-pow_right {n = 2} (omega arith) {i = k} {j = 19} (omega arith))
  | no large ↦
      absurd (omega (arith, pow-le-pow_right {n = 2} (omega arith) {i = 20} {j = k} (omega arith)))
]

-- `IsValid` accepts exactly the configurations in range whose capacity is a power of two.
pub is_valid_iff : (c : ChannelConfig) → (is_valid c ≡ true) ↔ Normal c
unfolding is_valid
is_valid_iff c = (accepted, λ n. ground (arith, is_not_power_of_2-false c.capacity n.power))
  where
    accepted : is_valid c ≡ true → Normal c
    accepted e = record {
      power = IsPow2-is_not_power_of_2 c.capacity (ground arith) (ground arith);
      capacity_low = ground arith;
      capacity_high = ground arith;
      message_low = ground arith;
      message_high = ground arith;
    }

-- The capacity that `Normalize` keeps or rounds.
abbrev rounded : ℕ → ℕ
rounded n = if is_not_power_of_2 n then round_up_power_of_2 n else n

rounded_least :
    (n : ℕ) → 0 < n → n ≤ 524288 → IsPow2 (rounded n) × (n ≤ rounded n) × (rounded n < 2 * n)
rounded_least n pos small = elim (Bool-cases (is_not_power_of_2 n)) [
  | inl odd ↦ rw odd (round_up_power_of_2_least n pos (omega arith))
  | inr power ↦ rw power (IsPow2-is_not_power_of_2 n pos power, omega arith, omega arith)
]

clamp_bounds : (v lo hi : ℕ) → lo ≤ hi → (lo ≤ clamp v lo hi) × (clamp v lo hi ≤ hi)
clamp_bounds v lo hi h = ground arith

-- Whatever the caller asks for, the normalised configuration has sizes that a channel may have.
pub normalize-Normal : (c : ChannelConfig) → Normal (normalize c)
unfolding normalize
normalize-Normal c =
    let n = clamp c.capacity 8 524288 in
    let (low, high) = clamp_bounds c.capacity 8 524288 (omega arith) in
    let (power, above, below) = rounded_least n (omega arith) high in
    record {
      power = power;
      capacity_low = omega arith;
      capacity_high = IsPow2-le (rounded n) power (omega arith);
      message_low = ground arith;
      message_high = ground arith;
    }

-- `Normalize` clamps the capacity to 8 and 524288 and rounds it up to the least power of two that is
-- not below that, and clamps the message size to 64 and 1048576, the bounds of the code.
pub normalize_least :
    (c : ChannelConfig)
    → let n = normalize c in
      let wanted = clamp c.capacity 8 524288 in
      IsPow2 n.capacity
      × (wanted ≤ n.capacity)
      × (n.capacity < 2 * wanted)
      × (n.max_message_size ≡ clamp c.max_message_size 64 1048576)
unfolding normalize
normalize_least c =
    let n = clamp c.capacity 8 524288 in
    let (low, high) = clamp_bounds c.capacity 8 524288 (omega arith) in
    let (power, above, below) = rounded_least n (omega arith) high in (power, above, below, refl)

-- A configuration that `IsValid` accepts is left as it is.
pub normalize_of_is_valid : (c : ChannelConfig) → is_valid c ≡ true → normalize c ≡ c
unfolding normalize
normalize_of_is_valid c e =
    let n = (is_valid_iff c).0 e in ground (arith, is_not_power_of_2-false c.capacity n.power)

-- What `Normalize` returns `IsValid` accepts, and normalising it again changes nothing.
pub normalize_settles :
    (c : ChannelConfig) → (is_valid (normalize c) ≡ true) × (normalize (normalize c) ≡ normalize c)
normalize_settles c =
    let accepted = (is_valid_iff (normalize c)).1 (normalize-Normal c) in
    (accepted, normalize_of_is_valid (normalize c) accepted)
