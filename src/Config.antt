-- ===== src/Config.antt =====
-- include/omni/detail/config.hpp: the result codes, and the channel configuration with its
-- normalisation and validation. Sizes are 64-bit words.
pub mod RoundUp
pub mod Normal
use omni_mailbox.Base.{
  ℕ, ◌+◌, ◌-◌, Bool, true, false, not, ◌||◌, ltb, ◌==◌, if◌then◌else◌, bit_and, bit_or,
}
use omni_mailbox.Base.Words.{add_u64, shr}

pub data PushResult : Type 0 where
  success timeout channel_closed invalid_size queue_full : PushResult

pub data PopResult : Type 0 where
  success timeout channel_closed empty : PopResult

pub data ChannelError : Type 0 where
  success name_exists invalid_config allocation_failed : ChannelError

pub record ChannelConfig : Type 0 where
  pub capacity : ℕ
  pub max_message_size : ℕ

abbrev pub default_config : ChannelConfig
default_config = record { capacity = 1024; max_message_size = 4096 }

-- `std::clamp`
abbrev pub clamp : ℕ → ℕ → ℕ → ℕ
clamp v lo hi = if ltb v lo then lo else if ltb hi v then hi else v

-- The six `value |= value >> …` lines.
pub smear : ℕ → ℕ
smear v =
    let a = bit_or v (shr v 1) in
    let b = bit_or a (shr a 2) in
    let c = bit_or b (shr b 4) in
    let d = bit_or c (shr c 8) in let e = bit_or d (shr d 16) in bit_or e (shr e 32)

-- `value--` runs only at `value != 0`.
pub round_up_power_of_2 : ℕ → ℕ
unfolding smear
round_up_power_of_2 value = if value == 0 then 1 else add_u64 (smear (value - 1)) 1

-- The test `(n & (n - 1)) != 0`, at `n != 0`.
abbrev pub is_not_power_of_2 : ℕ → Bool
is_not_power_of_2 n = not (bit_and n (n - 1) == 0)

unfoldable pub normalize : ChannelConfig → ChannelConfig
unfolding round_up_power_of_2
normalize config =
    let capacity = clamp config.capacity 8 524288 in
    record {
      capacity = if is_not_power_of_2 capacity then round_up_power_of_2 capacity else capacity;
      max_message_size = clamp config.max_message_size 64 1048576;
    }

pub is_valid : ChannelConfig → Bool
is_valid config =
    if ltb config.capacity 8 || ltb 524288 config.capacity
    then false
    else if is_not_power_of_2 config.capacity
    then false
    else if ltb config.max_message_size 64 || ltb 1048576 config.max_message_size
    then false
    else true
