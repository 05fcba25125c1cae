-- ===== src/Tests/Configs.antt =====
-- Configurations, ring arithmetic and the empty queue.
use omni_mailbox.Base.{◌+◌, ◌-◌, ◌^◌, ◌≤◌, ◌<◌, ◌≡◌, ◌↔◌, refl, true, [], ◌∷◌, length, arith}
use omni_mailbox.Base.Words.{IsPow2, sub_u64}
use omni_mailbox.Config.{ChannelConfig, normalize}
use omni_mailbox.Config.Normal.{normalize_least}
use omni_mailbox.Helpers.{is_queue_full, get_slot_pointer, write_size_prefix, read_size_prefix}
use omni_mailbox.Helpers.Indices.{Apart, is_queue_full_iff}
use omni_mailbox.Helpers.Prefix.{read-write_size_prefix}
use omni_mailbox.Spsc.Invariant.{indices, get_slot_pointer_inside}
use omni_mailbox.Tests.Fixtures.{wrapped, wrapped-IsValid}

abbrev odd : ChannelConfig
odd = record { capacity = 1000; max_message_size = 3 }

normalize-odd : normalize odd ≡ record { capacity = 1024; max_message_size = 64 }
unfolding normalize
normalize-odd = refl

normalize_least_example :
    IsPow2 (normalize odd).capacity
    × (1000 ≤ (normalize odd).capacity)
    × ((normalize odd).capacity < 2000)
    × ((normalize odd).max_message_size ≡ 64)
normalize_least_example = normalize_least odd

apart : Apart 4 1 (2 ^ 64 - 1)
apart = indices wrapped wrapped-IsValid

is_queue_full_iff_example : (is_queue_full 1 (2 ^ 64 - 1) 4 ≡ true) ↔ (sub_u64 1 (2 ^ 64 - 1) ≡ 3)
is_queue_full_iff_example = is_queue_full_iff 4 1 (2 ^ 64 - 1) apart

read-write_size_prefix_example :
    read_size_prefix (write_size_prefix (1 ∷ 2 ∷ 3 ∷ 4 ∷ 5 ∷ []) 1 70000) 1 ≡ 70000
read-write_size_prefix_example =
    read-write_size_prefix (1 ∷ 2 ∷ 3 ∷ 4 ∷ 5 ∷ []) 1 70000 (omega arith) (omega arith)

get_slot_pointer_inside_example :
    (get_slot_pointer (2 ^ 64 - 1) 4 8 ≡ 24) × (24 + 8 ≤ length wrapped.buffer)
unfolding get_slot_pointer
get_slot_pointer_inside_example = get_slot_pointer_inside wrapped wrapped-IsValid (2 ^ 64 - 1)
