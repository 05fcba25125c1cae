-- ===== src/Helpers.antt =====
-- include/omni/detail/queue_helpers.hpp: the arithmetic of ring indices, and the size prefix of a
-- slot. A pointer into the ring buffer is its offset from the buffer's start; indices and sizes
-- are 64-bit words.
pub mod Bytes
pub mod Indices
pub mod Prefix
use omni_mailbox.Base.{
  ℕ, ◌+◌, ◌-◌, ◌*◌, ◌/◌, ◌%◌, ◌^◌, Bool, ◌&&◌, List, [], ◌∷◌, leb, ltb, ◌==◌, bit_and,
}
use omni_mailbox.Base.Words.{u64, u32, add_u64, sub_u64}
use Bytes.{memcpy_to, memcpy_from}

-- SIZE_MAX - 12
abbrev pub max_safe_message_size : ℕ
max_safe_message_size = 2 ^ 64 - 1 - 12

abbrev pub size_prefix_bytes : ℕ
size_prefix_bytes = 4

unfoldable pub is_valid_message_size : ℕ → ℕ → Bool
is_valid_message_size size max_message_size =
    ltb 0 size && leb size max_message_size && leb size max_safe_message_size

-- `capacity - 1`
abbrev pub mask : ℕ → ℕ
mask capacity = sub_u64 capacity 1

unfoldable pub is_queue_full : ℕ → ℕ → ℕ → Bool
is_queue_full write_index read_index capacity =
    bit_and (add_u64 write_index 1) (mask capacity) == bit_and read_index (mask capacity)

unfoldable pub is_queue_empty : ℕ → ℕ → ℕ → Bool
is_queue_empty read_index write_index capacity =
    bit_and read_index (mask capacity) == bit_and write_index (mask capacity)

unfoldable pub get_slot_index : ℕ → ℕ → ℕ
get_slot_index index capacity = bit_and index (mask capacity)

unfoldable pub get_slot_pointer : ℕ → ℕ → ℕ → ℕ
unfolding get_slot_index
get_slot_pointer index capacity slot_size = u64 (get_slot_index index capacity * slot_size)

pub available_slots : ℕ → ℕ → ℕ → ℕ
available_slots write_index read_index capacity =
    let used = bit_and (sub_u64 write_index read_index) (mask capacity) in
    sub_u64 (sub_u64 capacity used) 1

pub available_messages : ℕ → ℕ → ℕ → ℕ
available_messages read_index write_index capacity =
    bit_and (sub_u64 write_index read_index) (mask capacity)

-- The bytes of a `uint32_t` in memory, lowest first.
abbrev pub bytes_of_u32 : ℕ → List ℕ
bytes_of_u32 n = n % 256 ∷ n / 256 % 256 ∷ n / 65536 % 256 ∷ n / 16777216 % 256 ∷ []

abbrev pub u32_of_bytes : List ℕ → ℕ
u32_of_bytes [] = 0
u32_of_bytes (b ∷ bs) = b + 256 * u32_of_bytes bs

unfoldable pub write_size_prefix : List ℕ → ℕ → ℕ → List ℕ
write_size_prefix buffer slot size = memcpy_to buffer slot (bytes_of_u32 (u32 size))

unfoldable pub read_size_prefix : List ℕ → ℕ → ℕ
read_size_prefix buffer slot = u32_of_bytes (memcpy_from buffer slot size_prefix_bytes)

unfoldable pub get_payload_pointer : ℕ → ℕ
get_payload_pointer slot = slot + size_prefix_bytes
