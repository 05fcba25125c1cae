-- ===== src/Helpers/Prefix.antt =====
-- The size prefix of a slot and the payload behind it.
use omni_mailbox.Base.{ℕ, ◌+◌, ◌^◌, ◌≤◌, ◌<◌, ◌≡◌, ◌∙◌, ap, ◌↔◌, true, List, length, arith}
use omni_mailbox.Base.Words.{u32}
use omni_mailbox.Helpers.Bytes.{memcpy_from-memcpy_to_self}
use omni_mailbox.Helpers.{
  is_valid_message_size, max_safe_message_size, bytes_of_u32, u32_of_bytes, write_size_prefix,
  read_size_prefix,
}

-- `IsValidMessageSize` accepts the sizes from 1 to the limit; the overflow test never decides for
-- a limit below SIZE_MAX - 12.
pub is_valid_message_size_iff :
    (size limit : ℕ)
    → limit ≤ max_safe_message_size
    → (is_valid_message_size size limit ≡ true) ↔ ((0 < size) × (size ≤ limit))
unfolding is_valid_message_size
is_valid_message_size_iff size limit h = ground arith

u32_of_bytes_of_u32 : (n : ℕ) → n < 2 ^ 32 → u32_of_bytes (bytes_of_u32 n) ≡ n
u32_of_bytes_of_u32 n h = omega arith

-- A size below 2^32 whose prefix was written inside the buffer is read back.
pub read-write_size_prefix :
    (buffer : List ℕ) (slot size : ℕ)
    → slot + 4 ≤ length buffer
    → size < 2 ^ 32
    → read_size_prefix (write_size_prefix buffer slot size) slot ≡ size
unfolding read_size_prefix write_size_prefix
read-write_size_prefix buffer slot size room fits =
    ap u32_of_bytes (memcpy_from-memcpy_to_self buffer slot (bytes_of_u32 (u32 size)) room)
    ∙ u32_of_bytes_of_u32 (u32 size) (omega arith)
    ∙ omega arith
