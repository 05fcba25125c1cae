-- ===== src/Spsc.antt =====
-- include/omni/detail/spsc_queue.hpp: the shared queue. The buffer is a list of bytes; the atomic
-- fields are plain values here, read and written one operation at a time.
pub mod Layout
pub mod Window
pub mod Invariant
pub mod Changes
use omni_mailbox.Base.{ℕ, ◌+◌, ◌-◌, ◌*◌, ◌^◌, Bool, true, List, replicate, bit_and}
use omni_mailbox.Base.Words.{u64}

pub record SpscQueue : Type 0 where
  pub write_index : ℕ
  pub read_index : ℕ
  pub producer_alive : Bool
  pub consumer_alive : Bool
  pub capacity : ℕ
  pub max_message_size : ℕ
  pub slot_size : ℕ
  pub buffer : List ℕ

-- `~(align - 1)` is the complement in 64 bits.
pub align_up : ℕ → ℕ → ℕ
align_up val align = bit_and (u64 (val + align - 1)) (2 ^ 64 - 1 - (align - 1))

-- The constructor; `std::memset` fills the buffer with zeros.
unfoldable pub spsc_queue : ℕ → ℕ → SpscQueue
unfolding align_up
spsc_queue cap max_msg_size =
    let slot_size = align_up (u64 (4 + max_msg_size)) 8 in
    record {
      write_index = 0;
      read_index = 0;
      producer_alive = true;
      consumer_alive = true;
      capacity = cap;
      max_message_size = max_msg_size;
      slot_size = slot_size;
      buffer = replicate (u64 (cap * slot_size)) 0;
    }
