-- ===== src/Spsc/Invariant.antt =====
-- The representation invariant of the shared queue, the messages that it holds, and the three
-- ways in which an operation changes it: a write into the spare slot, a publication, a release.
use native.Mathlib.Nat.{mod-lt, mod-eq_of_lt}
use omni_mailbox.Base.{
  ℕ, ◌+◌, ◌*◌, ◌%◌, ◌^◌, ◌≤◌, ◌<◌, ◌≡◌, refl, ap, ◌∙◌, Bool, List, [], length, length-replicate,
  arith,
}
use omni_mailbox.Base.Words.{IsPow2, IsPow2-pos, u64, sub_u64}
use omni_mailbox.Helpers.{get_slot_pointer}
use omni_mailbox.Helpers.Indices.{Apart, get_slot_index-mod}
use omni_mailbox.Config.{ChannelConfig}
use omni_mailbox.Config.Normal.{Normal}
use omni_mailbox.Spsc.{SpscQueue, spsc_queue, align_up}
use omni_mailbox.Spsc.Layout.{align_up_8, slot_ends, buffer_small}
use omni_mailbox.Spsc.Window.{window, Sized}

-- The number of messages stored, by the indices.
abbrev pub stored : SpscQueue → ℕ
stored q = sub_u64 q.write_index q.read_index

-- The messages that are stored, oldest first.
abbrev pub contents : SpscQueue → List (List ℕ)
contents q = window q.slot_size q.capacity q.buffer q.read_index (stored q)

-- The slot that the producer writes next.
abbrev pub write_slot : SpscQueue → ℕ
write_slot q = q.write_index % q.capacity

abbrev pub read_slot : SpscQueue → ℕ
read_slot q = q.read_index % q.capacity

pub record IsValid (q : SpscQueue) : Type 0 where
  pub power : IsPow2 q.capacity
  pub capacity_high : q.capacity ≤ 524288
  pub message_high : q.max_message_size ≤ 1048576
  pub slot_low : 4 + q.max_message_size ≤ q.slot_size
  pub slot_high : q.slot_size ≤ 1048592
  pub storage : length q.buffer ≡ q.capacity * q.slot_size
  pub fits_w : q.write_index < 2 ^ 64
  pub fits_r : q.read_index < 2 ^ 64
  pub room : stored q < q.capacity
  pub sized : Sized q.slot_size q.capacity q.max_message_size q.buffer q.read_index (stored q)

-- A queue built from a normalised configuration is valid and empty.
pub spsc_queue-IsValid :
    (c : ChannelConfig)
    → Normal c
    → let q = spsc_queue c.capacity c.max_message_size in IsValid q × (contents q ≡ [])
unfolding spsc_queue
spsc_queue-IsValid c n =
    let prefixed : u64 (4 + c.max_message_size) ≡ 4 + c.max_message_size = omega arith in
    let (_, above, below) = align_up_8 (4 + c.max_message_size) (omega arith) in
    let small =
      buffer_small c.capacity (align_up (4 + c.max_message_size) 8) n.capacity_high (omega arith) in
    rw prefixed (
      record {
        power = n.power;
        capacity_high = n.capacity_high;
        message_high = n.message_high;
        slot_low = above;
        slot_high = omega arith;
        storage = length-replicate _ 0 ∙ mod-eq_of_lt small;
        fits_w = omega arith;
        fits_r = omega arith;
        room = omega arith;
        sized = tt;
      },
      refl,
    )

module _ (q : SpscQueue) (v : IsValid q) where
  open v use {power, capacity_high, slot_low, slot_high, storage, fits_w, fits_r, room, sized}

  -- The two flags are free.
  pub flags-IsValid :
      (producer consumer : Bool)
      → IsValid (record q { producer_alive = producer; consumer_alive = consumer })
  flags-IsValid producer consumer = record {
    power = power;
    capacity_high = capacity_high;
    message_high = v.message_high;
    slot_low = slot_low;
    slot_high = slot_high;
    storage = storage;
    fits_w = fits_w;
    fits_r = fits_r;
    room = room;
    sized = sized;
  }

  pub capacity_pos : 0 < q.capacity
  capacity_pos = IsPow2-pos q.capacity power

  pub indices : Apart q.capacity q.write_index q.read_index
  indices = record {
    power = power;
    small = omega arith;
    fits_w = fits_w;
    fits_r = fits_r;
    room = room;
  }

  -- Every slot lies inside the buffer.
  pub slot_inside : (k : ℕ) → k < q.capacity → k * q.slot_size + q.slot_size ≤ length q.buffer
  slot_inside k h = omega (arith, slot_ends k q.capacity q.slot_size h)

  -- `GetSlotPointer` points at the slot of the index, and its product does not wrap.
  pub get_slot_pointer-slot :
      (index : ℕ) → get_slot_pointer index q.capacity q.slot_size ≡ index % q.capacity * q.slot_size
  unfolding get_slot_pointer
  get_slot_pointer-slot index =
      ap (λ (t : ℕ). u64 (t * q.slot_size))
        (get_slot_index-mod q.capacity power (omega arith) index)
      ∙ mod-eq_of_lt (
          omega (
            arith,
            slot_ends (index % q.capacity) q.capacity q.slot_size (mod-lt index capacity_pos),
            buffer_small q.capacity q.slot_size capacity_high slot_high,
          ))

  -- In a valid queue the slot that `GetSlotPointer` gives for an index, which may be any number, is
  -- the index modulo the capacity, and lies inside the buffer whole.
  pub get_slot_pointer_inside :
      (index : ℕ)
      → let slot = get_slot_pointer index q.capacity q.slot_size in
        (slot ≡ index % q.capacity * q.slot_size) × (slot + q.slot_size ≤ length q.buffer)
  get_slot_pointer_inside index =
      let e = get_slot_pointer-slot index in
      (e, omega (arith, slot_inside (index % q.capacity) (mod-lt index capacity_pos)))
