-- ===== src/Helpers/Indices.antt =====
-- `IsQueueFull`, `IsQueueEmpty`, `AvailableSlots` and `AvailableMessages` against the number of
-- messages between the two indices, the wrap of the indices at 2^64 included.
use Prim.Native.Nat.{◌∣◌}
use native.Mathlib.Nat.{
  mod-eq_of_lt, mod-mod_of_dvd, mod-eq-sub-mod, mod-lt, mod-add-mod, add-mod_right, dvd-mul_right,
  dvd_refl, dvd_trans, pow-suc, pow-le-pow_right,
}
use native.Mathlib.Decide.{dec_lt, ℕ_discrete}
use omni_mailbox.Base.{
  ℕ, zero, suc, ◌+◌, ◌-◌, ◌%◌, ◌^◌, ◌≤◌, ◌<◌, ◌≡◌, sym, ap, ap₂, ◌∙◌, ◌↔◌, ◌⊎◌, inl, inr, true,
  bit_and, arith, ◌==◌, ==→eq, eq→==,
}
use omni_mailbox.Base.Words.{IsPow2, IsPow2-pos, u64, add_u64, sub_u64}
use omni_mailbox.Base.Bits.{bit_and_mask}
use omni_mailbox.Helpers.{
  mask, is_queue_full, is_queue_empty, get_slot_index, available_slots, available_messages,
}

pow2-dvd : (n k : ℕ) → k ≤ n → 2 ^ k ∣ 2 ^ n
pow2-dvd zero k h = let e : k ≡ 0 = omega arith in rw e (dvd_refl _)
pow2-dvd (suc n) k h = elim (ℕ_discrete k (suc n)) [
  | yes e ↦ rw e (dvd_refl _)
  | no ne ↦ dvd_trans _ (pow2-dvd n k (omega arith)) (rw (pow-suc 2 n) (dvd-mul_right _ 2))
]

-- A remainder below twice the modulus.
pub mod_once : (x m : ℕ) → x < m + m → ((x < m) × (x % m ≡ x)) ⊎ ((m ≤ x) × (x % m ≡ x - m))
mod_once x m h = elim (dec_lt x m) [
  | yes below ↦ inl (below, mod-eq_of_lt below)
  | no above ↦ inr (omega arith, mod-eq-sub-mod (omega arith) ∙ mod-eq_of_lt (omega arith))
]

-- Going round the ring by at most one turn comes back to the start after a whole turn only.
pub mod-eq_turn : (r k m : ℕ) → 0 < k → k ≤ m → (r + k) % m ≡ r % m → k ≡ m
mod-eq_turn r k m pos h e =
    omega (arith, mod-add-mod r m k, mod_once (r % m + k) m, mod-lt r {m = m} (omega arith))

module _ (capacity : ℕ) (power : IsPow2 capacity) (small : capacity < 2 ^ 64) where
  capacity_dvd : capacity ∣ 2 ^ 64
  capacity_dvd = elim (dec_lt power.0 65) [
    | yes fits ↦ rw power.1 (pow2-dvd 64 power.0 (omega arith))
    | no large ↦ absurd (
        omega (
          arith,
          power.1,
          pow-le-pow_right {n = 2} (omega arith) {i = 65} {j = power.0} (omega arith),
        ))
  ]

  -- The wrap of an index at 2^64 does not change its slot.
  pub u64-mod : (x : ℕ) → u64 x % capacity ≡ x % capacity
  u64-mod x = mod-mod_of_dvd capacity x capacity_dvd

  mask-pred : mask capacity ≡ 2 ^ power.0 - 1
  mask-pred = omega (arith, power.1, IsPow2-pos capacity power)

  pub bit_and-mask : (x : ℕ) → bit_and x (mask capacity) ≡ x % capacity
  bit_and-mask x = rw (mask-pred, power.1) (bit_and_mask power.0 x)

  -- `GetSlotIndex` is the index modulo the capacity.
  pub get_slot_index-mod : (index : ℕ) → get_slot_index index capacity ≡ index % capacity
  unfolding get_slot_index
  get_slot_index-mod index = bit_and-mask index

-- Two indices with fewer than `capacity` messages between them.
pub record Apart (capacity w r : ℕ) : Type 0 where
  pub power : IsPow2 capacity
  pub small : capacity < 2 ^ 64
  pub fits_w : w < 2 ^ 64
  pub fits_r : r < 2 ^ 64
  pub room : sub_u64 w r < capacity

module _ (capacity w r : ℕ) (a : Apart capacity w r) where
  open a use {power, small, fits_w, fits_r, room}

  -- The write index stands as many slots past the read index as there are messages.
  pub write-mod : w % capacity ≡ (r + sub_u64 w r) % capacity
  write-mod =
      ap (λ (t : ℕ). t % capacity) (omega arith) ∙ u64-mod capacity power small (r + sub_u64 w r)

  pub next-mod : add_u64 w 1 % capacity ≡ (r + (sub_u64 w r + 1)) % capacity
  next-mod =
      ap (λ (t : ℕ). t % capacity) (omega arith)
      ∙ u64-mod capacity power small (r + (sub_u64 w r + 1))

  full_slots : is_queue_full w r capacity ≡ ((add_u64 w 1 % capacity) == (r % capacity))
  unfolding is_queue_full
  full_slots =
      ap₂ ◌==◌ (bit_and-mask capacity power small (add_u64 w 1))
        (bit_and-mask capacity power small r)

  empty_slots : is_queue_empty r w capacity ≡ ((r % capacity) == (w % capacity))
  unfolding is_queue_empty
  empty_slots = ap₂ ◌==◌ (bit_and-mask capacity power small r) (bit_and-mask capacity power small w)

  -- For two indices with fewer than `capacity` messages between them, which may have wrapped at
  -- 2^64, `IsQueueFull` holds exactly when `capacity - 1` messages are stored.
  pub is_queue_full_iff : (is_queue_full w r capacity ≡ true) ↔ (sub_u64 w r ≡ capacity - 1)
  is_queue_full_iff = (
    λ e.
        let turn =
          mod-eq_turn r (sub_u64 w r + 1) capacity (omega arith) (omega arith)
            (sym next-mod ∙ ==→eq _ _ (sym full_slots ∙ e)) in
        omega arith,
    λ e.
        full_slots
        ∙ eq→== _ _ (
            next-mod ∙ ap (λ (t : ℕ). (r + t) % capacity) (omega arith) ∙ add-mod_right r capacity),
  )

  -- For two indices with fewer than `capacity` messages between them, which may have wrapped at
  -- 2^64, `IsQueueEmpty` holds exactly when no message is stored.
  pub is_queue_empty_iff : (is_queue_empty r w capacity ≡ true) ↔ (sub_u64 w r ≡ 0)
  is_queue_empty_iff = (
    λ e. elim (ℕ_discrete (sub_u64 w r) 0) [
      | yes none_left ↦ none_left
      | no some_left ↦
          let turn =
            mod-eq_turn r (sub_u64 w r) capacity (omega arith) (omega arith)
              (sym write-mod ∙ sym (==→eq _ _ (sym empty_slots ∙ e))) in
          absurd (omega arith)
    ],
    λ e. empty_slots ∙ eq→== _ _ (ap (λ (t : ℕ). t % capacity) (omega arith)),
  )

  available_messages-count : available_messages r w capacity ≡ sub_u64 w r
  unfolding available_messages
  available_messages-count = bit_and-mask capacity power small (sub_u64 w r) ∙ mod-eq_of_lt room

  available_slots-count : available_slots w r capacity ≡ capacity - 1 - sub_u64 w r
  unfolding available_slots
  available_slots-count =
      ap (λ (t : ℕ). sub_u64 (sub_u64 capacity t) 1)
        (bit_and-mask capacity power small (sub_u64 w r) ∙ mod-eq_of_lt room)
      ∙ omega arith

  -- For two indices with fewer than `capacity` messages between them, `AvailableMessages` is the
  -- number of these messages, and with `AvailableSlots` it adds up to `capacity - 1`.
  pub available_counts :
      (available_messages r w capacity ≡ sub_u64 w r)
      × (available_messages r w capacity + available_slots w r capacity ≡ capacity - 1)
  available_counts =
      (available_messages-count, omega (arith, available_messages-count, available_slots-count))
