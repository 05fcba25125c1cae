-- ===== src/Spsc/Window.antt =====
-- The messages that lie in the slots from an index on, and what a write to another slot leaves of
-- them.
use native.Mathlib.Nat.{mod-add-mod}
use omni_mailbox.Base.{
  ℕ, zero, suc, ◌+◌, ◌*◌, ◌%◌, ◌≤◌, ◌<◌, ◌≡◌, ◌≢◌, ◌-◌, refl, sym, ap, ap₂, ◌∙◌, ◌⊎◌, inl, inr,
  List, [], ◌∷◌, ◌++◌, length, arith,
}
use omni_mailbox.Helpers.{read_size_prefix, size_prefix_bytes, u32_of_bytes}
use omni_mailbox.Helpers.Bytes.{
  memcpy_from, memcpy_to, memcpy_from-memcpy_to_before, memcpy_from-memcpy_to_after,
}
use omni_mailbox.Helpers.Indices.{mod-eq_turn}
use omni_mailbox.Spsc.Layout.{slot_ends}
use native.Mathlib.Decide.{dec_lt}

-- Two buffers that agree outside the bytes from `low` to `high`.
abbrev pub SameOutside : ℕ → ℕ → List ℕ → List ℕ → Type 0
SameOutside low high b b' =
    (start n : ℕ)
    → (start + n ≤ low) ⊎ (high ≤ start)
    → memcpy_from b' start n ≡ memcpy_from b start n

pub SameOutside-memcpy_to :
    (b : List ℕ) (offset low high : ℕ) (source : List ℕ)
    → low ≤ offset
    → offset + length source ≤ high
    → SameOutside low high b (memcpy_to b offset source)
SameOutside-memcpy_to b offset low high source p q start n (inl h) =
    memcpy_from-memcpy_to_before b offset source start n (omega arith)
SameOutside-memcpy_to b offset low high source p q start n (inr h) =
    memcpy_from-memcpy_to_after b offset source start n (omega arith)

module _ (s c : ℕ) where
  -- The size that slot `k` holds in its prefix.
  abbrev pub size_at : List ℕ → ℕ → ℕ
  size_at b k = read_size_prefix b (k * s)

  abbrev pub message_at : List ℕ → ℕ → List ℕ
  message_at b k = memcpy_from b (k * s + size_prefix_bytes) (size_at b k)

  -- The `n` messages from index `i` on, oldest first.
  abbrev pub window : List ℕ → ℕ → ℕ → List (List ℕ)
  window b i zero = []
  window b i (suc n) = message_at b (i % c) ∷ window b (i + 1) n

  -- Each of those slots holds a size from 1 to `limit`.
  abbrev pub Sized : ℕ → List ℕ → ℕ → ℕ → Type 0
  Sized limit b i zero = Unit {0}
  Sized limit b i (suc n) =
      (0 < size_at b (i % c)) × (size_at b (i % c) ≤ limit) × Sized limit b (i + 1) n

  mod_next : (i j : ℕ) → i % c ≡ j % c → (i + 1) % c ≡ (j + 1) % c
  mod_next i j e = sym (mod-add-mod i c 1) ∙ ap (λ (t : ℕ). (t + 1) % c) e ∙ mod-add-mod j c 1

  -- Only the slot of the index counts.
  pub window_congr : (b : List ℕ) (n i j : ℕ) → i % c ≡ j % c → window b i n ≡ window b j n
  window_congr b zero i j e = refl
  window_congr b (suc n) i j e =
      ap₂ ◌∷◌ (ap (message_at b) e) (window_congr b n (i + 1) (j + 1) (mod_next i j e))

  pub Sized-congr :
      (limit : ℕ) (b : List ℕ) (n i j : ℕ) → i % c ≡ j % c → Sized limit b i n → Sized limit b j n
  Sized-congr limit b zero i j e z = tt
  Sized-congr limit b (suc n) i j e z =
      (rw e at z.0, rw e at z.1, Sized-congr limit b n (i + 1) (j + 1) (mod_next i j e) z.2)

  pub length-window : (b : List ℕ) (n i : ℕ) → length (window b i n) ≡ n
  length-window b zero i = refl
  length-window b (suc n) i = ap suc (length-window b n (i + 1))

  -- One more slot at the end.
  pub window-snoc :
      (b : List ℕ) (n i : ℕ) → window b i (suc n) ≡ window b i n ++ message_at b ((i + n) % c) ∷ []
  window-snoc b zero i = ap (λ (t : ℕ). message_at b (t % c) ∷ []) (omega arith)
  window-snoc b (suc n) i = ap (◌∷◌ (message_at b (i % c))) (
      window-snoc b n (i + 1)
      ∙ ap (λ (t : ℕ). window b (i + 1) n ++ message_at b (t % c) ∷ []) (omega arith))

  pub Sized-snoc :
      (limit : ℕ) (b : List ℕ) (n i : ℕ)
      → Sized limit b i n
      → 0 < size_at b ((i + n) % c)
      → size_at b ((i + n) % c) ≤ limit
      → Sized limit b i (suc n)
  Sized-snoc limit b zero i z p q = let e : i + 0 ≡ i = omega arith in (rw e at p, rw e at q, tt)
  Sized-snoc limit b (suc n) i z p q =
      let e : i + suc n ≡ i + 1 + n = omega arith in
      (z.0, z.1, Sized-snoc limit b n (i + 1) z.2 (rw e at p) (rw e at q))

  -- A change inside slot `k`.
  module _ (limit : ℕ) (fits : 4 + limit ≤ s) (b b' : List ℕ) (k : ℕ)
      (same : SameOutside (k * s) (k * s + s) b b') where
    pub apart : (j : ℕ) → j ≢ k → (j * s + s ≤ k * s) ⊎ (k * s + s ≤ j * s)
    apart j ne = elim (dec_lt j k) [
      | yes below ↦ inl (slot_ends j k s below)
      | no above ↦ inr (slot_ends k j s (omega arith))
    ]

    pub size_at_other : (j : ℕ) → j ≢ k → size_at b' j ≡ size_at b j
    unfolding read_size_prefix
    size_at_other j ne = elim (apart j ne) [
      | inl before ↦ ap u32_of_bytes (same (j * s) 4 (inl (omega arith)))
      | inr after ↦ ap u32_of_bytes (same (j * s) 4 (inr after))
    ]

    message_at_other : (j : ℕ) → j ≢ k → size_at b j ≤ limit → message_at b' j ≡ message_at b j
    message_at_other j ne small =
        ap (memcpy_from b' (j * s + 4)) (size_at_other j ne) ∙ (elim (apart j ne) [
          | inl before ↦ same (j * s + 4) (size_at b j) (inl (omega arith))
          | inr after ↦ same (j * s + 4) (size_at b j) (inr (omega arith))
        ])

    -- With fewer than `c` slots up to `k`, the window before `k` does not change.
    pub window_other :
        (n i m : ℕ)
        → (i + m) % c ≡ k
        → n ≤ m
        → m < c
        → Sized limit b i n
        → (window b' i n ≡ window b i n) × Sized limit b' i n
    window_other zero i m e p q z = (refl, tt)
    window_other (suc n) i m e p q z =
        let ne : i % c ≢ k = λ h. absurd (omega (arith, turn (e ∙ sym h))) in
        let (w, z') =
          window_other n (i + 1) (m - 1) (ap (λ (t : ℕ). t % c) (omega arith) ∙ e) (omega arith)
            (omega arith) z.2 in
        let size = size_at_other (i % c) ne in
        (ap₂ ◌∷◌ (message_at_other (i % c) ne z.1) w, (rw size z.0, rw size z.1, z'))
      where
        turn : (i + m) % c ≡ i % c → m ≡ c
        turn = mod-eq_turn i m c (omega arith) (omega arith)
