-- ===== src/Helpers/Bytes.antt =====
-- `std::memcpy` into and out of a byte buffer, and what a copy leaves alone. A write past the end
-- is lost and a read past the end is short; the queue's invariant rules both out.
use omni_mailbox.Base.{
  ℕ, zero, suc, ◌+◌, ◌≤◌, ◌≡◌, refl, ap, List, [], ◌∷◌, length, take, drop, arith,
}

unfoldable pub memcpy_to : List ℕ → ℕ → List ℕ → List ℕ
memcpy_to [] offset source = []
memcpy_to (b ∷ buffer) (suc offset) source = b ∷ memcpy_to buffer offset source
memcpy_to (b ∷ buffer) zero [] = b ∷ buffer
memcpy_to (b ∷ buffer) zero (s ∷ source) = s ∷ memcpy_to buffer zero source

unfoldable pub memcpy_from : List ℕ → ℕ → ℕ → List ℕ
memcpy_from buffer offset n = take n (drop offset buffer)

pub length-memcpy_to :
    (buffer : List ℕ) (offset : ℕ) (source : List ℕ)
    → length (memcpy_to buffer offset source) ≡ length buffer
unfolding memcpy_to
length-memcpy_to [] offset source = refl
length-memcpy_to (b ∷ buffer) (suc offset) source = ap suc (length-memcpy_to buffer offset source)
length-memcpy_to (b ∷ buffer) zero [] = refl
length-memcpy_to (b ∷ buffer) zero (s ∷ source) = ap suc (length-memcpy_to buffer zero source)

pub length-memcpy_from :
    (buffer : List ℕ) (offset n : ℕ)
    → offset + n ≤ length buffer
    → length (memcpy_from buffer offset n) ≡ n
unfolding memcpy_from
length-memcpy_from [] zero zero h = refl
length-memcpy_from [] (suc offset) zero h = refl
length-memcpy_from [] zero (suc n) h = absurd (omega arith)
length-memcpy_from [] (suc offset) (suc n) h = absurd (omega arith)
length-memcpy_from (b ∷ buffer) zero zero h = refl
length-memcpy_from (b ∷ buffer) zero (suc n) h =
    ap suc (length-memcpy_from buffer zero n (omega arith))
length-memcpy_from (b ∷ buffer) (suc offset) n h = length-memcpy_from buffer offset n (omega arith)

pub memcpy_from-memcpy_to_self :
    (buffer : List ℕ) (offset : ℕ) (source : List ℕ)
    → offset + length source ≤ length buffer
    → memcpy_from (memcpy_to buffer offset source) offset (length source) ≡ source
unfolding memcpy_to memcpy_from
memcpy_from-memcpy_to_self [] zero [] h = refl
memcpy_from-memcpy_to_self [] (suc offset) [] h = refl
memcpy_from-memcpy_to_self [] offset (s ∷ source) h = absurd (omega arith)
memcpy_from-memcpy_to_self (b ∷ buffer) (suc offset) source h =
    memcpy_from-memcpy_to_self buffer offset source (omega arith)
memcpy_from-memcpy_to_self (b ∷ buffer) zero [] h = refl
memcpy_from-memcpy_to_self (b ∷ buffer) zero (s ∷ source) h =
    ap (◌∷◌ s) (memcpy_from-memcpy_to_self buffer zero source (omega arith))

pub memcpy_from-memcpy_to_before :
    (buffer : List ℕ) (offset : ℕ) (source : List ℕ) (start n : ℕ)
    → start + n ≤ offset
    → memcpy_from (memcpy_to buffer offset source) start n ≡ memcpy_from buffer start n
unfolding memcpy_to memcpy_from
memcpy_from-memcpy_to_before [] offset source start n h = refl
memcpy_from-memcpy_to_before (b ∷ buffer) zero source zero zero h = refl
memcpy_from-memcpy_to_before (b ∷ buffer) zero source zero (suc n) h = absurd (omega arith)
memcpy_from-memcpy_to_before (b ∷ buffer) zero source (suc start) n h = absurd (omega arith)
memcpy_from-memcpy_to_before (b ∷ buffer) (suc offset) source zero zero h = refl
memcpy_from-memcpy_to_before (b ∷ buffer) (suc offset) source zero (suc n) h =
    ap (◌∷◌ b) (memcpy_from-memcpy_to_before buffer offset source zero n (omega arith))
memcpy_from-memcpy_to_before (b ∷ buffer) (suc offset) source (suc start) n h =
    memcpy_from-memcpy_to_before buffer offset source start n (omega arith)

pub memcpy_from-memcpy_to_after :
    (buffer : List ℕ) (offset : ℕ) (source : List ℕ) (start n : ℕ)
    → offset + length source ≤ start
    → memcpy_from (memcpy_to buffer offset source) start n ≡ memcpy_from buffer start n
unfolding memcpy_to memcpy_from
memcpy_from-memcpy_to_after [] offset source start n h = refl
memcpy_from-memcpy_to_after (b ∷ buffer) zero [] start n h = refl
memcpy_from-memcpy_to_after (b ∷ buffer) zero (s ∷ source) zero n h = absurd (omega arith)
memcpy_from-memcpy_to_after (b ∷ buffer) zero (s ∷ source) (suc start) n h =
    memcpy_from-memcpy_to_after buffer zero source start n (omega arith)
memcpy_from-memcpy_to_after (b ∷ buffer) (suc offset) source zero n h = absurd (omega arith)
memcpy_from-memcpy_to_after (b ∷ buffer) (suc offset) source (suc start) n h =
    memcpy_from-memcpy_to_after buffer offset source start n (omega arith)
