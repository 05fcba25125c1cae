-- ===== src/Threads/Receiving/Found.antt =====
-- What the loaded indices tell the consumer.
use omni_mailbox.Base.{
  ℕ, ◌*◌, ◌%◌, ◌≡◌, ◌≢◌, ap, ◌∙◌, Bool, true, false, none, List, [], ◌∷◌, arith,
}
use omni_mailbox.Helpers.{is_queue_empty, get_slot_pointer}
use omni_mailbox.Helpers.Indices.{Apart, is_queue_empty_iff}
use omni_mailbox.Spsc.{SpscQueue}
use omni_mailbox.Spsc.Invariant.{IsValid, stored, read_slot, get_slot_pointer-slot}
use omni_mailbox.Consumer.{Message}
use omni_mailbox.Threads.Consuming.{empty_result, batch_code}
use omni_mailbox.Threads.Facts.{LastHeld, BatchFact, Loaded, ResultFact}

-- What a pop that finds nothing returns says nothing of a span.
pub nothing_found :
    (q : SpscQueue) (a : Bool) (taken : List (List ℕ)) → ResultFact q taken (empty_result a) none
nothing_found q true taken = tt
nothing_found q false taken = tt

-- A batch that finds nothing more keeps its last span.
pub batch_over :
    (q : SpscQueue) (a : Bool) (ss : List Message) (taken : List (List ℕ))
    → LastHeld q ss taken
    → BatchFact q taken (batch_code a ss) ss
batch_over q a (s ∷ ss) taken h = h
batch_over q true [] taken h = tt
batch_over q false [] taken h = tt

module _ (q : SpscQueue) (v : IsValid q) where
  module _ (r w : ℕ) (l : Loaded q r w) where
    apart : Apart q.capacity w r
    apart = record {
      power = v.power;
      small = omega (arith, v.capacity_high);
      fits_w = l.fits;
      fits_r = omega (arith, v.fits_r, l.own);
      room = omega (arith, l.behind, v.room);
    }

    pub some_left : is_queue_empty r w q.capacity ≡ false → stored q ≢ 0
    some_left e none_left =
        let empty =
          (is_queue_empty_iff q.capacity w r apart).1 (omega (arith, l.behind, none_left)) in
        absurd (ground arith)

  pub pointer_at_read :
      (r : ℕ)
      → r ≡ q.read_index
      → get_slot_pointer r q.capacity q.slot_size ≡ read_slot q * q.slot_size
  pointer_at_read r e = get_slot_pointer-slot q v r ∙ ap (λ (t : ℕ). t % q.capacity * q.slot_size) e
