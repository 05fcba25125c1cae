-- ===== src/Threads/Receiving/Moves.antt =====
-- The steps of the consumer keep the invariant.
use omni_mailbox.Base.{
  ℕ, ◌+◌, ◌≡◌, ◌≢◌, inl, inr, refl, sym, ap, ap₂, ◌∙◌, false, not, List, [], ◌∷◌, ◌++◌, append-nil,
  arith,
}
use omni_mailbox.Base.Words.{add_u64}
use omni_mailbox.Helpers.{get_payload_pointer, read_size_prefix}
use omni_mailbox.Helpers.Bytes.{memcpy_from}
use omni_mailbox.Spsc.{SpscQueue}
use omni_mailbox.Spsc.Window.{size_at, message_at}
use omni_mailbox.Spsc.Invariant.{
  IsValid, stored, contents, read_slot, flags-IsValid, get_slot_pointer-slot,
}
use omni_mailbox.Spsc.Changes
use omni_mailbox.Consumer.{Message, message_bytes}
use omni_mailbox.Threads.Producing.{ProducerAt}
use omni_mailbox.Threads.Consuming.{
  ConsumerAt, ConsumerMove, look_alive, take_read, take_write, find_empty, find_some, measure,
  release, leave, batch_nothing, batch_look_alive, batch_take_read, batch_take_write,
  batch_find_empty, batch_find_some, batch_measure, batch_release, batch_full, span_of,
}
use omni_mailbox.Threads.Facts.{is_ended, Held, LastHeld, ProducerFact, ConsumerFact}
use omni_mailbox.Threads.Receiving.{Taken, producer_kept}
use omni_mailbox.Threads.Receiving.Found.{some_left, nothing_found, batch_over, pointer_at_read}

-- The span that was taken last is the one that is held.
last_held :
    (ss : List Message) (q : SpscQueue) (s : Message) (taken : List (List ℕ))
    → Held q s taken
    → LastHeld q (ss ++ s ∷ []) taken
last_held [] q s taken h = h
last_held (x ∷ []) q s taken h = h
last_held (x ∷ y ∷ ss) q s taken h = last_held (y ∷ ss) q s taken h

module _ (q : SpscQueue) (v : IsValid q) where
  module _ (p : ProducerAt) (taken : List (List ℕ)) (flag : q.producer_alive ≡ not (is_ended p))
      (before : ProducerFact q p) where
    -- A step that changes no field and hands out nothing.
    local : (c' : ConsumerAt) → ConsumerFact q (taken ++ []) c' → Taken q p taken q c' []
    local c' fact = record { valid = v; shrunk = refl; flag = refl; producer = before; fact = fact }

    still_held : (ss : List Message) → LastHeld q ss taken → LastHeld q ss (taken ++ [])
    still_held ss h = rw (append-nil taken) h

    -- The release of the oldest slot, whatever the consumer does next.
    released :
        (r n : ℕ) (c' : ConsumerAt)
        → r ≡ q.read_index
        → stored q ≢ 0
        → n ≡ size_at q.slot_size q.capacity q.buffer (read_slot q)
        → (Held
              (record q { read_index = add_u64 r 1 })
              (span_of q r n)
              (taken ++ message_bytes q.buffer (span_of q r n) ∷ [])
            → ConsumerFact
                (record q { read_index = add_u64 r 1 })
                (taken ++ message_bytes q.buffer (span_of q r n) ∷ [])
                c')
        → Taken q p taken
            (record q { read_index = add_u64 r 1 })
            c'
            (message_bytes q.buffer (span_of q r n) ∷ [])
    unfolding get_payload_pointer
    released r n c' e left size fact =
        let (valid, fewer, front, pos, small) = Changes.release q v left in
        let place = pointer_at_read q v r e in
        let shown : message_at q.slot_size q.capacity q.buffer (read_slot q)
            ≡ message_bytes q.buffer (span_of q r n) =
          ap₂ (λ (a k : ℕ). memcpy_from q.buffer (a + 4) k) (sym place) (sym size) in
        record {
          valid = rw e valid;
          shrunk =
              front
              ∙ ap₂ ◌∷◌ shown
                  (ap (λ (i : ℕ). contents (record q { read_index = add_u64 i 1 })) (sym e));
          flag = refl;
          producer =
              producer_kept q v (add_u64 r 1) q.consumer_alive
                (inr (ap (λ (i : ℕ). add_u64 i 1) e, left)) p before;
          fact = fact (record {
            index = r;
            fits = omega (arith, v.fits_r, e);
            last = refl;
            place = ap (λ (t : ℕ). t + 4) (get_slot_pointer-slot q v r);
            small = omega (arith, size, small, v.slot_low);
            earlier = taken;
            shown = refl;
          });
        }

    pub consumer_taken :
        (c c' : ConsumerAt) (q' : SpscQueue) (out : List (List ℕ))
        → ConsumerMove q c q' c' out
        → ConsumerFact q taken c
        → Taken q p taken q' c' out
    consumer_taken c c' q' out (look_alive a rests) h = local c' tt
    consumer_taken c c' q' out take_read h = local c' refl
    consumer_taken c c' q' out (take_write {a} {r}) h =
        local c' (record { own = h; fits = v.fits_w; behind = omega (arith, h) })
    consumer_taken c c' q' out (find_empty {a} {r} {w} e) h =
        local c' (nothing_found q a (taken ++ []))
    consumer_taken c c' q' out (find_some {a} {r} {w} e) h = local c' (h.own, some_left q v r w h e)
    consumer_taken c c' q' out (measure {r}) h =
        local c' (h.0, h.1, ap (read_size_prefix q.buffer) (pointer_at_read q v r h.0))
    consumer_taken c c' q' out (release {r} {n}) (e, left, size) =
        released r n c' e left size (λ h. h)
    consumer_taken c c' q' out (leave rests) h = record {
      valid = flags-IsValid q v q.producer_alive false;
      shrunk = refl;
      flag = refl;
      producer = producer_kept q v q.read_index false (inl refl) p before;
      fact = tt;
    }
    consumer_taken c c' q' out (batch_nothing rests) h = local c' tt
    consumer_taken c c' q' out (batch_look_alive a n rests) h = local c' tt
    consumer_taken c c' q' out (batch_take_read {a} {ss} {n}) h = local c' (still_held ss h, refl)
    consumer_taken c c' q' out (batch_take_write {a} {ss} {n} {r}) (h, e) =
        local c' (still_held ss h, record { own = e; fits = v.fits_w; behind = omega (arith, e) })
    consumer_taken c c' q' out (batch_find_empty {a} {ss} {n} {r} {w} e) (h, l) =
        local c' (batch_over q a ss (taken ++ []) (still_held ss h))
    consumer_taken c c' q' out (batch_find_some {a} {ss} {n} {r} {w} e) (h, l) =
        local c' (still_held ss h, l.own, some_left q v r w l e)
    consumer_taken c c' q' out (batch_measure {a} {ss} {n} {r}) (h, e, left) =
        local c'
          (still_held ss h, e, left, ap (read_size_prefix q.buffer) (pointer_at_read q v r e))
    consumer_taken c c' q' out (batch_release {a} {ss} {n} {r} {k}) (h, e, left, size) =
        released r k c' e left size (λ held. last_held ss _ _ _ held)
    consumer_taken c c' q' out (batch_full {a} {ss} some_taken) h = local c' (still_held ss h)
