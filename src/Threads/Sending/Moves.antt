-- ===== src/Threads/Sending/Moves.antt =====
-- The steps of the producer keep the invariant.
use omni_mailbox.Base.{[], ℕ, ◌≡◌, refl, sym, false, not, List, append-nil, arith}
use omni_mailbox.Spsc.{SpscQueue}
use omni_mailbox.Spsc.Invariant.{IsValid, contents, flags-IsValid}
use omni_mailbox.Threads.Producing.{
  ProducerAt, ProducerMove, refuse, find_closed, look, find_closed_again, look_again, load_write,
  load_read, find_full, find_room, copy, prefix, load_own, publish, end, batch_refuse,
  batch_find_closed, batch_start, batch_done, batch_load_write, batch_load_read, batch_find_full,
  batch_find_room, batch_prefix, batch_copy, batch_publish, reserve_refuse, reserve_look,
  reserve_find_closed, reserve_load_write, reserve_load_read, reserve_find_full, reserve_find_room,
  write_reserved, refuse_held, roll_back, commit_look, end_held,
}
use omni_mailbox.Threads.Facts.{is_ended, Compared, ProducerFact}
use omni_mailbox.Threads.Quiet.{same_bytes, consumer_kept}
use omni_mailbox.Threads.Sending.{Sent, local, admit, room_left, published_lem}
use omni_mailbox.Threads.Sending.Held.{write_reserved_lem, committing}
use omni_mailbox.Threads.Sending.One.{copied_lem, prefixed_lem}
use omni_mailbox.Threads.Sending.Batch.{batch_prefix_lem, batch_copy_lem}
use omni_mailbox.Producer.BatchPush.Result.{all_valid→Sizes}

-- The read index as it was just loaded.
just-Compared :
    (q : SpscQueue) (v : IsValid q) (w : ℕ) → w ≡ q.write_index → Compared q w q.read_index
just-Compared q v w e = record {
  own = e;
  fits = v.fits_r;
  near = omega (arith, v.room);
  behind = omega (arith, v.fits_r);
}

-- The destructor.
ended_lem :
    (q : SpscQueue) (v : IsValid q) (p : ProducerAt)
    → is_ended p ≡ false
    → Sent q p (record q { producer_alive = false }) ProducerAt.ended []
ended_lem q v p going = record {
  valid = flags-IsValid q v false q.consumer_alive;
  grown = sym (append-nil (contents q));
  flag = refl;
  fact = tt;
  consumer =
      consumer_kept q v q.buffer q.write_index false
        (same_bytes q q.write_index false (omega arith));
}

-- Every step of the producer keeps the invariant.
pub producer_sent :
    (q : SpscQueue) (v : IsValid q)
    → (p p' : ProducerAt) (q' : SpscQueue) (out : List (List ℕ)) → ProducerMove q p q' p' out
    → q.producer_alive ≡ not (is_ended p)
    → ProducerFact q p
    → Sent q p q' p' out
producer_sent q v p p' q' out (refuse m e) flag h = local q v p p' refl refl flag tt
producer_sent q v p p' q' out (find_closed m e dead) flag h = local q v p p' refl refl flag tt
producer_sent q v p p' q' out (look m e alive) flag h =
    local q v p p' refl refl flag (admit q v m e)
producer_sent q v p p' q' out (find_closed_again dead) flag h = local q v p p' refl refl flag tt
producer_sent q v p p' q' out (look_again alive) flag h = local q v p p' refl refl flag h
producer_sent q v p p' q' out load_write flag h = local q v p p' refl refl flag (h, refl)
producer_sent q v p p' q' out load_read flag (a, e) =
    local q v p p' refl refl flag (a, just-Compared q v _ e)
producer_sent q v p p' q' out (find_full e) flag h = local q v p p' refl refl flag tt
producer_sent q v p p' q' out (find_room {m} {w} {r} e) flag (a, c) =
    local q v p p' refl refl flag (record { admitted = a; free = room_left q v w r c e }, c.own)
producer_sent q v p p' q' out (copy {m} {w}) flag (wr, e) = copied_lem q v m w wr e flag
producer_sent q v p p' q' out (prefix {m} {k}) flag (wr, e, payload) =
    prefixed_lem q v m k wr e payload flag
producer_sent q v p p' q' out load_own flag h = local q v p p' refl refl flag (h, refl)
producer_sent q v p p' q' out (publish {m} {w}) flag (filled, e) =
    published_lem q v m w p p' filled e refl refl flag tt
producer_sent q v p p' q' out end flag h = ended_lem q v p refl
producer_sent q v p p' q' out (batch_refuse ms e) flag h = local q v p p' refl refl flag tt
producer_sent q v p p' q' out (batch_find_closed dead) flag h = local q v p p' refl refl flag tt
producer_sent q v p p' q' out (batch_start ms e alive) flag h =
    local q v p p' refl refl flag
      (all_valid→Sizes q.max_message_size ms (omega (arith, v.message_high)) e)
producer_sent q v p p' q' out batch_done flag h = local q v p p' refl refl flag tt
producer_sent q v p p' q' out batch_load_write flag (pos, small, h) =
    local q v p p' refl refl flag ((record { not_empty = pos; small = small }, refl), h)
producer_sent q v p p' q' out batch_load_read flag ((a, e), h) =
    local q v p p' refl refl flag ((a, just-Compared q v _ e), h)
producer_sent q v p p' q' out (batch_find_full e) flag h = local q v p p' refl refl flag tt
producer_sent q v p p' q' out (batch_find_room {m} {ms} {w} {r} e) flag ((a, c), h) =
    local q v p p' refl refl flag
      ((record { admitted = a; free = room_left q v w r c e }, c.own), h)
producer_sent q v p p' q' out (batch_prefix {m} {ms} {w}) flag ((wr, e), h) =
    batch_prefix_lem q v m ms w wr e h flag
producer_sent q v p p' q' out (batch_copy {m} {ms} {w}) flag ((s, e), h) =
    batch_copy_lem q v m ms w s e h flag
producer_sent q v p p' q' out (batch_publish {m} {ms} {w}) flag ((f, e), h) =
    published_lem q v m w p p' f e refl refl flag h
producer_sent q v p p' q' out (reserve_refuse n e) flag h = local q v p p' refl refl flag tt
producer_sent q v p p' q' out (reserve_look n e alive) flag h = local q v p p' refl refl flag tt
producer_sent q v p p' q' out (reserve_find_closed dead) flag h = local q v p p' refl refl flag tt
producer_sent q v p p' q' out reserve_load_write flag h = local q v p p' refl refl flag refl
producer_sent q v p p' q' out reserve_load_read flag e =
    local q v p p' refl refl flag (just-Compared q v _ e)
producer_sent q v p p' q' out (reserve_find_full e) flag h = local q v p p' refl refl flag tt
producer_sent q v p p' q' out (reserve_find_room {w} {r} e) flag c =
    local q v p p' refl refl flag (room_left q v w r c e, c.own)
producer_sent q v p p' q' out (write_reserved {w} m small) flag (free, e) =
    write_reserved_lem q v m w small free e flag
producer_sent q v p p' q' out refuse_held flag h = local q v p p' refl refl flag h
producer_sent q v p p' q' out roll_back flag h = local q v p p' refl refl flag tt
producer_sent q v p p' q' out (commit_look {w} n sized) flag (free, e) =
    local q v p p' refl refl flag (committing q v n w sized free e)
producer_sent q v p p' q' out end_held flag h = ended_lem q v p refl
