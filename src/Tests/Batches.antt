-- ===== src/Tests/Batches.antt =====
-- A batch that empties a full queue, and two pushes after it.
use omni_mailbox.Base.{◌≡◌, refl, List, [], ◌∷◌, arith}
use omni_mailbox.Config.{PushResult}
use omni_mailbox.Helpers.{read_size_prefix}
use omni_mailbox.Helpers.Bytes.{memcpy_from}
use omni_mailbox.Spsc.{SpscQueue}
use omni_mailbox.Spsc.Invariant.{IsValid}
use omni_mailbox.Producer.{try_push}
use omni_mailbox.Consumer.{Consumer, Message, message_bytes, batch_pop}
use omni_mailbox.Blocking.{arrives}
use omni_mailbox.Channel.Overwritten.{overwritten_batch}
use omni_mailbox.Tests.Fixtures.{wrapped, idle, reader}

-- Three messages in four slots.
abbrev brimming : SpscQueue
brimming = record wrapped {
  write_index = 2;
  buffer =
      2 ∷ 0 ∷ 0 ∷ 0 ∷ 8 ∷ 9 ∷ 0 ∷ 0 ∷ 1 ∷ 0 ∷ 0 ∷ 0 ∷ 6 ∷ 0 ∷ 0 ∷ 0 ∷ 0 ∷ 0 ∷ 0 ∷ 0 ∷ 0 ∷ 0 ∷ 0 ∷ 0
      ∷ 1 ∷ 0 ∷ 0 ∷ 0 ∷ 7 ∷ 0 ∷ 0 ∷ 0 ∷ [];
}

brimming-IsValid : IsValid brimming
unfolding memcpy_from read_size_prefix
brimming-IsValid = record {
  power = (2, refl);
  capacity_high = omega arith;
  message_high = omega arith;
  slot_low = omega arith;
  slot_high = omega arith;
  storage = refl;
  fits_w = omega arith;
  fits_r = omega arith;
  room = omega arith;
  sized = omega arith;
}

abbrev full_reader : Consumer
full_reader = record reader { queue = brimming }

overwritten_batch_example :
    let (r, spans, c') = batch_pop 5 full_reader in
    let (first, p') = try_push (1 ∷ []) (arrives c'.queue idle) in
    let (second, p'') = try_push (2 ∷ 3 ∷ []) p' in
    (first ≡ PushResult.success)
    × (second ≡ PushResult.success)
    × (span : Message) × (rest : List Message) × (spans ≡ span ∷ rest)
    × (message_bytes p''.queue.buffer (record span { size = 2 }) ≡ 2 ∷ 3 ∷ [])
overwritten_batch_example =
    overwritten_batch 4 idle full_reader (1 ∷ []) (2 ∷ 3 ∷ []) brimming-IsValid refl (omega arith)
      (omega arith) refl refl (omega arith) (omega arith) (omega arith) (omega arith)
