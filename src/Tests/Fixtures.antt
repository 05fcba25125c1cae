-- ===== src/Tests/Fixtures.antt =====
-- The queues, handles and channels of the tests.
use omni_mailbox.Fifo
use omni_mailbox.Fifo.{Fifo}
use omni_mailbox.Channel.Api.{ChannelApi}
use omni_mailbox.Base.{length, ◌-◌, ◌^◌, ◌≡◌, refl, true, [], ◌∷◌, none, some, arith}
use omni_mailbox.Config.{ChannelConfig}
use omni_mailbox.Config.Normal.{Normal}
use omni_mailbox.Helpers.{read_size_prefix}
use omni_mailbox.Helpers.Bytes.{memcpy_from}
use omni_mailbox.Spsc.{SpscQueue}
use omni_mailbox.Spsc.Invariant.{IsValid, contents}
use omni_mailbox.Producer.{Producer}
use omni_mailbox.Producer.Reservation.{ProducerIsValid}
use omni_mailbox.Consumer.{Consumer}
use omni_mailbox.Channel.{Channel}
use omni_mailbox.Channel.Refine.{ChannelIsValid}

abbrev pub smallest : ChannelConfig
smallest = record { capacity = 8; max_message_size = 64 }

pub smallest-Normal : Normal smallest
smallest-Normal = record {
  power = (3, refl);
  capacity_low = omega arith;
  capacity_high = omega arith;
  message_low = omega arith;
  message_high = omega arith;
}

-- 7, then 8 and 9, in slots 3 and 0: the write index has wrapped at 2^64 and the read index has
-- not.
abbrev pub wrapped : SpscQueue
wrapped = record {
  write_index = 1;
  read_index = 2 ^ 64 - 1;
  producer_alive = true;
  consumer_alive = true;
  capacity = 4;
  max_message_size = 4;
  slot_size = 8;
  buffer =
      2 ∷ 0 ∷ 0 ∷ 0 ∷ 8 ∷ 9 ∷ 0 ∷ 0 ∷ 0 ∷ 0 ∷ 0 ∷ 0 ∷ 0 ∷ 0 ∷ 0 ∷ 0 ∷ 0 ∷ 0 ∷ 0 ∷ 0 ∷ 0 ∷ 0 ∷ 0 ∷ 0
      ∷ 1 ∷ 0 ∷ 0 ∷ 0 ∷ 7 ∷ 0 ∷ 0 ∷ 0 ∷ [];
}

pub contents-wrapped : contents wrapped ≡ (7 ∷ []) ∷ (8 ∷ 9 ∷ []) ∷ []
unfolding memcpy_from read_size_prefix
contents-wrapped = refl

pub wrapped-IsValid : IsValid wrapped
unfolding memcpy_from read_size_prefix
wrapped-IsValid = record {
  power = (2, refl);
  capacity_high = omega arith;
  message_high = omega arith;
  slot_low = omega arith;
  slot_high = omega arith;
  storage = refl;
  fits_w = omega arith;
  fits_r = omega arith;
  room = omega arith;
  sized = omega arith;
}

-- The producer's handle over it, free or with slot 1 reserved.
abbrev pub idle : Producer
idle = record {
  queue = wrapped;
  messages_sent = 2;
  bytes_sent = 3;
  failed_pushes = 0;
  reserved_slot = none;
}

abbrev pub reserving : Producer
reserving = record idle { reserved_slot = some 1 }

pub idle-IsValid : ProducerIsValid idle
idle-IsValid = record { queue_valid = wrapped-IsValid; reserved = λ k e. cc }

pub reserving-IsValid : ProducerIsValid reserving
reserving-IsValid = record {
  queue_valid = wrapped-IsValid;
  reserved = λ k e. (ground arith, omega arith);
}

abbrev pub reader : Consumer
reader = record {
  queue = wrapped;
  statistics = record { messages_received = 0; bytes_received = 0; failed_pops = 0 };
  message_buffer = [];
}

abbrev pub channel : Channel
channel = record { queue = wrapped; producer = idle; consumer = reader }

pub channel-IsValid : ChannelIsValid channel
channel-IsValid = record {
  queue_valid = wrapped-IsValid;
  unreserved = refl;
  sent_fits = omega arith;
  bytes_fit = omega arith;
}

-- The bounded queue is itself such a channel.
abbrev pub fifo_api : ChannelApi Fifo
fifo_api = record {
  shown = λ f. f;
  push = λ m f. Fifo.push m f;
  pop = λ f. Fifo.pop f;
  available = λ f. length f.items;
  push_law = λ m f. refl;
  pop_law = λ f. refl;
  available_law = λ f. refl;
}
