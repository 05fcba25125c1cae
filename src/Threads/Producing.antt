-- ===== src/Threads/Producing.antt =====
-- The producer's thread: `TryPush`, `BatchPush`, `Reserve` with what the user writes to the place
-- that it hands out, `Commit` and `Rollback`, of src/producer_handle.cpp, a shared access at a
-- time. While a slot is reserved a `Reserve`, a `TryPush` or a `Commit` of a wrong size does
-- nothing; a `BatchPush` in that time is left out, since it takes the reserved slot.
use omni_mailbox.Base.{◌≤◌, ℕ, ◌≡◌, true, false, List, [], ◌∷◌, length}
use omni_mailbox.Base.Words.{add_u64}
use omni_mailbox.Helpers.{
  is_valid_message_size, is_queue_full, get_slot_index, get_slot_pointer, get_payload_pointer,
  write_size_prefix,
}
use omni_mailbox.Helpers.Bytes.{memcpy_to, memcpy_from}
use omni_mailbox.Spsc.{SpscQueue}
use omni_mailbox.Producer.{all_valid}

-- Where the producer stands, with the locals that are live there: the message that it pushes, the
-- indices that it loaded, the slot that it reserved.
pub data ProducerAt : Type 0 where
  idle : ProducerAt  -- between two calls
  looked : (m : List ℕ) → ProducerAt  -- before the call of `Reserve`
  asking : (m : List ℕ) → ProducerAt  -- in `Reserve`, before the load of `write_index`
  wrote : (m : List ℕ) (write : ℕ) → ProducerAt
  comparing : (m : List ℕ) (write read : ℕ) → ProducerAt
  reserved : (m : List ℕ) (write : ℕ) → ProducerAt  -- before the `memcpy`
  copied : (m : List ℕ) (slot_index : ℕ) → ProducerAt  -- in `Commit`, before the prefix
  prefixed : (m : List ℕ) → ProducerAt
  publishing : (m : List ℕ) (write : ℕ) → ProducerAt
  ended : ProducerAt  -- after the destructor
  -- In `Reserve`, called by the user.
  reserve_asking : ProducerAt  -- before the load of `write_index`
  reserve_wrote : (write : ℕ) → ProducerAt
  reserve_comparing : (write read : ℕ) → ProducerAt
  holding : (write : ℕ) → ProducerAt  -- between two calls, with a reservation
  -- In `BatchPush`, with the messages that are left.
  batching : (ms : List (List ℕ)) → ProducerAt  -- before the load of `write_index`
  batch_wrote : (m : List ℕ) (ms : List (List ℕ)) (write : ℕ) → ProducerAt
  batch_comparing : (m : List ℕ) (ms : List (List ℕ)) (write read : ℕ) → ProducerAt
  batch_free : (m : List ℕ) (ms : List (List ℕ)) (write : ℕ) → ProducerAt  -- before the prefix
  batch_sized : (m : List ℕ) (ms : List (List ℕ)) (write : ℕ) → ProducerAt  -- before the `memcpy`
  batch_filled : (m : List ℕ) (ms : List (List ℕ)) (write : ℕ) → ProducerAt

-- One step of the producer, with the messages that it publishes.
pub data ProducerMove (q : SpscQueue)
    : ProducerAt → SpscQueue → ProducerAt → List (List ℕ) → Type 0 where
  refuse :
      (m : List ℕ)
      → is_valid_message_size (length m) q.max_message_size ≡ false
      → ProducerMove q idle q idle []
  find_closed :
      (m : List ℕ)
      → is_valid_message_size (length m) q.max_message_size ≡ true
      → q.consumer_alive ≡ false
      → ProducerMove q idle q idle []
  look :
      (m : List ℕ)
      → is_valid_message_size (length m) q.max_message_size ≡ true
      → q.consumer_alive ≡ true
      → ProducerMove q idle q (looked m) []
  find_closed_again : {m : List ℕ} → q.consumer_alive ≡ false → ProducerMove q (looked m) q idle []
  look_again : {m : List ℕ} → q.consumer_alive ≡ true → ProducerMove q (looked m) q (asking m) []
  load_write : {m : List ℕ} → ProducerMove q (asking m) q (wrote m q.write_index) []
  load_read : {m : List ℕ} {w : ℕ} → ProducerMove q (wrote m w) q (comparing m w q.read_index) []
  find_full :
      {m : List ℕ} {w r : ℕ}
      → is_queue_full w r q.capacity ≡ true
      → ProducerMove q (comparing m w r) q idle []
  find_room :
      {m : List ℕ} {w r : ℕ}
      → is_queue_full w r q.capacity ≡ false
      → ProducerMove q (comparing m w r) q (reserved m w) []
  copy :
      {m : List ℕ} {w : ℕ}
      → ProducerMove q
          (reserved m w)
          (record q {
            buffer =
                memcpy_to q.buffer
                  (get_payload_pointer (get_slot_pointer w q.capacity q.slot_size))
                  m;
          })
          (copied m (get_slot_index w q.capacity))
          []
  prefix :
      {m : List ℕ} {k : ℕ}
      → ProducerMove q
          (copied m k)
          (record q {
            buffer =
                write_size_prefix q.buffer (get_slot_pointer k q.capacity q.slot_size) (length m);
          })
          (prefixed m)
          []
  load_own : {m : List ℕ} → ProducerMove q (prefixed m) q (publishing m q.write_index) []
  publish :
      {m : List ℕ} {w : ℕ}
      → ProducerMove q (publishing m w) (record q { write_index = add_u64 w 1 }) idle (m ∷ [])
  end : ProducerMove q idle (record q { producer_alive = false }) ended []
  batch_refuse :
      (ms : List (List ℕ)) → all_valid q.max_message_size ms ≡ false → ProducerMove q idle q idle []
  batch_find_closed : q.consumer_alive ≡ false → ProducerMove q idle q idle []
  batch_start :
      (ms : List (List ℕ))
      → all_valid q.max_message_size ms ≡ true
      → q.consumer_alive ≡ true
      → ProducerMove q idle q (batching ms) []
  batch_done : ProducerMove q (batching []) q idle []
  batch_load_write :
      {m : List ℕ} {ms : List (List ℕ)}
      → ProducerMove q (batching (m ∷ ms)) q (batch_wrote m ms q.write_index) []
  batch_load_read :
      {m : List ℕ} {ms : List (List ℕ)} {w : ℕ}
      → ProducerMove q (batch_wrote m ms w) q (batch_comparing m ms w q.read_index) []
  batch_find_full :
      {m : List ℕ} {ms : List (List ℕ)} {w r : ℕ}
      → is_queue_full w r q.capacity ≡ true
      → ProducerMove q (batch_comparing m ms w r) q idle []
  batch_find_room :
      {m : List ℕ} {ms : List (List ℕ)} {w r : ℕ}
      → is_queue_full w r q.capacity ≡ false
      → ProducerMove q (batch_comparing m ms w r) q (batch_free m ms w) []
  batch_prefix :
      {m : List ℕ} {ms : List (List ℕ)} {w : ℕ}
      → ProducerMove q
          (batch_free m ms w)
          (record q {
            buffer =
                write_size_prefix q.buffer (get_slot_pointer w q.capacity q.slot_size) (length m);
          })
          (batch_sized m ms w)
          []
  batch_copy :
      {m : List ℕ} {ms : List (List ℕ)} {w : ℕ}
      → ProducerMove q
          (batch_sized m ms w)
          (record q {
            buffer =
                memcpy_to q.buffer
                  (get_payload_pointer (get_slot_pointer w q.capacity q.slot_size))
                  m;
          })
          (batch_filled m ms w)
          []
  batch_publish :
      {m : List ℕ} {ms : List (List ℕ)} {w : ℕ}
      → ProducerMove q
          (batch_filled m ms w)
          (record q { write_index = add_u64 w 1 })
          (batching ms)
          (m ∷ [])
  reserve_refuse :
      (bytes : ℕ)
      → is_valid_message_size bytes q.max_message_size ≡ false
      → ProducerMove q idle q idle []
  reserve_look :
      (bytes : ℕ)
      → is_valid_message_size bytes q.max_message_size ≡ true
      → q.consumer_alive ≡ true
      → ProducerMove q idle q reserve_asking []
  reserve_find_closed : q.consumer_alive ≡ false → ProducerMove q idle q idle []
  reserve_load_write : ProducerMove q reserve_asking q (reserve_wrote q.write_index) []
  reserve_load_read :
      {w : ℕ} → ProducerMove q (reserve_wrote w) q (reserve_comparing w q.read_index) []
  reserve_find_full :
      {w r : ℕ}
      → is_queue_full w r q.capacity ≡ true
      → ProducerMove q (reserve_comparing w r) q idle []
  reserve_find_room :
      {w r : ℕ}
      → is_queue_full w r q.capacity ≡ false
      → ProducerMove q (reserve_comparing w r) q (holding w) []
  write_reserved :
      {w : ℕ} (bytes : List ℕ)
      → length bytes ≤ q.max_message_size
      → ProducerMove q
          (holding w)
          (record q {
            buffer =
                memcpy_to q.buffer
                  (get_payload_pointer (get_slot_pointer w q.capacity q.slot_size))
                  bytes;
          })
          (holding w)
          []
  refuse_held : {w : ℕ} → ProducerMove q (holding w) q (holding w) []
  roll_back : {w : ℕ} → ProducerMove q (holding w) q idle []
  commit_look :
      {w : ℕ} (actual_bytes : ℕ)
      → is_valid_message_size actual_bytes q.max_message_size ≡ true
      → ProducerMove q
          (holding w)
          q
          (copied
            (memcpy_from q.buffer
              (get_payload_pointer (get_slot_pointer w q.capacity q.slot_size))
              actual_bytes)
            (get_slot_index w q.capacity))
          []
  end_held : {w : ℕ} → ProducerMove q (holding w) (record q { producer_alive = false }) ended []
