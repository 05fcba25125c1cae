-- ===== src/Threads.antt =====
-- The two handles of a channel as two threads over one queue, a shared access at a time: `TryPush`
-- and `BatchPush` of src/producer_handle.cpp, `TryPop` and `BatchPop` of src/consumer_handle.cpp,
-- and the destructors. The rounds of `BlockingPush` and of a finite `BlockingPop` are such calls,
-- repeated. A copy by `memcpy` is one step; that no step of the other thread can touch its bytes
-- meanwhile is proved, not assumed. Atomic accesses are taken in one order for both threads.
pub mod Producing
pub mod Consuming
pub mod Steps
pub mod Slots
pub mod Facts
pub mod Quiet
pub mod Sending
pub mod Receiving
pub mod Safety
pub mod Races
