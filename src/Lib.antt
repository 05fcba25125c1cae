-- ===== src/Lib.antt =====
-- OmniMailbox: channels between one producer and one consumer thread over a shared ring buffer.
--
-- What is modelled, by file of the repository:
--   include/omni/detail/config.hpp         Config: result codes, `ChannelConfig`, `Normalize`,
--                                          `IsValid`, `RoundUpPowerOf2`
--   include/omni/detail/queue_helpers.hpp  Helpers: index arithmetic, slot offsets, size prefix
--   include/omni/detail/spsc_queue.hpp     Spsc: `SPSCQueue` and its constructor
--   src/producer_handle.cpp                Producer: `Reserve`, `Commit`, `Rollback`, `TryPush`,
--                                          `BatchPush`, the queries, constructor and destructor;
--                                          Blocking: `BlockingPush`
--   src/consumer_handle.cpp                Consumer: `TryPop`, `BatchPop` without a timeout, the
--                                          queries, constructor and destructor; Blocking:
--                                          `BlockingPop` with a finite timeout, without one in
--                                          Blocking/Unbounded; `BatchPop` with a timeout in
--                                          Blocking/Collect, which waits as `BlockingPop` does
--   both of them                           Threads: the calls of two threads that do not wait, a
--                                          shared access at a time; Broker/Moves: the moves of the
--                                          handles
--   src/broker.cpp                         Broker: `RequestChannel`, `HasChannel`, `RemoveChannel`,
--                                          `GetStats`, `Shutdown`; Broker/System: a program's calls
--                                          on it and on the handles that it was handed
--   include/omni/detail/wait_strategy.hpp  Spin: `SpinWaitWithYield`; Blocking/Spinning: the calls
--                                          that wait, with its spins
--   examples/backpressure_demo.cpp         Backpressure: its two threads, over the interface of
--                                          Channel/Api, and `main` around them
--   examples/basic_usage.cpp               Usage: its two threads, and `main` around them
--   bench/throughput_latency.cpp           Throughput, Latency: the two threads of each benchmark
--
-- How the parts meet. Producer and Consumer are the methods of the two handles, each as one step
-- on the queue that it finds. Channel puts the queue and both handles together, for runs of whole
-- calls in any order; Fifo is the abstract view of a channel, a bounded queue of messages with a
-- flag for each end. Threads takes the same code apart into steps of two program counters, with
-- the locals that are live at each, and its invariant says what those locals still know. Blocking
-- repeats the methods of the handles while another thread works on the queue; Blocking/Spinning
-- lets it work before each look of a spin, and is Blocking over what it does in a round. Broker keeps
-- the channels by name over a store of queues. The examples and the benchmarks are clients: their
-- threads know a channel by ChannelApi alone, and Broker/Opening and Broker/Leaving join them to the
-- broker. Base holds lists, bits and words; Tests holds runs on small queues.
--
-- Representation. A word of 64 bits is a natural number below 2^64, with its wrap written out in
-- Base/Words. The ring buffer is a list of bytes, and a pointer into it is an offset from its
-- start. A `uint32_t` lies in memory lowest byte first. An atomic field is a field of `SpscQueue`.
-- The broker's store is a function from addresses to queues; its mutex makes each method one step,
-- and which allocation throws `bad_alloc` is an argument of a request: in the `try` block, or before it
-- for the copy of the name, where it ends the program. A handle that was moved
-- from is an empty `Option`. Loops are structural recursion on the batch or on `max_count`. The
-- calls that wait run on fuel, one unit for each round of the loop or each step of the unbounded
-- wait: as many rounds are enough as the clock needs to reach the deadline, and the unbounded wait
-- needs four steps from the moment that a message is stored. In the clients a call that waits is one
-- step, when it returns: with what the call that does not wait returns, or with a timeout. The deadline of `BlockingPush`
-- is a count of nanoseconds, which wraps at 64 bits and is signed, as compiled code does where the
-- language leaves it open; that of `BlockingPop` is a number, for timeouts that the count holds. What a
-- span shows is read when its message is popped; the responder of the latency benchmark reads it
-- later, while nothing is pushed on that channel.
--
-- Not modelled: weaker orders than one order of all atomic accesses, which the acquire and release
-- pairs of the code are there for, and the fences of the destructors. The consumer's relaxed load of
-- `producer_alive` has no such pair: in Threads it may yield anything, and nothing is stated there of
-- the code that a pop on an empty queue returns. In Threads, a `BatchPush` while a slot is reserved,
-- which takes the reserved slot; in Channel and Broker/System, `Reserve`, `Commit`, `Rollback`, the
-- queries of the handles and the calls that wait; `notify_one` as such, whose effect is
-- that a sleeper looks again when its index has changed; the vectors that batches grow, whose
-- allocation may fail; padding and alignment of fields; the assertion of the queue's constructor,
-- whose condition `Normalize` establishes; the methods of a handle that was moved from, which
-- follow an empty pointer; the clocks, sleeps and output of the examples and benchmarks; the tests,
-- which are clients.
pub mod Base
pub mod Config
pub mod Helpers
pub mod Spsc
pub mod Producer
pub mod Fifo
pub mod Consumer
pub mod Channel
pub mod Tests
pub mod Broker
pub mod Spin
pub mod Blocking
pub mod Threads
pub mod Backpressure
pub mod Usage
pub mod Latency
pub mod Throughput
