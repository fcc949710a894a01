-- ===== src/Utils/Consumer.antt =====
-- The Kafka consumer, src/utils/kafkaConsumer.py: the offset bookkeeping (Tracker), what is done
-- with one message (Messages), commits and rebalances (State), the loop and its workers (Loop), the
-- order of one cycle (Cycle), and the rules of each role (Adapters).
pub mod Sets
pub mod Tracker
pub mod Messages
pub mod State
pub mod Adapters
pub mod Dispatch
pub mod Loop
pub mod Cycle
pub mod Turns
pub mod Ends
pub mod Polling
pub mod Floor
pub mod Offsets
pub mod Account
pub mod Justified
pub mod Threads
pub mod Safe
pub mod Runs
pub mod Drain
pub mod LowWater
pub mod Rebalance
mod Examples
pub mod Slots
pub mod Semaphore
