-- ===== src/Queue.antt =====
-- core/queue.py, the durable queue engine: its state, its operations, and what is proved of them.
pub mod State
pub mod Declare
pub mod Publish
pub mod Retry
pub mod Delivery
pub mod Recover
pub mod Timers
pub mod DeadLetters
pub mod Info
pub mod Snapshot
pub mod Consistent
pub mod Due
pub mod Steps
pub mod Ack
pub mod Range
pub mod Bounds
pub mod Destination
pub mod Run
pub mod DueExamples
pub mod Examples
