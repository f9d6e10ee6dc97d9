-- ===== src/Queue.antt =====
-- The priority queue of queue.go.
pub mod Key
pub mod Task
pub mod Ops
pub mod Backend
pub mod Matching
pub mod Dequeue
pub mod Update
pub mod Lifecycle
pub mod Enqueue
pub mod Purge
mod Tests
