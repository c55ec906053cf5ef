-- ===== src/Queue.antt =====
-- gateway/queued_task.go and gateway/task_queue.go: the queue of tasks with concurrency limits.
pub mod Task
pub mod State
pub mod Methods
pub mod Waiting
pub mod Sections
pub mod Cases
pub mod Invariant
pub mod Safety
pub mod Dequeue
pub mod Progress
pub mod Tracking
pub mod Gauges
pub mod Slots
pub mod Leak
pub mod Lifecycle
pub mod Enqueue
mod Tests
