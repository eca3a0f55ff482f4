-- ===== src/Worker.antt =====
-- internal/worker/queue.go: the worker pool.
pub mod Config
pub mod Signals
pub mod Backoff
pub mod Heartbeat
pub mod Effects
pub mod Finish
pub mod Upload
pub mod Process
pub mod Invariants
pub mod Checks
pub mod Quiet
pub mod Reports
pub mod Lease
