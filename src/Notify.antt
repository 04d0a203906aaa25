-- ===== src/Notify.antt =====
-- internal/notifications/worker.go: the worker that sends the notifications of alarms.
pub mod Worker
pub mod Outcomes
pub mod Limits
pub mod Rounds
mod Examples
