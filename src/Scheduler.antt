-- ===== src/Scheduler.antt =====
-- apps/api/src/jobs/maintenance-scheduler.service.ts: the tasks that are queued at intervals.
mod Examples
pub mod Model
pub mod Tasks
pub mod Ticks
pub mod Single
pub mod Paced
pub mod Acting
