-- ===== src/Retention.antt =====
-- apps/api/src/jobs/job-retention.service.ts: what is kept of events, audit logs, jobs and upload
-- sessions, and for how long.
mod Examples
pub mod Archive
pub mod Model
pub mod Cleanup
