-- ===== src/Worker.antt =====
-- apps/api/src/jobs/jobs.worker.service.ts: the worker that runs the jobs.
mod Examples
pub mod Payload
pub mod Model
pub mod Folders
pub mod Sync
pub mod Cleanup
pub mod Execute
