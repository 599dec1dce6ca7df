-- ===== src/Jobs.antt =====
-- apps/api/src/jobs/jobs.service.ts: the table of jobs, the events of each job, and who may see it.
mod Examples
pub mod Json
pub mod Model
pub mod Retry
pub mod Queue
pub mod Finish
pub mod Access
pub mod Table
pub mod Rows
pub mod Invariant
pub mod Claims
pub mod Exclusive
pub mod Next
