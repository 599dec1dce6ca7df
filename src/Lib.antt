-- ===== src/Lib.antt =====
-- A model of s3gator, a server and a library for the files of a Garage object store, and the
-- theorems about it.
--
-- The parts, and the files that model them:
-- - Auth and Auth/Authorization: roles, permissions and grants of apps/api/src/authorization and
--   packages/shared/src; the guards of a role (`role_guard`) and of a bucket's permission
--   (`bucket_permission_guard`). The tables of the database are lists.
-- - Auth/Sessions: apps/api/src/auth/session.service.ts (`create_session`, `get_session_user`,
--   `revoke_session`) and the guards of session-auth.guard.ts and csrf.guard.ts, which every
--   request passes in the order of app.module.ts (`admit`).
-- - Redis: apps/api/src/redis/redis.service.ts, counters and locks in the memory of the process,
--   or on a server, which is a parameter (`RedisClient`); Redis/Limiter is
--   apps/api/src/auth/login-rate-limiter.service.ts on top of it, and Redis/Refined has the
--   table of owners over time that is the abstract view of the locks.
-- - Jobs: apps/api/src/jobs/jobs.service.ts. Json has values and their redaction, Model the rows,
--   events and metrics (`State`), Retry the policies, Queue `enqueue` and `claim_next`, Finish the
--   end of a run, Access the reading and cancelling by users. The service takes locks through the
--   record `LockService`. `claim_next` is cut into the choice of a candidate, its lock, and the
--   update of its row (`claim_candidate`), since other workers may come in between.
-- - S3: packages/s3/src. Keys is utils.ts; Delete and Rename are those operations of
--   file-service.ts, on a store that is a parameter (`S3Client`), and Listing is its `listFiles`,
--   from the store's answer. What the store documents is in the records of S3/Laws (`S3Laws`,
--   `RenameLaws`), with stores in S3/Examples that keep to them.
--   Multipart has its calls for uploads in parts, on the commands `MultipartClient`.
-- - Files: the upload sessions of apps/api/src/files/files.service.ts. Model has the rows and the
--   state, Entered who may work on a session (`enter`), Create and Uploads the operations that
--   write, Dedup the parts that a session keeps, Public the lists and the cleanup, and Steps the
--   runs of the service (`Step`, `Reach`).
-- - Worker: apps/api/src/jobs/jobs.worker.service.ts on top of Jobs, S3 and Files. A run of a job
--   is an `Action`, which may be stopped or throw; `Tools` has what it is given, also what the
--   rest of the system does to the jobs before each checkpoint (`others`). Payload has the schemas
--   of the payloads, Folders, Sync and Cleanup the kinds of jobs, and Execute the run and the tick.
-- - Scheduler: apps/api/src/jobs/maintenance-scheduler.service.ts on top of Jobs. Model has the
--   tasks and their stored states, Tasks the run of a task, and Ticks what happens under the lock.
-- - Retention: apps/api/src/jobs/job-retention.service.ts. Archive has the loop over batches, for
--   any table and its archive (`Archiving`), Model the rows, the policy and the thresholds, and
--   Cleanup the conditions and the order of a cleanup (`run_cleanup`).
-- - Browser: apps/web/lib/multipart-upload.ts, the chunks of a file and the sending of one part.
--   Chunks cuts a file into as many parts as Files counts, and Retried numbers the attempts.
-- Base has what the parts share. The modules called Examples hold tests and concrete runs.
--
-- Conventions. Operations take the state and return it anew; what the code throws is the `err` of
-- an `Outcome`, or `failed` for a command to the store. Times are milliseconds and are arguments,
-- as are identifiers and tokens that the code draws at random. Numbers are natural numbers.
--
-- Bounds. The loops over the pages of a listing take fuel, one unit for a page: a deletion with
-- more fuel than there are pages ends with a result, where each continuation token leaves fewer
-- pages. A folder's rename runs along a schedule of its workers; the theorem on it holds after
-- any schedule, also one that ends before the work is done. A run of a job whose pages or schedule
-- end too early is `unfinished`, and leaves the job as it is. The loop over the batches of an
-- archive takes fuel, one unit for a batch: one more than there are rows to find is enough.
-- The loop that sends a part takes one unit more than the retries that are allowed, which is
-- enough.
--
-- Not modelled: what another call does to a job's row between the read and the update of one call
-- that ends a run or reports its progress, and a failing write of a scheduled task's state; the
-- file operations that check a permission and call the store; the login, bucket, user,
-- connection, settings and audit services; the archive of job events, previews, search and
-- statistics of files, the browser's workers that send several parts at a time, controllers,
-- timers, telemetry, scripts and the web pages. The database, Redis, the object store, the schema
-- library, hashes, the cookie parser, `toLowerCase`, `toUpperCase`, `toISOString`,
-- `localeCompare`, `Date.parse` and `encodeURIComponent` are parameters or lists.
pub mod Base
pub mod Auth
pub mod Redis
pub mod Browser
pub mod Jobs
pub mod S3
pub mod Files
pub mod Worker
pub mod Scheduler
pub mod Retention
