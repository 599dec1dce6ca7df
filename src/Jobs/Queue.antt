-- ===== src/Jobs/Queue.antt =====
-- apps/api/src/jobs/jobs.service.ts: `enqueue` and `claimNext`. Claiming a job is four steps that
-- other workers may come between: a candidate is read, its lock is taken, the row is updated if it
-- may still be claimed, and the claim is written down. `claim_next` makes them one after another.
use Prim.Native.String
use s3gator.Base.{
  ℕ, ◌+◌, ◌-◌, ◌*◌, String, Bool, true, false, Option, none, some, List, [], ◌∷◌, ◌++◌,
  if◌then◌else◌, str_eq, ◌&&◌, leb, ltb, ◌==◌, or_default, or_else,
}
use s3gator.Jobs.Json.{Json, str, bool, num, sanitize, object, string, nullable}
use s3gator.Jobs.Model.{
  JobType, folder_rename, folder_delete, bucket_sync, upload_cleanup, retention_cleanup, JobStatus,
  queued, running, info, warn, Job, job_reclaim, job_retry_event, Env, State, find_job,
  record_metric, job_event_of,
}
use s3gator.Jobs.Retry.{get_retry_policy}

-- The name that the table has for a type of job.
abbrev type_name : JobType → String
type_name folder_rename = "FOLDER_RENAME"
type_name folder_delete = "FOLDER_DELETE"
type_name bucket_sync = "BUCKET_SYNC"
type_name upload_cleanup = "UPLOAD_CLEANUP"
type_name retention_cleanup = "RETENTION_CLEANUP"

-- A payload of any of the five kinds: the object itself, and what `enqueue` is given of it.
pub record JobPayload : Type 0 where
  pub actor_id : String
  pub correlation_id : Option String
  pub body : Json

-- `nextRetryAt` is null or not after now
abbrev pub is_due : ℕ → Option ℕ → Bool
is_due now none = true
is_due now (some at) = leb at now

-- `lockedAt` is before the time at which locks went stale
abbrev pub is_stale : ℕ → ℕ → Option ℕ → Bool
is_stale lock_ttl_seconds now none = false
is_stale lock_ttl_seconds now (some at) = ltb at (now - lock_ttl_seconds * 1000)

abbrev pub claimable_in : JobStatus → ℕ → ℕ → Job → Bool
claimable_in queued lock_ttl_seconds now job = is_due now job.next_retry_at
claimable_in running lock_ttl_seconds now job = is_stale lock_ttl_seconds now job.locked_at
claimable_in _ lock_ttl_seconds now job = false

-- The filter of `claimNext`, the same for the candidate and for the update.
unfoldable pub is_claimable : ℕ → ℕ → Job → Bool
is_claimable lock_ttl_seconds now job = claimable_in job.status lock_ttl_seconds now job

-- What the update of `claimNext` makes of a row. `started` is the candidate's.
unfoldable pub claim_row : ℕ → String → Option ℕ → Job → Job
claim_row now lock_token started job = record job {
  status = running;
  started_at = some (or_default started now);
  locked_at = some now;
  lock_key = some lock_token;
  next_retry_at = none;
  attempt_count = job.attempt_count + 1;
}

abbrev pub is_running : JobStatus → Bool
is_running running = true
is_running _ = false

-- `findFirst`, the oldest row first
unfoldable pub find_candidate : ℕ → ℕ → List Job → Option Job
find_candidate lock_ttl_seconds now [] = none
find_candidate lock_ttl_seconds now (j ∷ jobs) =
    if is_claimable lock_ttl_seconds now j then some j else find_candidate lock_ttl_seconds now jobs

-- `updateMany`: the rows after it, and how many it changed
unfoldable pub claim_rows : ℕ → ℕ → String → Job → List Job → List Job × ℕ
claim_rows lock_ttl_seconds now lock_token candidate [] = ([], 0)
claim_rows lock_ttl_seconds now lock_token candidate (j ∷ jobs) =
    let (rest, count) = claim_rows lock_ttl_seconds now lock_token candidate jobs in
    if str_eq j.id candidate.id && is_claimable lock_ttl_seconds now j
    then (claim_row now lock_token candidate.started_at j ∷ rest, count + 1)
    else (j ∷ rest, count)

module _ {L : Type 0} (env : Env L) where
  -- `enqueue`; `id` is the one that the database gives, `context` the request's correlation id.
  unfoldable pub enqueue :
      String → Option String → ℕ → JobType → JobPayload → State L → Job × State L
  enqueue id context now type payload st = (
    created,
    job_event_of env created "created" info "Job queued." metadata
        (record st { jobs = st.jobs ++ created ∷ [] }),
  )
    where
      created : Job
      created = record {
        id = id;
        type = type;
        status = queued;
        correlation_id = or_else payload.correlation_id context;
        attempt_count = 0;
        max_attempts = (get_retry_policy env.config type).max_attempts;
        retryable = (get_retry_policy env.config type).retryable;
        next_retry_at = none;
        last_error = none;
        created_by_user_id = some payload.actor_id;
        payload = sanitize env.lower payload.body;
        progress = none;
        result = none;
        failure_summary = none;
        cancel_requested_at = none;
        lock_key = none;
        locked_at = none;
        created_at = now;
        started_at = none;
        completed_at = none;
      }

      metadata : Json
      metadata = object (
          ("type", string (type_name type))
          ∷ ("createdByUserId", nullable created.created_by_user_id)
          ∷ ("retryable", bool created.retryable)
          ∷ ("maxAttempts", num created.max_attempts)
          ∷ [])

  -- The events of a claim, and its metrics.
  unfoldable pub record_claim : String → Bool → ℕ → ℕ → Job → State L → State L
  record_claim worker_id reclaimed lock_ttl_seconds now job st =
      started (retried (reclaims (claimed st)))
    where
      claimed : State L → State L
      claimed = job_event_of env job "claimed" info "Job claimed by worker." (
          object (
            ("workerId", string worker_id)
            ∷ ("lockKey", nullable job.lock_key)
            ∷ ("reclaimedStaleRun", bool reclaimed)
            ∷ ("attemptCount", num job.attempt_count)
            ∷ ("maxAttempts", num job.max_attempts)
            ∷ []))

      reclaims : State L → State L
      reclaims s =
          if reclaimed
          then job_event_of env job "reclaimed" warn
              "Stale running job reclaimed by worker after lock timeout."
              (object (
                ("workerId", string worker_id)
                ∷ ("lockKey", nullable job.lock_key)
                ∷ ("attemptCount", num job.attempt_count)
                ∷ ("staleBefore", str (env.iso (now - lock_ttl_seconds * 1000)))
                ∷ []))
              (record_metric (job_reclaim job.type) s)
          else s

      retried : State L → State L
      retried s =
          if ltb 1 job.attempt_count
          then job_event_of env job "retry_started" warn "Retry attempt started."
              (object (
                ("workerId", string worker_id)
                ∷ ("lockKey", nullable job.lock_key)
                ∷ ("attemptCount", num job.attempt_count)
                ∷ ("maxAttempts", num job.max_attempts)
                ∷ []))
              (record_metric (job_retry_event job.type "started") s)
          else s

      started : State L → State L
      started = job_event_of env job "started" info "Job execution started." (
          object (
            ("workerId", string worker_id)
            ∷ ("lockKey", nullable job.lock_key)
            ∷ ("attemptCount", num job.attempt_count)
            ∷ []))

  -- The update of the candidate's row and what follows it, once its lock is taken.
  unfoldable pub claim_candidate : String → String → ℕ → ℕ → Job → State L → Option Job × State L
  claim_candidate worker_id lock_token lock_ttl_seconds now candidate st =
      let (rows, count) = claim_rows lock_ttl_seconds now lock_token candidate st.jobs in
      let st' = record st { jobs = rows } in
      if count == 0
      then (
        none,
        record st {
          lock_state =
              (env.locks.release
                (env.locks.key st.lock_state (String.◌++◌ "job:lock:" candidate.id)) lock_token now
                st.lock_state).1;
        },
      )
      else elim (find_job candidate.id rows) [
        | none ↦ (none, st')
        | some claimed ↦ (
          some claimed,
          record_claim worker_id (is_running candidate.status) lock_ttl_seconds now claimed st',
        )
      ]

  -- Takes the lock of a candidate.
  unfoldable pub lock_candidate : String → ℕ → ℕ → Job → State L → Bool × State L
  lock_candidate lock_token lock_ttl_seconds now candidate st =
      let (acquired, s) =
        env.locks.acquire (env.locks.key st.lock_state (String.◌++◌ "job:lock:" candidate.id))
          lock_token lock_ttl_seconds now st.lock_state in
      (acquired, record st { lock_state = s })

  -- `uuid` is the `randomUUID()` of the call.
  unfoldable pub claim_next : String → String → ℕ → ℕ → State L → Option Job × State L
  claim_next worker_id uuid lock_ttl_seconds now st =
      elim (find_candidate lock_ttl_seconds now st.jobs) [
        | none ↦ (none, st)
        | some candidate ↦
            let lock_token = String.◌++◌ worker_id (String.◌++◌ ":" uuid) in
            let (acquired, st') = lock_candidate lock_token lock_ttl_seconds now candidate st in
            if acquired
            then claim_candidate worker_id lock_token lock_ttl_seconds now candidate st'
            else (none, st')
      ]
