-- ===== src/Jobs/Model.antt =====
-- apps/api/src/jobs/jobs.service.ts: the rows of the job table and of its events, the settings, and
-- what the service uses of others. The tables are lists in the order of creation. Times are
-- milliseconds, and every read of the clock within one call gives the same instant. The calls of
-- the database and of the lock service answer.
use Prim.Native.String
use s3gator.Base.{
  ℕ, String, Bool, Option, none, some, List, [], ◌∷◌, ◌++◌, if◌then◌else◌, str_eq, or_default,
  or_else,
}
use s3gator.Base.Text.{Text}
use s3gator.Jobs.Json.{Json, sanitize_metadata}

pub data JobType : Type 0 where
  folder_rename folder_delete bucket_sync upload_cleanup retention_cleanup : JobType

pub data JobStatus : Type 0 where
  queued running completed failed canceled : JobStatus

pub data Level : Type 0 where
  info warn error : Level

pub record Job : Type 0 where
  pub id : String
  pub type : JobType
  pub status : JobStatus
  pub correlation_id : Option String
  pub attempt_count : ℕ
  pub max_attempts : ℕ
  pub retryable : Bool
  pub next_retry_at : Option ℕ
  pub last_error : Option Text
  pub created_by_user_id : Option String
  pub payload : Json
  pub progress : Option Json
  pub result : Option Json
  pub failure_summary : Option Text
  pub cancel_requested_at : Option ℕ
  pub lock_key : Option String
  pub locked_at : Option ℕ
  pub created_at : ℕ
  pub started_at : Option ℕ
  pub completed_at : Option ℕ

pub record JobEvent : Type 0 where
  pub job_id : String
  pub correlation_id : Option String
  pub type : String
  pub level : Level
  pub message : String
  pub metadata : Option Json

pub record JobEventInput : Type 0 where
  pub type : String
  pub message : String
  pub metadata : Option Json
  pub level : Option Level
  pub correlation_id : Option String

-- The calls of the metrics service, with a duration in milliseconds.
pub data Metric : Type 0 where
  job_event : JobType → String → Option ℕ → Metric
  job_retry_event : JobType → String → Metric
  job_reclaim : JobType → Metric

-- The locks that the service takes, over a state `L` of the lock service.
pub record LockService (L : Type 0) : Type 0 where
  pub key : L → String → String
  pub acquire : String → String → ℕ → ℕ → L → Bool × L
  pub release : String → String → ℕ → L → Bool × L

-- The settings that `configService` answers.
pub record Config : Type 0 where
  pub max_attempts_bucket_sync : ℕ
  pub backoff_seconds_bucket_sync : ℕ
  pub max_attempts_upload_cleanup : ℕ
  pub backoff_seconds_upload_cleanup : ℕ
  pub max_attempts_retention_cleanup : ℕ
  pub backoff_seconds_retention_cleanup : ℕ
  pub max_backoff_seconds : ℕ

-- What the service is given: settings, locks, `toLowerCase` and `toISOString`.
pub record Env (L : Type 0) : Type 0 where
  pub config : Config
  pub locks : LockService L
  pub lower : Text → Text
  pub iso : ℕ → Text

pub record State (L : Type 0) : Type 0 where
  pub jobs : List Job
  pub events : List JobEvent
  pub metrics : List Metric
  pub lock_state : L

-- `findUnique` by id
unfoldable pub find_job : String → List Job → Option Job
find_job id [] = none
find_job id (j ∷ jobs) = if str_eq j.id id then some j else find_job id jobs

-- `update` by id, of a row that is there; the id is the table's primary key
unfoldable pub update_job : String → (Job → Job) → List Job → List Job
update_job id f [] = []
update_job id f (j ∷ jobs) = if str_eq j.id id then f j ∷ jobs else j ∷ update_job id f jobs

module _ {L : Type 0} where
  unfoldable pub record_metric : Metric → State L → State L
  record_metric m st = record st { metrics = st.metrics ++ m ∷ [] }

  module _ (env : Env L) where
    -- The `createEvent` of a job with an id and a correlation id.
    unfoldable pub create_event : String → Option String → JobEventInput → State L → State L
    create_event id correlation_id input st = record st { events = st.events ++ event ∷ [] }
      where
        event : JobEvent
        event = record {
          job_id = id;
          correlation_id = or_else input.correlation_id correlation_id;
          type = input.type;
          level = or_default input.level info;
          message = input.message;
          metadata = sanitize_metadata env.lower input.metadata;
        }

    unfoldable pub job_event_of : Job → String → Level → String → Json → State L → State L
    unfolding create_event
    job_event_of job type level message metadata st =
        create_event job.id job.correlation_id
          (record {
            type = type;
            message = message;
            metadata = some metadata;
            level = some level;
            correlation_id = none;
          })
          st

    unfoldable pub release_token : String → Option String → ℕ → State L → State L
    release_token id none now st = st
    release_token id (some token) now st = if str_eq token "" then st else record st {
      lock_state =
          (env.locks.release (env.locks.key st.lock_state (String.◌++◌ "job:lock:" id)) token now
            st.lock_state).1;
    }

    unfoldable pub release_job_lock : Job → ℕ → State L → State L
    release_job_lock job now st = release_token job.id job.lock_key now st

    unfoldable pub record_event : String → JobEventInput → State L → State L
    unfolding create_event
    record_event id input st = elim (find_job id st.jobs) [
      | none ↦ st
      | some job ↦ create_event job.id job.correlation_id input st
    ]
