-- ===== src/Scheduler/Model.antt =====
-- apps/api/src/jobs/maintenance-scheduler.service.ts: the tasks, their stored states and what the
-- scheduler uses of others. Stored times are milliseconds in place of their ISO text, and a state
-- is what the scheduler itself wrote.
use s3gator.Base.{
  ℕ, ◌+◌, ◌*◌, String, Bool, true, false, Option, none, some, List, [], ◌∷◌, if◌then◌else◌, leb,
  ltb, ◌&&◌, ◌||◌, not, or_else,
}
use s3gator.Base.Text.{Text}
use s3gator.Auth.{AppRole, super_admin, admin, SessionUser, role_eq}
use s3gator.Auth.Sessions.{Account}
use s3gator.Jobs.Json.{Json}
use s3gator.Jobs.Model.{JobType, bucket_sync, upload_cleanup, retention_cleanup, Env}

pub data SchedulerTaskKey : Type 0 where
  retention uploads buckets : SchedulerTaskKey

pub data SchedulerTrigger : Type 0 where
  scheduled manual : SchedulerTrigger

pub data SchedulerResult : Type 0 where
  queued skipped_active failed skipped_disabled : SchedulerResult

pub record TaskDefinition : Type 0 where
  pub key : SchedulerTaskKey
  pub job_type : JobType
  pub interval_minutes : ℕ
  pub enabled : Bool

-- A row of `appSetting` for a task.
pub record TaskState : Type 0 where
  pub ran_at : ℕ
  pub next_run_at : Option ℕ
  pub result : SchedulerResult
  pub trigger : SchedulerTrigger
  pub task_enabled : Bool
  pub interval_minutes : ℕ
  pub last_success_at : Option ℕ
  pub last_failure_at : Option ℕ
  pub last_heartbeat_at : Option ℕ
  pub last_job_id : Option String
  pub error : Option Text

pub record RunTaskResult : Type 0 where
  pub task : SchedulerTaskKey
  pub result : SchedulerResult
  pub job_id : Option String
  pub error : Option Text
  pub next_run_at : Option ℕ

-- The tasks' rows of `appSetting`.
pub record Settings : Type 0 where
  pub retention_state : Option TaskState
  pub uploads_state : Option TaskState
  pub buckets_state : Option TaskState
  pub heartbeat : Option ℕ

pub record AuditInput : Type 0 where
  pub actor : SessionUser
  pub action : String
  pub entity_type : String
  pub entity_id : String
  pub metadata : Json

-- The settings that `configService` answers.
pub record Config : Type 0 where
  pub enabled : Bool
  pub tick_seconds : ℕ
  pub lock_ttl_seconds : ℕ
  pub retention_enabled : Bool
  pub retention_interval_minutes : ℕ
  pub uploads_enabled : Bool
  pub uploads_interval_minutes : ℕ
  pub buckets_enabled : Bool
  pub buckets_interval_minutes : ℕ

-- Where a task's queueing throws, with the message: before the job's row is written, between the
-- row and its event, or by the audit log once all else is done.
pub data EnqueueError : Type 0 where
  no_row no_event no_audit : Text → EnqueueError

-- `enqueue_error` is what the queueing of a task throws, if it does; `payload` is the text of the
-- actor, the reason and the correlation id that a job is queued with.
pub record Tools (L : Type 0) : Type 0 where
  pub env : Env L
  pub config : Config
  pub instance_id : String
  pub enqueue_error : SchedulerTaskKey → Option EnqueueError
  pub payload : SessionUser → SchedulerTrigger → String → Json
  pub decimal : ℕ → String

pub record State (L : Type 0) : Type 0 where
  pub jobs : s3gator.Jobs.Model.State L
  pub settings : Settings
  pub accounts : List Account
  pub runs : List (SchedulerTaskKey × SchedulerResult)
  pub audits : List AuditInput
  pub running : Bool

unfoldable pub get_task_definitions : Config → List TaskDefinition
get_task_definitions c =
    record {
      key = retention;
      job_type = retention_cleanup;
      enabled = c.retention_enabled;
      interval_minutes = c.retention_interval_minutes;
    }
    ∷ record {
      key = uploads;
      job_type = upload_cleanup;
      enabled = c.uploads_enabled;
      interval_minutes = c.uploads_interval_minutes;
    }
    ∷ record {
      key = buckets;
      job_type = bucket_sync;
      enabled = c.buckets_enabled;
      interval_minutes = c.buckets_interval_minutes;
    }
    ∷ []

unfoldable pub is_scheduled_task_enabled : Config → TaskDefinition → Bool
is_scheduled_task_enabled c task = c.enabled && task.enabled && ltb 0 task.interval_minutes

abbrev is_scheduled : SchedulerTrigger → Bool
is_scheduled scheduled = true
is_scheduled manual = false

unfoldable pub compute_next_run_at : Config → TaskDefinition → ℕ → SchedulerTrigger → Option ℕ
unfolding is_scheduled_task_enabled
compute_next_run_at c task now trigger =
    if not task.enabled || leb task.interval_minutes 0
    then none
    else if is_scheduled trigger || is_scheduled_task_enabled c task
    then some (now + task.interval_minutes * 60 * 1000)
    else none

unfoldable pub resolve_lock_ttl_seconds : ℕ → ℕ → ℕ
resolve_lock_ttl_seconds configured tick_seconds =
    if leb (tick_seconds + 5) configured then configured else tick_seconds + 5

-- `user.findFirst` of an active user with the role; the accounts are in the order of creation.
unfoldable pub find_actor : AppRole → List Account → Option SessionUser
find_actor role [] = none
find_actor role (a ∷ accounts) =
    if a.is_active && role_eq a.role role
    then some record {
      id = a.id;
      username = a.username;
      email = a.email;
      display_name = a.display_name;
      role = a.role;
    }
    else find_actor role accounts

unfoldable pub resolve_scheduler_actor : List Account → Option SessionUser
unfolding find_actor
resolve_scheduler_actor accounts =
    or_else (find_actor super_admin accounts) (find_actor admin accounts)

unfoldable pub read_task_state : SchedulerTaskKey → Settings → Option TaskState
read_task_state retention s = s.retention_state
read_task_state uploads s = s.uploads_state
read_task_state buckets s = s.buckets_state

abbrev pub put_state : SchedulerTaskKey → TaskState → Settings → Settings
put_state retention v s = record s { retention_state = some v }
put_state uploads v s = record s { uploads_state = some v }
put_state buckets v s = record s { buckets_state = some v }

abbrev is_queued : SchedulerResult → Bool
is_queued queued = true
is_queued _ = false

abbrev is_failed : SchedulerResult → Bool
is_failed failed = true
is_failed _ = false

abbrev success_of : Option TaskState → Option ℕ
success_of none = none
success_of (some s) = s.last_success_at

abbrev failure_of : Option TaskState → Option ℕ
failure_of none = none
failure_of (some s) = s.last_failure_at

-- `writeTaskState`, from the columns that do not depend on the state before.
unfoldable pub write_task_state :
    TaskDefinition → ℕ → SchedulerTrigger → Bool → RunTaskResult → Settings → Settings
unfolding read_task_state
write_task_state task now trigger task_enabled r settings =
    let previous = read_task_state task.key settings in
    put_state task.key
      (record {
        ran_at = now;
        next_run_at = r.next_run_at;
        result = r.result;
        trigger = trigger;
        task_enabled = task_enabled;
        interval_minutes = task.interval_minutes;
        last_success_at = if is_queued r.result then some now else success_of previous;
        last_failure_at = if is_failed r.result then some now else failure_of previous;
        last_heartbeat_at = some now;
        last_job_id = r.job_id;
        error = r.error;
      })
      settings
