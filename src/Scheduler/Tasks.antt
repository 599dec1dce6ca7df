-- ===== src/Scheduler/Tasks.antt =====
-- apps/api/src/jobs/maintenance-scheduler.service.ts: the run of a task. The identifier of a job
-- that it queues is an argument.
use s3gator.Base.{
  ℕ, String, Bool, true, false, Option, none, some, List, [], ◌∷◌, ◌++◌, if◌then◌else◌, ◌&&◌, not,
  ltb, ◌==◌, take,
}
use s3gator.Base.Text.{Text, codes}
use s3gator.Auth.{SessionUser}
use s3gator.Jobs.Json.{object, string, num}
use s3gator.Jobs.Model.{
  JobType, folder_rename, folder_delete, bucket_sync, upload_cleanup, retention_cleanup, JobStatus,
  running, Job,
}
use s3gator.Jobs.Queue.{enqueue}
use s3gator.Scheduler.Model.{
  EnqueueError, no_row, no_event, no_audit, SchedulerTaskKey, retention, uploads, buckets,
  SchedulerTrigger, scheduled, manual, SchedulerResult, queued, skipped_active, failed,
  skipped_disabled, TaskDefinition, TaskState, RunTaskResult, AuditInput, Tools, State,
  is_scheduled_task_enabled, compute_next_run_at, read_task_state, write_task_state,
}

abbrev pub same_type : JobType → JobType → Bool
same_type folder_rename folder_rename = true
same_type folder_delete folder_delete = true
same_type bucket_sync bucket_sync = true
same_type upload_cleanup upload_cleanup = true
same_type retention_cleanup retention_cleanup = true
same_type _ _ = false

abbrev pub is_active_status : JobStatus → Bool
is_active_status JobStatus.queued = true
is_active_status running = true
is_active_status _ = false

-- `job.findFirst` of an active job with the type
unfoldable pub find_active : JobType → List Job → Option Job
find_active type [] = none
find_active type (j ∷ jobs) =
    if same_type j.type type && is_active_status j.status then some j else find_active type jobs

abbrev pub task_name : SchedulerTaskKey → String
task_name retention = "retention_cleanup"
task_name uploads = "upload_cleanup"
task_name buckets = "bucket_sync"

abbrev trigger_name : SchedulerTrigger → String
trigger_name scheduled = "scheduled"
trigger_name manual = "manual"

abbrev no_actor_message : String
no_actor_message = "No active SUPER_ADMIN or ADMIN user available for maintenance actor."

abbrev pub answer :
    TaskDefinition → SchedulerResult → Option String → Option Text → Option ℕ → RunTaskResult
answer task result job_id error next_run_at = record {
  task = task.key;
  result = result;
  job_id = job_id;
  error = error;
  next_run_at = next_run_at;
}

module _ {L : Type 0} where
  abbrev record_run : SchedulerTaskKey → SchedulerResult → State L → State L
  record_run key result st = record st { runs = st.runs ++ (key, result) ∷ [] }

  -- The new state of the task, and the answer.
  abbrev conclude :
      TaskDefinition
      → ℕ
      → SchedulerTrigger
      → Bool
      → RunTaskResult
      → State L
      → State L × RunTaskResult
  conclude task now trigger task_enabled r st =
      (record st { settings = write_task_state task now trigger task_enabled r st.settings }, r)

  module _ (tools : Tools L) where
    -- `enqueueTask`, whose three branches differ in the type of the job only.
    abbrev enqueue_task :
        TaskDefinition
        → SessionUser
        → String
        → SchedulerTrigger
        → String
        → ℕ
        → State L
        → Job × s3gator.Jobs.Model.State L
    enqueue_task task actor correlation_id trigger id now st =
        enqueue tools.env id (some correlation_id) now task.job_type
          (record {
            actor_id = actor.id;
            correlation_id = some correlation_id;
            body = tools.payload actor trigger correlation_id;
          })
          st.jobs

    -- The end of `executeTask`, once no job of the type is active.
    -- The `catch` around the queueing of a job.
    abbrev pub queue_failed :
        TaskDefinition → ℕ → SchedulerTrigger → Option ℕ → Text → State L → State L × RunTaskResult
    queue_failed task now trigger next_run_at message st =
        conclude task now trigger task.enabled
          (answer task failed none (some (take 2000 message)) next_run_at)
          (record_run task.key failed st)

    -- The state once the job is queued and the task's state says so.
    abbrev pub queued_state :
        TaskDefinition
        → ℕ
        → SchedulerTrigger
        → Option ℕ
        → Job × s3gator.Jobs.Model.State L
        → State L
        → State L × RunTaskResult
    queued_state task now trigger next_run_at (job, jobs) st =
        conclude task now trigger task.enabled (answer task queued (some job.id) none next_run_at)
          (record_run task.key queued (record st { jobs = jobs }))

    unfoldable pub queue_task :
        TaskDefinition
        → ℕ
        → SessionUser
        → String
        → SchedulerTrigger
        → String
        → Option ℕ
        → Option EnqueueError
        → State L
        → State L × RunTaskResult
    unfolding write_task_state enqueue
    queue_task task now actor correlation_id trigger id next_run_at (some (no_row message)) st =
        queue_failed task now trigger next_run_at message st
    queue_task task now actor correlation_id trigger id next_run_at (some (no_event message)) st =
        let (job, jobs) = enqueue_task task actor correlation_id trigger id now st in
        queue_failed task now trigger next_run_at message
          (record st { jobs = record st.jobs { jobs = jobs.jobs } })
    queue_task task now actor correlation_id trigger id next_run_at (some (no_audit message)) st =
        queue_failed task now trigger next_run_at message
          (queued_state task now trigger next_run_at
            (enqueue_task task actor correlation_id trigger id now st) st).0
    queue_task task now actor correlation_id trigger id next_run_at none st =
        let (job, jobs) = enqueue_task task actor correlation_id trigger id now st in
        let (st', r) = queued_state task now trigger next_run_at (job, jobs) st in
        let input : AuditInput = record {
          actor = actor;
          action = "maintenance.scheduler.enqueue";
          entity_type = "job";
          entity_id = job.id;
          metadata = object (
              ("task", string (task_name task.key))
              ∷ ("reason", string (trigger_name trigger))
              ∷ ("correlationId", string correlation_id)
              ∷ ("intervalMinutes", num task.interval_minutes)
              ∷ []);
        } in
        (record st' { audits = st'.audits ++ input ∷ [] }, r)

    -- The branches of `executeTask` on the active job.
    unfoldable pub queue_unless_active :
        TaskDefinition
        → ℕ
        → SessionUser
        → String
        → SchedulerTrigger
        → String
        → Option ℕ
        → Option Job
        → State L
        → State L × RunTaskResult
    unfolding queue_task write_task_state
    queue_unless_active task now actor correlation_id trigger id next_run_at (some active) st =
        conclude task now trigger task.enabled
          (answer task skipped_active (some active.id) none next_run_at)
          (record_run task.key skipped_active st)
    queue_unless_active task now actor correlation_id trigger id next_run_at none st =
        queue_task task now actor correlation_id trigger id next_run_at
          (tools.enqueue_error task.key) st

    -- The branches of `executeTask` on the actor.
    unfoldable pub run_enabled :
        TaskDefinition
        → ℕ
        → Option SessionUser
        → String
        → SchedulerTrigger
        → String
        → Option ℕ
        → State L
        → State L × RunTaskResult
    unfolding queue_unless_active find_active write_task_state
    run_enabled task now none correlation_id trigger id next_run_at st =
        conclude task now trigger task.enabled
          (answer task failed none (some (codes no_actor_message)) next_run_at)
          (record_run task.key failed st)
    run_enabled task now (some actor) correlation_id trigger id next_run_at st =
        queue_unless_active task now actor correlation_id trigger id next_run_at
          (find_active task.job_type st.jobs.jobs) st

    -- The branches of `executeTask` on the task's switch.
    unfoldable pub run_if_enabled :
        Bool
        → TaskDefinition
        → ℕ
        → Option SessionUser
        → String
        → SchedulerTrigger
        → String
        → Option ℕ
        → State L
        → State L × RunTaskResult
    unfolding run_enabled write_task_state
    run_if_enabled false task now actor correlation_id trigger id next_run_at st =
        conclude task now trigger false (answer task skipped_disabled none none next_run_at) st
    run_if_enabled true task now actor correlation_id trigger id next_run_at st =
        run_enabled task now actor correlation_id trigger id next_run_at st

    unfoldable pub execute_task :
        TaskDefinition
        → ℕ
        → Option SessionUser
        → String
        → SchedulerTrigger
        → String
        → State L
        → State L × RunTaskResult
    unfolding run_if_enabled compute_next_run_at
    execute_task task now actor correlation_id trigger id st =
        run_if_enabled task.enabled task now actor correlation_id trigger id
          (compute_next_run_at tools.config task now trigger) st

    -- The stored state says already that the task is disabled.
    abbrev pub is_noted : TaskDefinition → Option TaskState → Bool
    is_noted task none = false
    is_noted task (some s) = elim s.result [
      | skipped_disabled ↦ not s.task_enabled && s.interval_minutes == task.interval_minutes
      | _ ↦ false
    ]

    abbrev pub is_later : ℕ → Option TaskState → Bool
    is_later now none = false
    is_later now (some s) = elim s.next_run_at [ none ↦ false | some at ↦ ltb now at ]

    unfoldable pub execute_task_if_due :
        TaskDefinition → ℕ → Option SessionUser → String → String → State L → State L
    unfolding execute_task is_scheduled_task_enabled read_task_state write_task_state
    execute_task_if_due task now actor correlation_id id st =
        let current = read_task_state task.key st.settings in
        if not (is_scheduled_task_enabled tools.config task)
        then if is_noted task current
          then st
          else (conclude task now scheduled false (answer task skipped_disabled none none none)
              st).0
        else if is_later now current
        then st
        else (execute_task task now actor correlation_id scheduled id st).0
