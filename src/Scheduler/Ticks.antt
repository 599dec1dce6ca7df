-- ===== src/Scheduler/Ticks.antt =====
-- apps/api/src/jobs/maintenance-scheduler.service.ts: the ticks of the scheduler and the runs that
-- an administrator asks for, each under the scheduler's lock. The identifiers of jobs that a tick
-- queues are made by the parameter `fresh`.
use Prim.Native.String
use s3gator.Base.{
  ℕ, String, Bool, true, false, Option, none, some, List, [], ◌∷◌, ◌++◌, map, if◌then◌else◌, ◌||◌,
  not, or_default,
}
use s3gator.Base.Text.{Text, codes}
use s3gator.Auth.{SessionUser}
use s3gator.Jobs.Json.{Json, object, string, str, null, nullable}
use s3gator.Scheduler.Model.{
  SchedulerTaskKey, retention, uploads, buckets, manual, SchedulerResult, queued, skipped_active,
  failed, skipped_disabled, TaskDefinition, TaskState, RunTaskResult, AuditInput, Tools, State,
  get_task_definitions, is_scheduled_task_enabled, resolve_lock_ttl_seconds,
  resolve_scheduler_actor, read_task_state,
}
use s3gator.Scheduler.Tasks.{task_name, execute_task, execute_task_if_due}

abbrev same_key : SchedulerTaskKey → SchedulerTaskKey → Bool
same_key retention retention = true
same_key uploads uploads = true
same_key buckets buckets = true
same_key _ _ = false

unfoldable pub find_task : SchedulerTaskKey → List TaskDefinition → Option TaskDefinition
find_task key [] = none
find_task key (t ∷ tasks) = if same_key t.key key then some t else find_task key tasks

abbrev pub result_name : SchedulerResult → String
result_name queued = "queued"
result_name skipped_active = "skipped_active"
result_name failed = "failed"
result_name skipped_disabled = "skipped_disabled"

abbrev text_or_null : Option Text → Json
text_or_null none = null
text_or_null (some t) = str t

abbrev refused : SchedulerTaskKey → String → RunTaskResult
refused key message = record {
  task = key;
  result = failed;
  job_id = none;
  error = some (codes message);
  next_run_at = none;
}

-- A task with its settings and its state, as `getStatus` shows it.
pub record TaskStatus : Type 0 where
  pub task : SchedulerTaskKey
  pub enabled : Bool
  pub interval_minutes : ℕ
  pub state : Option TaskState

module _ {L : Type 0} (tools : Tools L) where
  lock_ttl : ℕ
  lock_ttl = resolve_lock_ttl_seconds tools.config.lock_ttl_seconds tools.config.tick_seconds

  lock_key : State L → String
  lock_key st = tools.env.locks.key st.jobs.lock_state "maintenance:scheduler:tick"

  unfoldable pub acquire : String → ℕ → State L → Bool × State L
  unfolding lock_ttl lock_key
  acquire value now st =
      let (acquired, l) =
        tools.env.locks.acquire (lock_key st) value lock_ttl now st.jobs.lock_state in
      (acquired, record st { jobs = record st.jobs { lock_state = l } })

  unfoldable pub release : String → ℕ → State L → State L
  unfolding lock_key
  release value now st =
      let (released, l) = tools.env.locks.release (lock_key st) value now st.jobs.lock_state in
      record st { jobs = record st.jobs { lock_state = l } }

  -- The loop of a tick.
  unfoldable pub run_tasks :
      (SchedulerTaskKey → String)
      → ℕ
      → Option SessionUser
      → String
      → List TaskDefinition
      → State L
      → State L
  unfolding execute_task_if_due
  run_tasks fresh now actor correlation_id [] st = st
  run_tasks fresh now actor correlation_id (task ∷ tasks) st =
      run_tasks fresh now actor correlation_id tasks
        (execute_task_if_due tools task now actor correlation_id (fresh task.key) st)

  -- What a tick does with the lock.
  unfoldable pub run_due : (SchedulerTaskKey → String) → ℕ → State L → State L
  unfolding run_tasks resolve_scheduler_actor get_task_definitions
  run_due fresh now st =
      let correlation_id = String.◌++◌ tools.instance_id (String.◌++◌ "-" (tools.decimal now)) in
      run_tasks fresh now (resolve_scheduler_actor st.accounts) correlation_id
        (get_task_definitions tools.config)
        (record st { settings = record st.settings { heartbeat = some now } })

  -- What follows the call for the lock. The `finally` releases the lock also where another one
  -- holds it.
  unfoldable pub tick_acquired : (SchedulerTaskKey → String) → String → ℕ → Bool × State L → State L
  unfolding release run_due
  tick_acquired fresh value now (true, st) = record (release value now (run_due fresh now st)) {
    running = false;
  }
  tick_acquired fresh value now (false, st) = record (release value now st) { running = false }

  abbrev pub tick_value : ℕ → String
  tick_value now = String.◌++◌ tools.instance_id (String.◌++◌ ":" (tools.decimal now))

  -- A tick, unless the scheduler is off or runs already.
  unfoldable pub tick : (SchedulerTaskKey → String) → ℕ → State L → State L
  unfolding acquire tick_acquired
  tick fresh now st =
      if not tools.config.enabled || st.running
      then st
      else tick_acquired fresh (tick_value now) now
          (acquire (tick_value now) now (record st { running = true }))

  -- `runTaskNow` with the lock, its audit included.
  unfoldable pub run_locked :
      TaskDefinition → SessionUser → String → String → ℕ → State L → State L × RunTaskResult
  unfolding execute_task
  run_locked task actor correlation_id id now st =
      let (st', r) = execute_task tools task now (some actor) correlation_id manual id st in
      let input : AuditInput = record {
        actor = actor;
        action = "maintenance.scheduler.run_once";
        entity_type = "maintenance_task";
        entity_id = task_name task.key;
        metadata = object (
            ("task", string (task_name task.key))
            ∷ ("result", string (result_name r.result))
            ∷ ("jobId", nullable r.job_id)
            ∷ ("error", text_or_null r.error)
            ∷ ("reason", string "manual")
            ∷ ("correlationId", string correlation_id)
            ∷ []);
      } in
      (record st' { audits = st'.audits ++ input ∷ [] }, r)

  -- The branches of `runTaskNow` on the lock.
  unfoldable pub run_if_acquired :
      TaskDefinition
      → SessionUser
      → String
      → String
      → String
      → ℕ
      → Bool × State L
      → State L × RunTaskResult
  unfolding run_locked release
  run_if_acquired task actor correlation_id value id now (false, st) =
      (st, refused task.key "Scheduler lock is busy. Try again shortly.")
  run_if_acquired task actor correlation_id value id now (true, st) =
      let (st', r) = run_locked task actor correlation_id id now st in (release value now st', r)

  unfoldable pub run_task_now :
      SchedulerTaskKey
      → SessionUser
      → Option String
      → String
      → ℕ
      → State L
      → State L × RunTaskResult
  unfolding find_task get_task_definitions acquire run_if_acquired
  run_task_now key actor correlation_id id now st =
      elim (find_task key (get_task_definitions tools.config)) [
        | none ↦ (st, refused key "Unknown maintenance task.")
        | some task ↦
            let run_id =
              or_default correlation_id
                (String.◌++◌ tools.instance_id (String.◌++◌ "-manual-" (tools.decimal now))) in
            let value = String.◌++◌ tools.instance_id (
              String.◌++◌ ":manual:"
                (String.◌++◌ (task_name key) (String.◌++◌ ":" (tools.decimal now)))) in
            run_if_acquired task actor run_id value id now (acquire value now st)
      ]

  unfoldable pub get_status : State L → Option ℕ × List TaskStatus
  unfolding get_task_definitions read_task_state is_scheduled_task_enabled
  get_status st = (
    st.settings.heartbeat,
    map
        (λ task. record {
          task = task.key;
          enabled = is_scheduled_task_enabled tools.config task;
          interval_minutes = task.interval_minutes;
          state = read_task_state task.key st.settings;
        })
        (get_task_definitions tools.config),
  )
