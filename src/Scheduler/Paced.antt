-- ===== src/Scheduler/Paced.antt =====
-- A task is not run again before its interval is over.
use s3gator.Base.{
  ℕ, ◌+◌, ◌*◌, ◌<◌, String, Bool, true, false, Option, none, some, ◌≡◌, refl, ◌∙◌, ap, arith,
  lt→ltb,
}
use s3gator.Base.Text.{Text}
use s3gator.Auth.{SessionUser}
use s3gator.Jobs.Model.{Job}
use s3gator.Scheduler.Model.{
  EnqueueError, no_row, no_event, no_audit, SchedulerTaskKey, retention, uploads, buckets,
  SchedulerTrigger, scheduled, SchedulerResult, TaskDefinition, TaskState, Tools, State, Settings,
  is_scheduled_task_enabled, compute_next_run_at, read_task_state, put_state, write_task_state,
}
use s3gator.Scheduler.Tasks.{
  find_active, queue_task, queue_unless_active, run_enabled, run_if_enabled, execute_task,
  execute_task_if_due, is_later, answer,
}

-- The next run that the state of a task tells.
abbrev pub next_of : Option TaskState → Option ℕ
next_of none = none
next_of (some s) = s.next_run_at

read_task_state-put_state :
    (key : SchedulerTaskKey) (v : TaskState) (settings : Settings)
    → read_task_state key (put_state key v settings) ≡ some v
unfolding read_task_state
read_task_state-put_state retention v settings = refl
read_task_state-put_state uploads v settings = refl
read_task_state-put_state buckets v settings = refl

next-write_task_state :
    (task : TaskDefinition) (now : ℕ) (trigger : SchedulerTrigger) (enabled : Bool)
    (result : SchedulerResult) (job_id : Option String) (error : Option Text)
    (next_run_at : Option ℕ) (settings : Settings)
    → next_of (
        read_task_state task.key (
          write_task_state task now trigger enabled
            (answer task result job_id error next_run_at)
            settings))
      ≡ next_run_at
unfolding write_task_state
next-write_task_state task now trigger enabled result job_id error next_run_at settings =
    ap next_of (read_task_state-put_state task.key _ settings)

is_later_of :
    {L : Type 0} (tools : Tools L) (now at : ℕ) (o : Option TaskState)
    → next_of o ≡ some at
    → now < at
    → is_later tools now o ≡ true
is_later_of tools now at none h g = absurd (cc h)
is_later_of tools now at (some s) h g = rw h (lt→ltb now at g)

module _ {L : Type 0} (tools : Tools L) where
  next-queue_task :
      (task : TaskDefinition) (now : ℕ) (actor : SessionUser) (correlation_id : String)
      (trigger : SchedulerTrigger) (id : String) (next_run_at : Option ℕ)
      (error : Option EnqueueError) (st : State L)
      → next_of (
          read_task_state task.key
            (queue_task tools task now actor correlation_id trigger id next_run_at error
              st).0.settings)
        ≡ next_run_at
  unfolding queue_task
  next-queue_task task now actor correlation_id trigger id next_run_at (some (no_row message)) st =
      next-write_task_state task now trigger task.enabled _ _ _ next_run_at st.settings
  next-queue_task task now actor correlation_id trigger id next_run_at (some (no_event message))
        st =
      next-write_task_state task now trigger task.enabled _ _ _ next_run_at st.settings
  next-queue_task task now actor correlation_id trigger id next_run_at (some (no_audit message))
        st =
      next-write_task_state task now trigger task.enabled _ _ _ next_run_at _
  next-queue_task task now actor correlation_id trigger id next_run_at none st =
      next-write_task_state task now trigger task.enabled _ _ _ next_run_at st.settings

  next-queue_unless_active :
      (task : TaskDefinition) (now : ℕ) (actor : SessionUser) (correlation_id : String)
      (trigger : SchedulerTrigger) (id : String) (next_run_at : Option ℕ) (active : Option Job)
      (st : State L)
      → next_of (
          read_task_state task.key
            (queue_unless_active tools task now actor correlation_id trigger id next_run_at active
              st).0.settings)
        ≡ next_run_at
  unfolding queue_unless_active
  next-queue_unless_active task now actor correlation_id trigger id next_run_at (some job) st =
      next-write_task_state task now trigger task.enabled _ _ _ next_run_at st.settings
  next-queue_unless_active task now actor correlation_id trigger id next_run_at none st =
      next-queue_task task now actor correlation_id trigger id next_run_at
        (tools.enqueue_error task.key) st

  next-execute_task :
      (task : TaskDefinition) (now : ℕ) (actor : Option SessionUser) (correlation_id : String)
      (trigger : SchedulerTrigger) (id : String) (st : State L)
      → next_of (
          read_task_state task.key
            (execute_task tools task now actor correlation_id trigger id st).0.settings)
        ≡ compute_next_run_at tools.config task now trigger
  unfolding execute_task run_if_enabled run_enabled
  next-execute_task task now actor correlation_id trigger id st =
      by_switch task.enabled actor (compute_next_run_at tools.config task now trigger)
    where
      by_switch :
          (enabled : Bool) (actor : Option SessionUser) (next_run_at : Option ℕ)
          → next_of (
              read_task_state task.key
                (run_if_enabled tools enabled task now actor correlation_id trigger id next_run_at
                  st).0.settings)
            ≡ next_run_at
      by_switch false actor next_run_at =
          next-write_task_state task now trigger false _ _ _ next_run_at st.settings
      by_switch true none next_run_at =
          next-write_task_state task now trigger task.enabled _ _ _ next_run_at st.settings
      by_switch true (some user) next_run_at =
          next-queue_unless_active task now user correlation_id trigger id next_run_at
            (find_active task.job_type st.jobs.jobs) st

  next_scheduled :
      (task : TaskDefinition) (now : ℕ)
      → is_scheduled_task_enabled tools.config task ≡ true
      → compute_next_run_at tools.config task now scheduled
        ≡ some (now + task.interval_minutes * 60 * 1000)
  unfolding compute_next_run_at is_scheduled_task_enabled
  next_scheduled task now h = ground arith

  -- After a scheduled run of a task that is on, whatever came of it, the task is not due again
  -- before its interval is over: at any time before that, running the task if it is due changes
  -- nothing in the state that the run left.
  pub execute_task_if_due-execute_task :
      (task : TaskDefinition) (now later : ℕ) (actor actor' : Option SessionUser)
      (correlation_id correlation_id' id id' : String) (st : State L)
      → is_scheduled_task_enabled tools.config task ≡ true
      → later < now + task.interval_minutes * 60 * 1000
      → execute_task_if_due tools task later actor' correlation_id' id'
          (execute_task tools task now actor correlation_id scheduled id st).0
        ≡ (execute_task tools task now actor correlation_id scheduled id st).0
  unfolding execute_task_if_due
  execute_task_if_due-execute_task task now later actor actor' correlation_id correlation_id' id id'
        st on early =
      rw (execute_task_if_due, on, waits) refl
    where
      waits :
          is_later tools later (
            read_task_state task.key
              (execute_task tools task now actor correlation_id scheduled id st).0.settings)
          ≡ true
      waits =
          is_later_of tools later (now + task.interval_minutes * 60 * 1000) _
            (next-execute_task task now actor correlation_id scheduled id st
              ∙ next_scheduled task now on)
            early
