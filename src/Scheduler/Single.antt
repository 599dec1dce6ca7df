-- ===== src/Scheduler/Single.antt =====
-- No two jobs of a maintenance type are active at once.
use Prim.Native.String
use s3gator.Base.{
  ℕ, suc, ◌+◌, ◌≤◌, String, Bool, true, false, Option, none, some, List, [], ◌∷◌, ◌++◌, ◌≡◌, refl,
  subst, inl, inr, arith, if◌then◌else◌, ◌&&◌, ◌||◌, Option-cases, Bool-cases, not,
}
use s3gator.Auth.{SessionUser}
use s3gator.Jobs.Model.{JobType, Job, create_event, job_event_of}
use s3gator.Jobs.Queue.{enqueue}
use s3gator.Scheduler.Model.{
  EnqueueError, no_row, no_event, no_audit, SchedulerTaskKey, SchedulerTrigger, scheduled, manual,
  TaskDefinition, Tools, State, get_task_definitions, is_scheduled_task_enabled,
  compute_next_run_at, read_task_state, resolve_scheduler_actor,
}
use s3gator.Scheduler.Tasks.{
  same_type, is_active_status, find_active, queue_task, queue_unless_active, run_enabled,
  run_if_enabled, execute_task, execute_task_if_due, is_noted, is_later,
}
use s3gator.Scheduler.Ticks.{
  acquire, release, run_tasks, run_due, tick_acquired, tick_value, tick, run_locked,
  run_if_acquired, run_task_now, find_task,
}

-- How many jobs of the type are queued or running.
abbrev pub active_count : JobType → List Job → ℕ
active_count type [] = 0
active_count type (j ∷ jobs) =
    let rest = active_count type jobs in
    if same_type j.type type && is_active_status j.status then suc rest else rest

-- At most one job of each type that had at most one.
abbrev pub IsSingle : List Job → List Job → Type 0
IsSingle before after =
    (type : JobType) → active_count type before ≤ 1 → active_count type after ≤ 1

active_count-append :
    (type : JobType) (jobs : List Job) (job : Job)
    → active_count type (jobs ++ job ∷ []) ≡ active_count type jobs + active_count type (job ∷ [])
active_count-append type [] job = omega arith
active_count-append type (j ∷ jobs) job = ground (arith, active_count-append type jobs job)

active_count-find_active :
    (type : JobType) (jobs : List Job) → find_active type jobs ≡ none → active_count type jobs ≡ 0
unfolding find_active
active_count-find_active type [] h = refl
active_count-find_active type (j ∷ jobs) h =
    elim (Bool-cases (same_type j.type type && is_active_status j.status)) [
      | inl e ↦ absurd (cc (rw e at h))
      | inr e ↦ rw e (active_count-find_active type jobs (rw e at h))
    ]

one_job : (type : JobType) (job : Job) → active_count type (job ∷ []) ≤ 1
one_job type job = ground arith

same_type→eq : (s t : JobType) → same_type s t ≡ true → s ≡ t
same_type→eq s t h = ground arith

-- A job of a type with no active job may be added.
added-IsSingle :
    (jobs : List Job) (job : Job)
    → find_active job.type jobs ≡ none
    → IsSingle jobs (jobs ++ job ∷ [])
added-IsSingle jobs job free type h = elim (Bool-cases (same_type job.type type)) [
  | inl e ↦ omega (
    arith,
    active_count-append type jobs job,
    active_count-find_active type jobs
        (subst (λ t. find_active t jobs ≡ none) (same_type→eq job.type type e) free),
    one_job type job,
  )
  | inr e ↦ omega (arith, active_count-append type jobs job, another type e)
]
  where
    another : (type : JobType) → same_type job.type type ≡ false → active_count type (job ∷ []) ≡ 0
    another type e = rw e refl

module _ {L : Type 0} (tools : Tools L) where
  -- The jobs of the one state and of the other.
  abbrev Single : State L → State L → Type 0
  Single st st' = IsSingle st.jobs.jobs st'.jobs.jobs

  queue_task-IsSingle :
      (task : TaskDefinition) (now : ℕ) (actor : SessionUser) (correlation_id : String)
      (trigger : SchedulerTrigger) (id : String) (next_run_at : Option ℕ)
      (error : Option EnqueueError) (st : State L)
      → find_active task.job_type st.jobs.jobs ≡ none
      → Single st (queue_task tools task now actor correlation_id trigger id next_run_at error st).0
  unfolding queue_task enqueue job_event_of create_event
  queue_task-IsSingle task now actor correlation_id trigger id next_run_at (some (no_row message))
        st free =
      λ type h. h
  queue_task-IsSingle task now actor correlation_id trigger id next_run_at (some (no_event message))
        st free =
      added-IsSingle st.jobs.jobs _ free
  queue_task-IsSingle task now actor correlation_id trigger id next_run_at (some (no_audit message))
        st free =
      added-IsSingle st.jobs.jobs _ free
  queue_task-IsSingle task now actor correlation_id trigger id next_run_at none st free =
      added-IsSingle st.jobs.jobs _ free

  run_enabled-IsSingle :
      (task : TaskDefinition) (now : ℕ) (actor : Option SessionUser) (correlation_id : String)
      (trigger : SchedulerTrigger) (id : String) (next_run_at : Option ℕ) (st : State L)
      → Single st (run_enabled tools task now actor correlation_id trigger id next_run_at st).0
  unfolding run_enabled queue_unless_active
  run_enabled-IsSingle task now none correlation_id trigger id next_run_at st = λ type h. h
  run_enabled-IsSingle task now (some actor) correlation_id trigger id next_run_at st =
      elim (Option-cases (find_active task.job_type st.jobs.jobs)) [
        | inl free ↦
            rw (run_enabled, free)
              (queue_task-IsSingle task now actor correlation_id trigger id next_run_at
                (tools.enqueue_error task.key) st free)
        | inr (active, found) ↦ rw (run_enabled, found) (λ type h. h)
      ]

  execute_task-IsSingle :
      (task : TaskDefinition) (now : ℕ) (actor : Option SessionUser) (correlation_id : String)
      (trigger : SchedulerTrigger) (id : String) (st : State L)
      → Single st (execute_task tools task now actor correlation_id trigger id st).0
  unfolding execute_task run_if_enabled
  execute_task-IsSingle task now actor correlation_id trigger id st =
      by_switch task.enabled (compute_next_run_at tools.config task now trigger)
    where
      by_switch :
          (enabled : Bool) (next_run_at : Option ℕ)
          → Single st
              (run_if_enabled tools enabled task now actor correlation_id trigger id next_run_at
                st).0
      by_switch true next_run_at =
          run_enabled-IsSingle task now actor correlation_id trigger id next_run_at st
      by_switch false next_run_at = λ type h. h

  if_due-IsSingle :
      (task : TaskDefinition) (now : ℕ) (actor : Option SessionUser) (correlation_id id : String)
      (st : State L)
      → Single st (execute_task_if_due tools task now actor correlation_id id st)
  unfolding execute_task_if_due
  if_due-IsSingle task now actor correlation_id id st =
      elim (Bool-cases (is_scheduled_task_enabled tools.config task)) [
        | inl on ↦ elim (Bool-cases (is_later tools now (read_task_state task.key st.settings))) [
          | inl later ↦ rw (execute_task_if_due, on, later) (λ type h. h)
          | inr due ↦
              rw (execute_task_if_due, on, due)
                (execute_task-IsSingle task now actor correlation_id scheduled id st)
        ]
        | inr off ↦ elim (Bool-cases (is_noted tools task (read_task_state task.key st.settings))) [
          | inl noted ↦ rw (execute_task_if_due, off, noted) (λ type h. h)
          | inr new ↦ rw (execute_task_if_due, off, new) (λ type h. h)
        ]
      ]

  run_tasks-IsSingle :
      (fresh : SchedulerTaskKey → String) (now : ℕ) (actor : Option SessionUser)
      (correlation_id : String) (tasks : List TaskDefinition) (st : State L)
      → Single st (run_tasks tools fresh now actor correlation_id tasks st)
  unfolding run_tasks
  run_tasks-IsSingle fresh now actor correlation_id [] st = λ type h. h
  run_tasks-IsSingle fresh now actor correlation_id (task ∷ tasks) st = λ type h.
      run_tasks-IsSingle fresh now actor correlation_id tasks _ type
        (if_due-IsSingle task now actor correlation_id (fresh task.key) st type h)

  run_due-IsSingle :
      (fresh : SchedulerTaskKey → String) (now : ℕ) (st : State L)
      → Single st (run_due tools fresh now st)
  unfolding run_due
  run_due-IsSingle fresh now st =
      run_tasks-IsSingle fresh now (resolve_scheduler_actor st.accounts)
        (String.◌++◌ tools.instance_id (String.◌++◌ "-" (tools.decimal now)))
        (get_task_definitions tools.config)
        (record st { settings = record st.settings { heartbeat = some now } })

  acquired-IsSingle :
      (fresh : SchedulerTaskKey → String) (value : String) (now : ℕ) (got : Bool × State L)
      → Single got.1 (tick_acquired tools fresh value now got)
  unfolding tick_acquired release
  acquired-IsSingle fresh value now (true, st) = run_due-IsSingle fresh now st
  acquired-IsSingle fresh value now (false, st) = λ type h. h

  tick-IsSingle :
      (fresh : SchedulerTaskKey → String) (now : ℕ) (st : State L)
      → Single st (tick tools fresh now st)
  unfolding tick acquire
  tick-IsSingle fresh now st = elim (Bool-cases (not tools.config.enabled || st.running)) [
    | inl still ↦ rw (tick, still) (λ type h. h)
    | inr may ↦
        rw (tick, may)
          (acquired-IsSingle fresh (tick_value tools now) now
            (acquire tools (tick_value tools now) now (record st { running = true })))
  ]

  run_if_acquired-IsSingle :
      (task : TaskDefinition) (actor : SessionUser) (correlation_id value id : String) (now : ℕ)
      (got : Bool × State L)
      → Single got.1 (run_if_acquired tools task actor correlation_id value id now got).0
  unfolding run_if_acquired run_locked release
  run_if_acquired-IsSingle task actor correlation_id value id now (false, st) = λ type h. h
  run_if_acquired-IsSingle task actor correlation_id value id now (true, st) =
      execute_task-IsSingle task now (some actor) correlation_id manual id st

  run_task_now-IsSingle :
      (key : SchedulerTaskKey) (actor : SessionUser) (correlation_id : Option String) (id : String)
      (now : ℕ) (st : State L)
      → Single st (run_task_now tools key actor correlation_id id now st).0
  unfolding run_task_now acquire
  run_task_now-IsSingle key actor correlation_id id now st =
      elim (Option-cases (find_task key (get_task_definitions tools.config))) [
        | inl h ↦ rw (run_task_now, h) (λ type k. k)
        | inr (task, h) ↦
            rw (run_task_now, h)
              (run_if_acquired-IsSingle task actor _ _ id now (acquire tools _ now st))
      ]

  -- A tick of the scheduler, and a run of a task that an administrator asks for, at any time and
  -- from any state, leave at most one queued or running job of every type that had at most one.
  pub scheduler-IsSingle :
      (fresh : SchedulerTaskKey → String) (now : ℕ) (st : State L) (key : SchedulerTaskKey)
      (actor : SessionUser) (correlation_id : Option String) (id : String)
      → IsSingle st.jobs.jobs (tick tools fresh now st).jobs.jobs
        × IsSingle st.jobs.jobs (run_task_now tools key actor correlation_id id now st).0.jobs.jobs
  scheduler-IsSingle fresh now st key actor correlation_id id =
      (tick-IsSingle fresh now st, run_task_now-IsSingle key actor correlation_id id now st)
