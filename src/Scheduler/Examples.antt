-- ===== src/Scheduler/Examples.antt =====
-- A concrete scheduler whose task of retention is on, with one administrator and no jobs.
use s3gator.Base.{true, false, none, some, [], ◌∷◌, ◌≡◌, ◌⊎◌, refl, arith}
use s3gator.Base.Text.{codes}
use s3gator.Auth.{SessionUser, super_admin, admin}
use s3gator.Auth.Sessions.{Account}
use s3gator.Jobs.Json.{null}
use s3gator.Jobs.Model.{LockService, retention_cleanup, job_event_of}
use s3gator.Scheduler.Model.{
  retention, uploads, scheduled, TaskDefinition, Tools, State, find_actor, resolve_scheduler_actor,
  is_scheduled_task_enabled,
}
use s3gator.Scheduler.Tasks.{execute_task, execute_task_if_due, task_name}
use s3gator.Scheduler.Ticks.{tick, run_task_now}
use s3gator.Scheduler.Single.{IsSingle, active_count, scheduler-IsSingle}
use s3gator.Scheduler.Paced.{execute_task_if_due-execute_task}
use s3gator.Scheduler.Acting.{IsAccountOf, NoneActive, resolve_scheduler_actor-IsAccountOf}

abbrev granting : LockService (Unit {0})
granting = record {
  key = λ l k. k;
  acquire = λ k v ttl now l. (true, l);
  release = λ k v now l. (true, l);
}

abbrev tools : Tools (Unit {0})
tools = record {
  env = record {
    config = record {
      max_attempts_bucket_sync = 3;
      backoff_seconds_bucket_sync = 60;
      max_attempts_upload_cleanup = 3;
      backoff_seconds_upload_cleanup = 120;
      max_attempts_retention_cleanup = 2;
      backoff_seconds_retention_cleanup = 300;
      max_backoff_seconds = 1800;
    };
    locks = granting;
    lower = λ t. t;
    iso = λ n. codes "t";
  };
  config = record {
    enabled = true;
    tick_seconds = 30;
    lock_ttl_seconds = 60;
    retention_enabled = true;
    retention_interval_minutes = 360;
    uploads_enabled = false;
    uploads_interval_minutes = 30;
    buckets_enabled = false;
    buckets_interval_minutes = 0;
  };
  instance_id = "scheduler-1";
  enqueue_error = λ key. none;
  payload = λ actor trigger correlation_id. null;
  decimal = λ n. "0";
}

abbrev old_rows : TaskDefinition
old_rows = record {
  key = retention;
  job_type = retention_cleanup;
  interval_minutes = 360;
  enabled = true;
}

abbrev root : Account
root = record {
  id = "u0";
  username = "root";
  email = none;
  display_name = none;
  role = super_admin;
  is_active = true;
}

abbrev alice : SessionUser
alice = record {
  id = "u0";
  username = "root";
  email = none;
  display_name = none;
  role = super_admin;
}

abbrev start : State (Unit {0})
start = record {
  jobs = record { jobs = []; events = []; metrics = []; lock_state = tt };
  settings = record {
    retention_state = none;
    uploads_state = none;
    buckets_state = none;
    heartbeat = none;
  };
  accounts = root ∷ [];
  runs = [];
  audits = [];
  running = false;
}

old_rows_on : is_scheduled_task_enabled tools.config old_rows ≡ true
unfolding is_scheduled_task_enabled
old_rows_on = refl

execute_task_if_due-execute_task_example :
    execute_task_if_due tools old_rows 2000
      (some alice)
      "c2"
      "j2"
      (execute_task tools old_rows 1000 (some alice) "c1" scheduled "j1" start).0
    ≡ (execute_task tools old_rows 1000 (some alice) "c1" scheduled "j1" start).0
execute_task_if_due-execute_task_example =
    execute_task_if_due-execute_task tools old_rows 1000 2000 (some alice) (some alice) "c1" "c2"
      "j1" "j2" start old_rows_on (omega arith)

scheduler-IsSingle_example :
    IsSingle [] (tick tools task_name 1000 start).jobs.jobs
    × IsSingle [] (run_task_now tools uploads alice none "j1" 1000 start).0.jobs.jobs
scheduler-IsSingle_example = scheduler-IsSingle tools task_name 1000 start uploads alice none "j1"

-- A tick at the start queues the job, and the next one does not queue another.
one_queued :
    active_count retention_cleanup
      (tick tools task_name 2000 (tick tools task_name 1000 start)).jobs.jobs
    ≡ 1
unfolding tick job_event_of
one_queued = refl

root_acts : resolve_scheduler_actor start.accounts ≡ some alice
unfolding resolve_scheduler_actor find_actor
root_acts = refl

resolve_scheduler_actor-IsAccountOf_example :
    IsAccountOf start.accounts super_admin alice
    ⊎ (NoneActive start.accounts super_admin × IsAccountOf start.accounts admin alice)
resolve_scheduler_actor-IsAccountOf_example =
    resolve_scheduler_actor-IsAccountOf start.accounts alice root_acts
