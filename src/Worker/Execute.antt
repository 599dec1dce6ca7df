-- ===== src/Worker/Execute.antt =====
-- apps/api/src/jobs/jobs.worker.service.ts: the run of a job to its end, and the worker's tick.
pub mod Stopped
pub mod Settled
use s3gator.Base.{
  ℕ, String, Bool, true, false, Option, none, some, List, [], ◌∷◌, ◌++◌, if◌then◌else◌,
}
use s3gator.Base.Text.{Text, codes}
use s3gator.Jobs.Json.{Json, object, str, string}
use s3gator.Jobs.Model.{
  JobType, folder_rename, folder_delete, bucket_sync, upload_cleanup, retention_cleanup, Job, State,
  error, job_event, record_metric,
}
use s3gator.Jobs.Queue.{claim_next}
use s3gator.Jobs.Finish.{mark_completed, mark_canceled, mark_failed}
use s3gator.Worker.Model.{
  s3_failure, World, Tools, Action, Result, done, stopped, threw, unfinished, measure, now, event,
  cancel_seen,
}
use s3gator.Worker.Folders.{execute_folder_rename, execute_folder_delete}
use s3gator.Worker.Sync.{execute_bucket_sync}
use s3gator.Worker.Cleanup.{execute_upload_cleanup, execute_retention_cleanup}

-- How a run of a job left the worker.
pub data Ended : Type 0 where
  ended still_running : Ended

module _ {L S : Type 0} (tools : Tools L S) (fresh : String → String) where
  -- The branches on the job's type.
  unfoldable pub dispatch : JobType → Job → Text → Action (World L S) Json
  unfolding execute_folder_rename execute_folder_delete execute_bucket_sync execute_upload_cleanup
      execute_retention_cleanup
  dispatch folder_rename job correlation_id = execute_folder_rename tools job correlation_id
  dispatch folder_delete job correlation_id = execute_folder_delete tools job correlation_id
  dispatch bucket_sync job correlation_id = execute_bucket_sync tools fresh job correlation_id
  dispatch upload_cleanup job correlation_id = execute_upload_cleanup tools job
  dispatch retention_cleanup job correlation_id = execute_retention_cleanup tools job correlation_id

  abbrev on_jobs : (ℕ → State L → State L) → World L S → World L S
  on_jobs f w = record w { jobs = f (now tools w) w.jobs }

  -- What the failure of a cleanup of old rows adds to the metrics.
  abbrev note_failure : JobType → World L S → World L S
  note_failure retention_cleanup w =
      (measure (s3gator.Worker.Model.retention_cleanup "failure") w).0
  note_failure _ w = w

  -- The end of the run, by how its action ended.
  unfoldable pub settle : Job → World L S × Result Json → World L S × Ended
  settle job (w, done result) = (on_jobs (mark_completed tools.env job.id (some result)) w, ended)
  settle job (w, stopped) = (on_jobs (mark_canceled tools.env job.id) w, ended)
  settle job (w, threw message) =
      let noted =
        event tools job.id "step_error" (some error) "Job step failed."
          (object (("error", str (tools.text message)) ∷ [])) (note_failure job.type w) in
      (on_jobs (mark_failed tools.env job.id (tools.text message)) noted.0, ended)
  settle job (w, unfinished) = (w, still_running)

  abbrev start_or_cancel : Job → Text → World L S × Bool → World L S × Ended
  start_or_cancel job correlation_id (w, true) = (on_jobs (mark_canceled tools.env job.id) w, ended)
  start_or_cancel job correlation_id (w, false) =
      settle job (dispatch job.type job correlation_id w)

  unfoldable pub execute : Job → Text → World L S → World L S × Ended
  unfolding dispatch settle cancel_seen
  execute job correlation_id w = start_or_cancel job correlation_id (
      cancel_seen tools job.id "Cancel request observed before job execution started."
        "before_start" w)

  -- `job.correlationId ?? "job-" + job.id`
  abbrev correlation_of : Job → Text
  correlation_of job = elim job.correlation_id [
    | none ↦ codes "job-" ++ tools.text job.id
    | some id ↦ tools.text id
  ]

  abbrev run_claimed : Option Job × State L → World L S → World L S × Ended
  run_claimed (none, jobs) w = (record w { jobs = jobs }, ended)
  run_claimed (some job, jobs) w =
      execute job (correlation_of job)
        (record w { jobs = record_metric (job_event job.type "start" none) jobs })

  -- One tick of a worker that is not running already, with the flag `running` that it leaves.
  unfoldable pub tick : String → String → ℕ → Bool → World L S → World L S × Bool
  unfolding execute claim_next
  tick worker_id uuid lock_ttl_seconds true w = (w, true)
  tick worker_id uuid lock_ttl_seconds false w =
      let claimed = claim_next tools.env worker_id uuid lock_ttl_seconds (now tools w) w.jobs in
      let run = run_claimed claimed w in
      (run.0, elim run.1 [ ended ↦ false | still_running ↦ true ])
