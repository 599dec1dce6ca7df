-- ===== src/Retention/Examples.antt =====
-- A concrete policy and tables.
use s3gator.Base.{
  ℕ, ◌*◌, ◌<◌, ◌⊎◌, true, false, none, some, [], ◌∷◌, ◌≡◌, refl, arith, keep_if, length, is_some,
}
use mathlib.Core.List.{Memᴰ}
use s3gator.Base.Sorting.{sort_by}
use s3gator.Base.Text.{codes}
use s3gator.Jobs.Json.{null}
use s3gator.Jobs.Model.{folder_delete, JobStatus, info, Job, find_job}
use s3gator.Retention.Archive.{archive_and_delete}
use s3gator.Retention.Archive.Emptied.{has_source, archive_and_delete-IsEmptied}
use s3gator.Retention.Model.{EventRow, AuditRow, RetentionPolicy, State, archiving_audits}
use s3gator.Retention.Cleanup.{is_old_audit, run_cleanup}

abbrev login : AuditRow
login = record {
  id = "a1";
  actor_user_id = none;
  action = codes "auth.login";
  entity_type = codes "user";
  entity_id = none;
  metadata = none;
  ip_address = none;
  created_at = 5;
}

same_id :
    (r : AuditRow)
    → archiving_audits.source_of (archiving_audits.archived r) ≡ archiving_audits.id_of r
unfolding archiving_audits
same_id r = refl

enough : length (keep_if (is_old_audit true 10) (login ∷ [])) < 3
unfolding is_old_audit
enough = ground arith

archive_and_delete-IsEmptied_example :
    (is_some (archive_and_delete archiving_audits (is_old_audit true 10) 1 3 0 (login ∷ []) []).1
      ≡ true)
    × (keep_if
          (is_old_audit true 10)
          (archive_and_delete archiving_audits (is_old_audit true 10) 1 3 0 (login ∷ []) []).0.0
        ≡ [])
    × (Memᴰ login
          (archive_and_delete archiving_audits (is_old_audit true 10) 1 3 0 (login ∷ []) []).0.0
        ⊎ (has_source archiving_audits "a1"
              (archive_and_delete archiving_audits (is_old_audit true 10) 1 3 0 (login ∷ []) []).0.1
            ≡ true))
unfolding archiving_audits
archive_and_delete-IsEmptied_example =
    archive_and_delete-IsEmptied archiving_audits same_id (is_old_audit true 10) 1 3 0 (login ∷ [])
      [] login (omega arith) enough (Memᴰ.head refl)

-- A job that was completed on the third day, and an event of it from that day.
abbrev day : ℕ
day = 24 * 60 * 60 * 1000

abbrev done_job : Job
done_job = record {
  id = "j1";
  type = folder_delete;
  status = JobStatus.completed;
  correlation_id = none;
  attempt_count = 1;
  max_attempts = 1;
  retryable = false;
  next_retry_at = none;
  last_error = none;
  created_by_user_id = none;
  payload = null;
  progress = none;
  result = none;
  failure_summary = none;
  cancel_requested_at = none;
  lock_key = none;
  locked_at = none;
  created_at = 3 * day;
  started_at = some (3 * day);
  completed_at = some (3 * day);
}

abbrev finished_event : EventRow
finished_event = record {
  id = "e1";
  event = record {
    job_id = "j1";
    correlation_id = none;
    type = "completed";
    level = info;
    message = "Job completed.";
    metadata = none;
  };
  created_at = 3 * day;
}

-- Events are kept for thirty days and archived, jobs for one day.
abbrev short_jobs : RetentionPolicy
short_jobs = record {
  job_events_days = 30;
  failed_job_days = 90;
  terminal_job_days = 1;
  audit_log_days = 180;
  security_audit_days = 365;
  upload_session_days = 30;
  archive_enabled = true;
  archive_batch_size = 500;
  archive_audit_log_days = 730;
  archive_security_audit_days = 1460;
  archive_job_event_days = 365;
}

abbrev tables : State
tables = record {
  jobs = done_job ∷ [];
  events = finished_event ∷ [];
  audits = [];
  uploads = [];
  event_archive = [];
  audit_archive = [];
}

-- On the sixth day the event is neither in its table nor in the archive.
event_lost :
    ((run_cleanup short_jobs 3 (6 * day) tables).0.events ≡ [])
    × ((run_cleanup short_jobs 3 (6 * day) tables).0.event_archive ≡ [])
unfolding run_cleanup sort_by find_job
event_lost = (refl, refl)
