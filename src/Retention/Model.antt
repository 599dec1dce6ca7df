-- ===== src/Retention/Model.antt =====
-- apps/api/src/jobs/job-retention.service.ts: the rows of the tables and of the archives, the policy
-- and the thresholds. The relation of an event to its job is by the job's identifier.
use s3gator.Base.{ℕ, ◌-◌, ◌*◌, String, Bool, false, Option, none, some, List, [], ◌∷◌, ◌||◌}
use s3gator.Base.Text.{Text, codes, starts_with}
use s3gator.Jobs.Json.{Json}
use s3gator.Jobs.Model.{JobType, JobStatus, Job, JobEvent, find_job}
use s3gator.Files.Model.{UploadSession}
use s3gator.Worker.Payload.{member, as_fields, as_nonempty, ◌>>=◌}
use s3gator.Retention.Archive.{Archiving}

pub record EventRow : Type 0 where
  pub id : String
  pub event : JobEvent
  pub created_at : ℕ

pub record EventArchive : Type 0 where
  pub source_id : String
  pub job_type : Option JobType
  pub job_status : Option JobStatus
  pub event : JobEvent
  pub created_at : ℕ

pub record AuditRow : Type 0 where
  pub id : String
  pub actor_user_id : Option String
  pub action : Text
  pub entity_type : Text
  pub entity_id : Option Text
  pub metadata : Option Json
  pub ip_address : Option Text
  pub created_at : ℕ

pub record AuditArchive : Type 0 where
  pub source_id : String
  pub row : AuditRow
  pub correlation_id : Option Text

pub record RetentionPolicy : Type 0 where
  pub job_events_days : ℕ
  pub failed_job_days : ℕ
  pub terminal_job_days : ℕ
  pub audit_log_days : ℕ
  pub security_audit_days : ℕ
  pub upload_session_days : ℕ
  pub archive_enabled : Bool
  pub archive_batch_size : ℕ
  pub archive_audit_log_days : ℕ
  pub archive_security_audit_days : ℕ
  pub archive_job_event_days : ℕ

pub record State : Type 0 where
  pub jobs : List Job
  pub events : List EventRow
  pub audits : List AuditRow
  pub uploads : List UploadSession
  pub event_archive : List EventArchive
  pub audit_archive : List AuditArchive

-- The counts of a cleanup.
pub record Summary : Type 0 where
  pub archived_events_completed_canceled : ℕ
  pub archived_events_failed : ℕ
  pub archived_audits_general : ℕ
  pub archived_audits_security : ℕ
  pub deleted_events_completed_canceled : ℕ
  pub deleted_events_failed : ℕ
  pub deleted_audits_general : ℕ
  pub deleted_audits_security : ℕ
  pub deleted_jobs_completed_canceled : ℕ
  pub deleted_jobs_failed : ℕ
  pub deleted_uploads : ℕ
  pub purged_events : ℕ
  pub purged_audits_general : ℕ
  pub purged_audits_security : ℕ

-- `now - days * 24 * 60 * 60 * 1000`; no row is older than 0
unfoldable pub threshold : ℕ → ℕ → ℕ
threshold now days = now - days * 24 * 60 * 60 * 1000

abbrev pub security_audit_action_prefixes : List Text
security_audit_action_prefixes =
    codes "auth."
    ∷ codes "user."
    ∷ codes "settings."
    ∷ codes "bucket.grants"
    ∷ codes "bucket.admin_scope"
    ∷ codes "connection."
    ∷ codes "session."
    ∷ []

unfoldable pub starts_with_any : List Text → Text → Bool
starts_with_any [] action = false
starts_with_any (p ∷ prefixes) action = starts_with action p || starts_with_any prefixes action

unfoldable pub is_security : Text → Bool
unfolding starts_with_any
is_security action = starts_with_any security_audit_action_prefixes action

unfoldable pub extract_correlation_id : Option Json → Option Text
unfolding member
extract_correlation_id none = none
extract_correlation_id (some value) = do
  fields ← as_fields value
  context ← member (codes "_context") fields
  inner ← as_fields context
  as_nonempty (member (codes "correlationId") inner)

abbrev type_of : Option Job → Option JobType
type_of none = none
type_of (some j) = some j.type

abbrev status_of : Option Job → Option JobStatus
status_of none = none
status_of (some j) = some j.status

-- The rows that `archiveAndDeleteJobEvents` creates.
unfoldable pub archiving_events : List Job → Archiving EventRow EventArchive
archiving_events jobs = record {
  id_of = λ r. r.id;
  created_at = λ r. r.created_at;
  archived = λ r. record {
    source_id = r.id;
    job_type = type_of (find_job r.event.job_id jobs);
    job_status = status_of (find_job r.event.job_id jobs);
    event = r.event;
    created_at = r.created_at;
  };
  source_of = λ a. a.source_id;
}

-- The rows that `archiveAndDeleteAuditLogs` creates.
unfoldable pub archiving_audits : Archiving AuditRow AuditArchive
unfolding extract_correlation_id
archiving_audits = record {
  id_of = λ r. r.id;
  created_at = λ r. r.created_at;
  archived =
      λ r. record { source_id = r.id; row = r; correlation_id = extract_correlation_id r.metadata };
  source_of = λ a. a.source_id;
}
