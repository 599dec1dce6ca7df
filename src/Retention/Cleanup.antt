-- ===== src/Retention/Cleanup.antt =====
-- apps/api/src/jobs/job-retention.service.ts: a cleanup, in its order. Each loop over batches takes
-- `fuel` batches at most; the cleanup has no answer if one of them goes on. The metrics and the
-- stored state of the last run are left out.
use s3gator.Base.{
  ℕ, Bool, true, false, Option, none, some, List, [], ◌∷◌, not, ◌&&◌, if◌then◌else◌, ltb, keep_if,
  length,
}
use s3gator.Files.Model.{UploadSession, UploadSessionStatus, completed, aborted}
use s3gator.Files.Public.{status_in}
use s3gator.Jobs.Model.{JobStatus, canceled, Job, find_job}
use s3gator.Retention.Archive.{archive_and_delete}
use s3gator.Retention.Model.{
  EventRow, AuditRow, RetentionPolicy, State, Summary, threshold, is_security, archiving_events,
  archiving_audits,
}

abbrev pub is_finished : JobStatus → Bool
is_finished JobStatus.completed = true
is_finished canceled = true
is_finished _ = false

abbrev pub is_failed : JobStatus → Bool
is_failed JobStatus.failed = true
is_failed _ = false

-- `job: { status }` of an event
abbrev job_passes : (JobStatus → Bool) → List Job → EventRow → Bool
job_passes test jobs r = elim (find_job r.event.job_id jobs) [
  | none ↦ false
  | some j ↦ test j.status
]

-- The conditions of `runCleanup` on events and on audit logs.
unfoldable pub is_old_event : (JobStatus → Bool) → ℕ → List Job → EventRow → Bool
is_old_event test before jobs r = ltb r.created_at before && job_passes test jobs r

unfoldable pub is_old_audit : Bool → ℕ → AuditRow → Bool
unfolding is_security
is_old_audit true before r = ltb r.created_at before && is_security r.action
is_old_audit false before r = ltb r.created_at before && not (is_security r.action)

abbrev ended_before : ℕ → Option ℕ → Bool
ended_before before none = false
ended_before before (some at) = ltb at before

-- The condition of `deleteTerminalJobs`.
unfoldable pub is_old_job : (JobStatus → Bool) → ℕ → Job → Bool
is_old_job test before j = test j.status && ended_before before j.completed_at

unfoldable pub is_old_upload : ℕ → UploadSession → Bool
is_old_upload before s =
    status_in (completed ∷ aborted ∷ UploadSessionStatus.failed ∷ []) s.status
    && ltb s.updated_at before

-- `deleteMany`: the rows that stay, and the number of those deleted
abbrev pub delete_many {ℓ} : {A : Type ℓ} → (A → Bool) → List A → List A × ℕ
delete_many condition rows =
    (keep_if (λ a. not (condition a)) rows, length (keep_if condition rows))

-- The deletion of the events of jobs that are gone, by the foreign key's `onDelete: Cascade`.
unfoldable pub cascade : List Job → List EventRow → List EventRow
cascade jobs [] = []
cascade jobs (r ∷ rows) =
    let rest = cascade jobs rows in
    elim (find_job r.event.job_id jobs) [ none ↦ rest | some j ↦ r ∷ rest ]

unfoldable pub delete_terminal_jobs : (JobStatus → Bool) → ℕ → State → State × ℕ
unfolding cascade is_old_job
delete_terminal_jobs test before st =
    let (jobs, count) = delete_many (is_old_job test before) st.jobs in
    (record st { jobs = jobs; events = cascade jobs st.events }, count)

-- The counts of what is archived and of what is deleted.
abbrev Counts : Type 0
Counts = ℕ × ℕ

module _ (policy : RetentionPolicy) (fuel : ℕ) where
  -- Old events of jobs whose status passes the test: archived, where the policy says so, and
  -- deleted.
  unfoldable pub clean_events : (JobStatus → Bool) → ℕ → State → State × Option Counts
  unfolding archive_and_delete is_old_event archiving_events
  clean_events test before st =
      let condition = is_old_event test before st.jobs in
      let (tables, count) =
        archive_and_delete (archiving_events st.jobs) condition policy.archive_batch_size fuel 0
          st.events st.event_archive in
      let (rows, deleted) = delete_many condition st.events in
      if policy.archive_enabled
      then (
        record st { events = tables.0; event_archive = tables.1 },
        elim count [ none ↦ none | some n ↦ some (n, n) ],
      )
      else (record st { events = rows }, some (0, deleted))

  -- The same of audit logs, the security's or the others.
  unfoldable pub clean_audits : Bool → ℕ → State → State × Option Counts
  unfolding archive_and_delete is_old_audit archiving_audits
  clean_audits security before st =
      let condition = is_old_audit security before in
      let (tables, count) =
        archive_and_delete archiving_audits condition policy.archive_batch_size fuel 0 st.audits
          st.audit_archive in
      let (rows, deleted) = delete_many condition st.audits in
      if policy.archive_enabled
      then (
        record st { audits = tables.0; audit_archive = tables.1 },
        elim count [ none ↦ none | some n ↦ some (n, n) ],
      )
      else (record st { audits = rows }, some (0, deleted))

  -- `applyArchiveGovernance`, and the counts of events and of the two kinds of audit logs.
  unfoldable pub apply_archive_governance : ℕ → State → State × (ℕ × (ℕ × ℕ))
  unfolding is_old_audit threshold
  apply_archive_governance now st =
      let (events, purged_events) =
        delete_many (λ a. ltb a.created_at (threshold now policy.archive_job_event_days))
          st.event_archive in
      let (general, purged_general) =
        delete_many (λ a. is_old_audit false (threshold now policy.archive_audit_log_days) a.row)
          st.audit_archive in
      let (security, purged_security) =
        delete_many
          (λ a. is_old_audit true (threshold now policy.archive_security_audit_days) a.row)
          general in
      (
        record st { event_archive = events; audit_archive = security },
        (purged_events, (purged_general, purged_security)),
      )

  -- What follows the events and the audit logs.
  unfoldable pub finish_cleanup : ℕ → Counts → Counts → Counts → Counts → State → State × Summary
  unfolding delete_terminal_jobs is_old_upload apply_archive_governance threshold
  finish_cleanup now finished failed general security st =
      let (st1, jobs_finished) =
        delete_terminal_jobs is_finished (threshold now policy.terminal_job_days) st in
      let (st2, jobs_failed) =
        delete_terminal_jobs is_failed (threshold now policy.failed_job_days) st1 in
      let (uploads, deleted_uploads) =
        delete_many (is_old_upload (threshold now policy.upload_session_days)) st2.uploads in
      let (st3, purged) = apply_archive_governance now (record st2 { uploads = uploads }) in
      (
        st3,
        record {
          archived_events_completed_canceled = finished.0;
          archived_events_failed = failed.0;
          archived_audits_general = general.0;
          archived_audits_security = security.0;
          deleted_events_completed_canceled = finished.1;
          deleted_events_failed = failed.1;
          deleted_audits_general = general.1;
          deleted_audits_security = security.1;
          deleted_jobs_completed_canceled = jobs_finished;
          deleted_jobs_failed = jobs_failed;
          deleted_uploads = deleted_uploads;
          purged_events = purged.0;
          purged_audits_general = purged.1.0;
          purged_audits_security = purged.1.1;
        },
      )

  -- A step after which the cleanup goes on, if it has come to its end.
  abbrev after :
      State × Option Counts → (Counts → State → State × Option Summary) → State × Option Summary
  after (st, none) next = (st, none)
  after (st, some counts) next = next counts st

  unfoldable pub run_cleanup : ℕ → State → State × Option Summary
  unfolding clean_events clean_audits finish_cleanup threshold
  run_cleanup now st =
      after (clean_events is_finished (threshold now policy.job_events_days) st) λ finished st1.
        after (clean_events is_failed (threshold now policy.failed_job_days) st1) λ failed st2.
          after (clean_audits false (threshold now policy.audit_log_days) st2) λ general st3.
            after (clean_audits true (threshold now policy.security_audit_days) st3) λ security st4.
              let (st5, summary) = finish_cleanup now finished failed general security st4 in
              (st5, some summary)
