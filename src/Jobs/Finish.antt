-- ===== src/Jobs/Finish.antt =====
-- apps/api/src/jobs/jobs.service.ts: how a run of a job ends, and its progress.
-- Each call is one step here: what another call does to the row between the read of it and the
-- update, which are two awaits of the source, is not modelled.
use s3gator.Base.{
  ℕ, ◌+◌, ◌-◌, ◌*◌, String, Bool, true, false, Option, none, some, List, [], ◌∷◌, ◌++◌,
  if◌then◌else◌, ◌&&◌, ltb, or_default, or_else, take, is_some,
}
use s3gator.Base.Outcome.{Outcome, ok, err, record_missing}
use s3gator.Base.Text.{Text}
use s3gator.Jobs.Json.{Json, str, bool, num, seconds, object, optional}
use s3gator.Jobs.Model.{
  queued, completed, failed, canceled, Level, info, warn, error, Job, job_event, job_retry_event,
  Env, State, find_job, update_job, record_metric, create_event, job_event_of, release_job_lock,
}
use s3gator.Jobs.Retry.{compute_backoff_seconds}

-- `startedAt ? now - startedAt : undefined`, in milliseconds; a start is never after now
abbrev duration : ℕ → Option ℕ → Option ℕ
duration now none = none
duration now (some at) = some (now - at)

abbrev seconds_of : Option ℕ → Option Json
seconds_of none = none
seconds_of (some ms) = some (seconds ms)

-- `result: undefined` leaves the column as it is.
unfoldable pub complete_row : ℕ → Option Json → Job → Job
complete_row now result job = record job {
  status = completed;
  completed_at = some now;
  next_retry_at = none;
  last_error = none;
  result = or_else result job.result;
}

unfoldable pub retry_row : ℕ → Text → Job → Job
retry_row next_retry_at message job = record job {
  status = queued;
  completed_at = none;
  lock_key = none;
  locked_at = none;
  next_retry_at = some next_retry_at;
  last_error = some message;
  failure_summary = some message;
}

unfoldable pub fail_row : ℕ → Text → Job → Job
fail_row now message job = record job {
  status = failed;
  completed_at = some now;
  next_retry_at = none;
  last_error = some message;
  failure_summary = some message;
}

unfoldable pub cancel_row : ℕ → Job → Job
cancel_row now job = record job {
  status = canceled;
  completed_at = some now;
  cancel_requested_at = some (or_default job.cancel_requested_at now);
  next_retry_at = none;
}

unfoldable pub should_retry : Job → Bool
should_retry job = job.retryable && ltb job.attempt_count job.max_attempts

abbrev attempts : Job → List (String × Json)
attempts job = ("attemptCount", num job.attempt_count) ∷ ("maxAttempts", num job.max_attempts) ∷ []

-- The options of `markProgress`.
pub record ProgressOptions : Type 0 where
  pub emit_event : Bool
  pub message : Option String
  pub level : Option Level

module _ {L : Type 0} (env : Env L) where
  unfoldable pub mark_progress : String → Json → ProgressOptions → State L → Outcome (State L)
  mark_progress id progress options st = elim (find_job id st.jobs) [
    | none ↦ err record_missing
    | some job ↦
        let st' = record st {
          jobs = update_job id (λ j. record j { progress = some progress }) st.jobs;
        } in
        ok (
          if options.emit_event
          then create_event env job.id job.correlation_id
              (record {
                type = "progress_update";
                level = options.level;
                message = or_default options.message "Job progress updated.";
                metadata = some progress;
                correlation_id = none;
              })
              st'
          else st')
  ]

  unfoldable pub mark_completed : String → Option Json → ℕ → State L → State L
  mark_completed id result now st = elim (find_job id st.jobs) [
    | none ↦ st
    | some existing ↦
        let row = complete_row now result existing in
        let taken = duration now row.started_at in
        release_job_lock env row now (
          job_event_of env row "completed" info "Job completed."
            (object (
              optional "durationSeconds" (seconds_of taken)
              ++ ("hasResult", bool (is_some result)) ∷ attempts row))
            (record_metric (job_event row.type "complete" taken)
              (record st { jobs = update_job id (complete_row now result) st.jobs })))
  ]

  -- The branch of `markFailed` for a job that is tried again.
  schedule_retry : String → Text → ℕ → Job → State L → State L
  schedule_retry id message now existing st =
      let delay_seconds = compute_backoff_seconds env.config existing.type existing.attempt_count in
      let next_retry_at = now + delay_seconds * 1000 in
      release_job_lock env existing now (
        job_event_of env (retry_row next_retry_at message existing) "retry_scheduled" warn
          "Job failed and retry was scheduled."
          (object (
            attempts existing
            ++ ("nextRetryAt", str (env.iso next_retry_at))
              ∷ ("delaySeconds", num delay_seconds)
              ∷ ("error", str message)
              ∷ []))
          (record_metric (job_retry_event existing.type "scheduled")
            (record st { jobs = update_job id (retry_row next_retry_at message) st.jobs })))

  -- The branch of `markFailed` for a job that is not tried again.
  give_up : String → Text → ℕ → Job → State L → State L
  give_up id message now existing st =
      let row = fail_row now message existing in
      let taken = duration now row.started_at in
      let st' = record st { jobs = update_job id (fail_row now message) st.jobs } in
      let counted = record_metric (job_event row.type "fail" taken) st' in
      let explained =
        if row.retryable
        then job_event_of env row "retry_exhausted" error
            "Retry attempts exhausted; job marked failed."
            (object (attempts row ++ ("error", str message) ∷ []))
            (record_metric (job_retry_event row.type "exhausted") counted)
        else job_event_of env row "retry_skipped_non_retryable" warn
            "Retry skipped because job type is non-retryable." (object (attempts row))
            (record_metric (job_retry_event row.type "skipped_non_retryable") counted) in
      release_job_lock env existing now (
        job_event_of env row "failed" error "Job failed."
          (object (
            optional "durationSeconds" (seconds_of taken)
            ++ attempts row
            ++ ("error", str message) ∷ []))
          explained)

  unfoldable pub mark_failed : String → Text → ℕ → State L → State L
  unfolding schedule_retry give_up
  mark_failed id message now st = elim (find_job id st.jobs) [
    | none ↦ st
    | some existing ↦
        let truncated = take 2000 message in
        if should_retry existing
        then schedule_retry id truncated now existing st
        else give_up id truncated now existing st
  ]

  unfoldable pub mark_canceled : String → ℕ → State L → State L
  mark_canceled id now st = elim (find_job id st.jobs) [
    | none ↦ st
    | some existing ↦
        let row = cancel_row now existing in
        let taken = duration now row.started_at in
        release_job_lock env existing now (
          job_event_of env row "canceled" warn
            "Job canceled. In-flight S3 calls may have completed before checkpoint cancellation."
            (object (
              optional "durationSeconds" (seconds_of taken)
              ++ ("bestEffort", bool true) ∷ attempts row))
            (record_metric (job_event row.type "cancel" taken)
              (record st { jobs = update_job id (cancel_row now) st.jobs })))
  ]

  unfoldable pub is_cancel_requested : String → State L → Bool
  is_cancel_requested id st = elim (find_job id st.jobs) [
    | none ↦ false
    | some job ↦ is_some job.cancel_requested_at
  ]
