-- ===== src/Jobs/Rows.antt =====
-- What each call does to the job table.
use s3gator.Base.{
  ℕ, ◌+◌, ◌*◌, String, Bool, true, Option, none, some, List, ◌≡◌, refl, ◌∙◌, arith, if◌then◌else◌,
  Bool-cases, Option-cases, inl, inr, take, ◌==◌,
}
use s3gator.Base.Outcome.{Outcome, ok, bind-ok}
use s3gator.Base.Text.{Text}
use s3gator.Auth.{SessionUser}
use s3gator.Jobs.Json.{Json}
use s3gator.Jobs.Model.{
  Job, Env, State, find_job, update_job, record_metric, create_event, job_event_of,
}
use s3gator.Jobs.Queue.{record_claim, claim_candidate, claim_rows, is_running}
use s3gator.Jobs.Retry.{compute_backoff_seconds}
use s3gator.Jobs.Finish.{
  ProgressOptions, mark_progress, mark_completed, mark_failed, mark_canceled, complete_row,
  retry_row, fail_row, cancel_row, should_retry,
}
use s3gator.Jobs.Access.{
  AdminScope, JobPublic, can_view, visible_job, request_cancel, apply_cancel, cancel_queued,
  note_cancel, cancel_queued_row, is_queued, to_public,
}
use s3gator.Jobs.Access.Visible.{visible_job-ok}
use s3gator.Jobs.Table.{jobs-release_job_lock}

-- The row that a failed run leaves.
abbrev pub failed_row : {L : Type 0} → Env L → Text → ℕ → Job → Job → Job
failed_row env message now existing =
    if should_retry existing
    then retry_row
        (now + compute_backoff_seconds env.config existing.type existing.attempt_count * 1000)
        (take 2000 message)
    else fail_row now (take 2000 message)

-- The row that a request to cancel leaves.
abbrev pub requested_row : ℕ → Job → Job → Job
requested_row now item = if is_queued item.status then cancel_queued_row now else λ j. record j {
  cancel_requested_at = some now;
}

module _ {L : Type 0} (env : Env L) where
  pub mark_completed_missing :
      (id : String) (result : Option Json) (now : ℕ) (st : State L)
      → find_job id st.jobs ≡ none
      → mark_completed env id result now st ≡ st
  unfolding mark_completed
  mark_completed_missing id result now st e = rw (e, mark_completed)

  pub jobs-mark_completed :
      (id : String) (result : Option Json) (now : ℕ) (st : State L) (job : Job)
      → find_job id st.jobs ≡ some job
      → (mark_completed env id result now st).jobs ≡ update_job id (complete_row now result) st.jobs
  unfolding mark_completed job_event_of record_metric
  jobs-mark_completed id result now st job e =
      rw (e, mark_completed) (jobs-release_job_lock env (complete_row now result job) now _)

  pub mark_canceled_missing :
      (id : String) (now : ℕ) (st : State L)
      → find_job id st.jobs ≡ none
      → mark_canceled env id now st ≡ st
  unfolding mark_canceled
  mark_canceled_missing id now st e = rw (e, mark_canceled)

  pub jobs-mark_canceled :
      (id : String) (now : ℕ) (st : State L) (job : Job)
      → find_job id st.jobs ≡ some job
      → (mark_canceled env id now st).jobs ≡ update_job id (cancel_row now) st.jobs
  unfolding mark_canceled job_event_of record_metric
  jobs-mark_canceled id now st job e = rw (e, mark_canceled) (jobs-release_job_lock env job now _)

  pub mark_failed_missing :
      (id : String) (message : Text) (now : ℕ) (st : State L)
      → find_job id st.jobs ≡ none
      → mark_failed env id message now st ≡ st
  unfolding mark_failed
  mark_failed_missing id message now st e = rw (e, mark_failed)

  pub jobs-mark_failed :
      (id : String) (message : Text) (now : ℕ) (st : State L) (job : Job)
      → find_job id st.jobs ≡ some job
      → (mark_failed env id message now st).jobs
        ≡ update_job id (failed_row env message now job) st.jobs
  unfolding mark_failed job_event_of record_metric fail_row
  jobs-mark_failed id message now st job e = elim (Bool-cases (should_retry job)) [
    | inl again ↦ rw (e, mark_failed, again) (jobs-release_job_lock env job now _)
    | inr over ↦ rw (e, mark_failed, over) (jobs-release_job_lock env job now _ ∙ ground arith)
  ]

  pub jobs-mark_progress :
      (id : String) (progress : Json) (options : ProgressOptions) (st st' : State L)
      → mark_progress env id progress options st ≡ ok st'
      → (job : Job) × (find_job id st.jobs ≡ some job)
        × (st'.jobs ≡ update_job id (λ j. record j { progress = some progress }) st.jobs)
  unfolding mark_progress create_event
  jobs-mark_progress id progress options st st' e = elim (Option-cases (find_job id st.jobs)) [
    | inl missing ↦ absurd (cc (rw (missing, mark_progress) at e))
    | inr (job, found) ↦ (job, found, ground arith)
  ]

  jobs-cancel_queued :
      (now : ℕ) (job : Job) (st : State L)
      → (cancel_queued env now job st).1.jobs ≡ update_job job.id (cancel_queued_row now) st.jobs
  unfolding cancel_queued job_event_of record_metric
  jobs-cancel_queued now job st = jobs-release_job_lock env (cancel_queued_row now job) now _

  jobs-note_cancel :
      (now : ℕ) (job : Job) (st : State L)
      → (note_cancel env now job st).1.jobs
        ≡ update_job job.id (λ j. record j { cancel_requested_at = some now }) st.jobs
  unfolding note_cancel job_event_of
  jobs-note_cancel now job st = refl

  apply_cancel-row :
      (now : ℕ) (job : Job) (st : State L)
      → (apply_cancel env now job st).0 ≡ requested_row now job job
  unfolding apply_cancel cancel_queued note_cancel
  apply_cancel-row now job st = elim (Bool-cases (is_queued job.status)) [
    | inl q ↦ rw (q, apply_cancel)
    | inr q ↦ rw (q, apply_cancel)
  ]

  jobs-apply_cancel :
      (now : ℕ) (job : Job) (st : State L)
      → (apply_cancel env now job st).1.jobs ≡ update_job job.id (requested_row now job) st.jobs
  unfolding apply_cancel
  jobs-apply_cancel now job st = elim (Bool-cases (is_queued job.status)) [
    | inl q ↦ rw (q, apply_cancel) (jobs-cancel_queued now job st)
    | inr q ↦ rw (q, apply_cancel) (jobs-note_cancel now job st)
  ]

  pub request_cancel_lem :
      (scopes : List AdminScope) (actor : SessionUser) (id : String) (now : ℕ) (st : State L)
      (p : JobPublic) (st' : State L)
      → request_cancel env scopes actor id now st ≡ ok (p, st')
      → (job : Job) × (find_job id st.jobs ≡ some job)
        × (can_view scopes actor job ≡ true)
        × (p ≡ to_public env.iso (requested_row now job job))
        × (st'.jobs ≡ update_job job.id (requested_row now job) st.jobs)
  unfolding request_cancel
  request_cancel_lem scopes actor id now st p st' e =
      let (job, seen, rest) =
        bind-ok (visible_job scopes actor id "Not allowed to cancel this job" st.jobs) _ e in
      let (found, allowed) = visible_job-ok scopes actor id _ st.jobs job seen in
      (job, found, allowed, row_of job rest, jobs_of job rest)
    where
      row_of :
          (job : Job)
          → ◌≡◌ {A = Outcome (JobPublic × State L)}
              (ok (
                to_public env.iso (apply_cancel env now job st).0,
                (apply_cancel env now job st).1,
              ))
              (ok (p, st'))
          → p ≡ to_public env.iso (requested_row now job job)
      row_of job h = cc (apply_cancel-row now job st)

      jobs_of :
          (job : Job)
          → ◌≡◌ {A = Outcome (JobPublic × State L)}
              (ok (
                to_public env.iso (apply_cancel env now job st).0,
                (apply_cancel env now job st).1,
              ))
              (ok (p, st'))
          → st'.jobs ≡ update_job job.id (requested_row now job) st.jobs
      jobs_of job h = cc (jobs-apply_cancel now job st)

  jobs-record_claim :
      (worker : String) (reclaimed : Bool) (ttl now : ℕ) (job : Job) (st : State L)
      → (record_claim env worker reclaimed ttl now job st).jobs ≡ st.jobs
  unfolding record_claim job_event_of record_metric
  jobs-record_claim worker reclaimed ttl now job st = ground arith

  -- The rows after the update, which are those before it if it finds no row to claim.
  pub jobs-claim_candidate :
      (worker token : String) (ttl now : ℕ) (candidate : Job) (st : State L)
      → (claim_candidate env worker token ttl now candidate st).1.jobs ≡ (
          if (claim_rows ttl now token candidate st.jobs).1 == 0
          then st.jobs
          else (claim_rows ttl now token candidate st.jobs).0)
  unfolding claim_candidate
  jobs-claim_candidate worker token ttl now candidate st =
      elim (Option-cases (find_job candidate.id (claim_rows ttl now token candidate st.jobs).0)) [
        | inl e ↦ rw (e, claim_candidate) (ground arith)
        | inr (job, e) ↦
            rw (e, claim_candidate)
              (ground (
                arith,
                jobs-record_claim worker (is_running candidate.status) ttl now job
                    (record st { jobs = (claim_rows ttl now token candidate st.jobs).0 }),
              ))
      ]
