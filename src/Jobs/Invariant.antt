-- ===== src/Jobs/Invariant.antt =====
-- What holds of every row of the job table between two calls, whatever calls came before, from
-- any workers and requests, in any order.
use s3gator.Base.{
  ℕ, ◌≤◌, ◌<◌, String, true, false, Option, none, some, List, [], ◌∷◌, ◌≡◌, refl, arith, All,
  Bool-cases, Option-cases, inl, inr, is_some,
}
use s3gator.Base.Outcome.{Outcome, ok, err}
use s3gator.Base.Text.{Text}
use s3gator.Auth.{SessionUser}
use s3gator.Jobs.Json.{Json}
use s3gator.Jobs.Model.{
  JobType, JobStatus, queued, running, completed, failed, canceled, Job, Config, Env, State,
  find_job, update_job, job_event_of, job_event_of,
}
use s3gator.Jobs.Retry.{get_retry_policy}
use s3gator.Jobs.Queue.{JobPayload, enqueue, claim_candidate, is_claimable, claim_row}
use s3gator.Jobs.Finish.{
  ProgressOptions, mark_progress, mark_completed, mark_failed, mark_canceled, complete_row,
  retry_row, fail_row, cancel_row, should_retry,
}
use s3gator.Jobs.Access.{AdminScope, JobPublic, request_cancel, cancel_queued_row}
use s3gator.Jobs.Rows.{
  jobs-mark_completed, mark_completed_missing, jobs-mark_canceled, mark_canceled_missing,
  jobs-mark_failed, mark_failed_missing, jobs-mark_progress, request_cancel_lem, failed_row,
  requested_row, jobs-claim_candidate,
}
use s3gator.Jobs.Table.{find_job-id, All-find_job, All-update_job, All-append_one, All-claim_rows}

abbrev FitsStatus : JobStatus → Job → Type 0
FitsStatus queued job =
    (job.lock_key ≡ none)
    × (job.locked_at ≡ none)
    × (job.completed_at ≡ none)
    × (job.attempt_count < job.max_attempts)
FitsStatus running job =
    (is_some job.lock_key ≡ true)
    × (is_some job.locked_at ≡ true)
    × (is_some job.started_at ≡ true)
    × (job.next_retry_at ≡ none)
    × (job.completed_at ≡ none)
    × (1 ≤ job.attempt_count)
FitsStatus completed job =
    (is_some job.completed_at ≡ true) × (job.next_retry_at ≡ none) × (job.last_error ≡ none)
FitsStatus failed job =
    (is_some job.completed_at ≡ true)
    × (job.next_retry_at ≡ none)
    × (is_some job.last_error ≡ true)
    × (should_retry job ≡ false)
FitsStatus canceled job =
    (is_some job.completed_at ≡ true)
    × (job.next_retry_at ≡ none)
    × (is_some job.cancel_requested_at ≡ true)

-- The columns of a row fit its status: a job that waits has no lock and an attempt left, one that
-- runs has a lock and a start, one that has ended has its end and no further try.
abbrev pub IsWellFormed : Job → Type 0
IsWellFormed job = FitsStatus job.status job

-- Every type of job has at least one attempt.
pub record IsValidConfig (config : Config) : Type 0 where
  pub bucket_sync_tries : 1 ≤ config.max_attempts_bucket_sync
  pub upload_cleanup_tries : 1 ≤ config.max_attempts_upload_cleanup
  pub retention_cleanup_tries : 1 ≤ config.max_attempts_retention_cleanup

policy-pos :
    (config : Config) (type : JobType)
    → IsValidConfig config
    → 1 ≤ (get_retry_policy config type).max_attempts
unfolding get_retry_policy
policy-pos config type v = ground arith

claim_row-IsWellFormed :
    (ttl now : ℕ) (token : String) (started : Option ℕ) (job : Job)
    → is_claimable ttl now job ≡ true
    → IsWellFormed job
    → IsWellFormed (claim_row now token started job)
unfolding claim_row is_claimable
claim_row-IsWellFormed ttl now token started job may h = ground arith

complete_row-IsWellFormed :
    (now : ℕ) (result : Option Json) (job : Job) → IsWellFormed (complete_row now result job)
unfolding complete_row
complete_row-IsWellFormed now result job = ground arith

retry_row-IsWellFormed :
    (at : ℕ) (message : Text) (job : Job)
    → should_retry job ≡ true
    → IsWellFormed (retry_row at message job)
unfolding retry_row should_retry
retry_row-IsWellFormed at message job h = ground arith

fail_row-IsWellFormed :
    (now : ℕ) (message : Text) (job : Job)
    → should_retry job ≡ false
    → IsWellFormed (fail_row now message job)
unfolding fail_row should_retry
fail_row-IsWellFormed now message job h = ground arith

cancel_row-IsWellFormed : (now : ℕ) (job : Job) → IsWellFormed (cancel_row now job)
unfolding cancel_row
cancel_row-IsWellFormed now job = ground arith

cancel_queued_row-IsWellFormed : (now : ℕ) (job : Job) → IsWellFormed (cancel_queued_row now job)
unfolding cancel_queued_row
cancel_queued_row-IsWellFormed now job = ground arith

abbrev AllWellFormed : List Job → Type 0
AllWellFormed = All IsWellFormed

module _ {L : Type 0} (env : Env L) where
  enqueue-AllWellFormed :
      (id : String) (context : Option String) (now : ℕ) (type : JobType) (payload : JobPayload)
      (st : State L)
      → IsValidConfig env.config
      → AllWellFormed st.jobs
      → AllWellFormed (enqueue env id context now type payload st).1.jobs
  unfolding enqueue job_event_of
  enqueue-AllWellFormed id context now type payload st v h =
      All-append_one IsWellFormed st.jobs (enqueue env id context now type payload st).0 h
        (refl, refl, refl, policy-pos env.config type v)

  -- A call that updates one row keeps the rows well-formed if the new row is.
  kept_by_update :
      (id : String) (f : Job → Job) (jobs after : List Job) (job : Job)
      → AllWellFormed jobs
      → find_job id jobs ≡ some job
      → after ≡ update_job id f jobs
      → IsWellFormed (f job)
      → AllWellFormed after
  kept_by_update id f jobs after job h found same fits =
      rw same (All-update_job IsWellFormed id f jobs job h found fits)

  failed_row-IsWellFormed :
      (message : Text) (now : ℕ) (job : Job) → IsWellFormed (failed_row env message now job job)
  failed_row-IsWellFormed message now job = elim (Bool-cases (should_retry job)) [
    | inl again ↦ rw again (retry_row-IsWellFormed _ _ job again)
    | inr over ↦ rw over (fail_row-IsWellFormed now _ job over)
  ]

  requested_row-IsWellFormed :
      (now : ℕ) (job : Job) → IsWellFormed job → IsWellFormed (requested_row now job job)
  unfolding cancel_queued_row should_retry
  requested_row-IsWellFormed now job h = ground arith

  progress_row-IsWellFormed :
      (progress : Json) (job : Job)
      → IsWellFormed job
      → IsWellFormed (record job { progress = some progress })
  unfolding should_retry
  progress_row-IsWellFormed progress job h = ground arith

  mark_completed-AllWellFormed :
      (id : String) (result : Option Json) (now : ℕ) (st : State L)
      → AllWellFormed st.jobs
      → AllWellFormed (mark_completed env id result now st).jobs
  mark_completed-AllWellFormed id result now st h = elim (Option-cases (find_job id st.jobs)) [
    | inl e ↦ rw (mark_completed_missing env id result now st e) h
    | inr (job, e) ↦
        kept_by_update id _ st.jobs _ job h e (jobs-mark_completed env id result now st job e)
          (complete_row-IsWellFormed now result job)
  ]

  mark_canceled-AllWellFormed :
      (id : String) (now : ℕ) (st : State L)
      → AllWellFormed st.jobs
      → AllWellFormed (mark_canceled env id now st).jobs
  mark_canceled-AllWellFormed id now st h = elim (Option-cases (find_job id st.jobs)) [
    | inl e ↦ rw (mark_canceled_missing env id now st e) h
    | inr (job, e) ↦
        kept_by_update id _ st.jobs _ job h e (jobs-mark_canceled env id now st job e)
          (cancel_row-IsWellFormed now job)
  ]

  mark_failed-AllWellFormed :
      (id : String) (message : Text) (now : ℕ) (st : State L)
      → AllWellFormed st.jobs
      → AllWellFormed (mark_failed env id message now st).jobs
  mark_failed-AllWellFormed id message now st h = elim (Option-cases (find_job id st.jobs)) [
    | inl e ↦ rw (mark_failed_missing env id message now st e) h
    | inr (job, e) ↦
        kept_by_update id _ st.jobs _ job h e (jobs-mark_failed env id message now st job e)
          (failed_row-IsWellFormed message now job)
  ]

  mark_progress-AllWellFormed :
      (id : String) (progress : Json) (options : ProgressOptions) (st st' : State L)
      → AllWellFormed st.jobs
      → mark_progress env id progress options st ≡ ok st'
      → AllWellFormed st'.jobs
  mark_progress-AllWellFormed id progress options st st' h e =
      let (job, found, same) = jobs-mark_progress env id progress options st st' e in
      kept_by_update id _ st.jobs _ job h found same
        (progress_row-IsWellFormed progress job (All-find_job IsWellFormed id st.jobs job h found))

  request_cancel-AllWellFormed :
      (scopes : List AdminScope) (actor : SessionUser) (id : String) (now : ℕ) (st : State L)
      (p : JobPublic) (st' : State L)
      → AllWellFormed st.jobs
      → request_cancel env scopes actor id now st ≡ ok (p, st')
      → AllWellFormed st'.jobs
  request_cancel-AllWellFormed scopes actor id now st p st' h e =
      let (job, found, _, _, same) = request_cancel_lem env scopes actor id now st p st' e in
      kept_by_update job.id _ st.jobs _ job h (rw (find_job-id id st.jobs job found) found) same
        (requested_row-IsWellFormed now job (All-find_job IsWellFormed id st.jobs job h found))

  claim_candidate-AllWellFormed :
      (worker token : String) (ttl now : ℕ) (candidate : Job) (st : State L)
      → AllWellFormed st.jobs
      → AllWellFormed (claim_candidate env worker token ttl now candidate st).1.jobs
  claim_candidate-AllWellFormed worker token ttl now candidate st h = rw jobs-claim_candidate (
      ground (
        arith,
        h,
        All-claim_rows IsWellFormed ttl now token candidate st.jobs
            (claim_row-IsWellFormed ttl now token candidate.started_at) h,
      ))

-- A call that a request or a worker makes of the service. A claim is cut where other calls may
-- come in: `claims` is the update of any candidate that was read, however long ago.
pub data Call : Type 0 where
  enqueues : String → Option String → JobType → JobPayload → Call
  claims : String → String → ℕ → Job → Call
  progresses : String → Json → ProgressOptions → Call
  completes : String → Option Json → Call
  fails : String → Text → Call
  cancels : String → Call
  requests_cancel : List AdminScope → SessionUser → String → Call

module _ {L : Type 0} where
  abbrev after_progress : State L → Outcome (State L) → State L
  after_progress st (ok st') = st'
  after_progress st (err e) = st

  abbrev after_request : State L → Outcome (JobPublic × State L) → State L
  after_request st (ok (_, st')) = st'
  after_request st (err e) = st

  unfoldable pub step : Env L → State L → ℕ × Call → State L
  step env st (now, enqueues id context type payload) =
      (enqueue env id context now type payload st).1
  step env st (now, claims worker token ttl candidate) =
      (claim_candidate env worker token ttl now candidate st).1
  step env st (now, progresses id progress options) =
      after_progress st (mark_progress env id progress options st)
  step env st (now, completes id result) = mark_completed env id result now st
  step env st (now, fails id message) = mark_failed env id message now st
  step env st (now, cancels id) = mark_canceled env id now st
  step env st (now, requests_cancel scopes actor id) =
      after_request st (request_cancel env scopes actor id now st)

  pub run : Env L → State L → List (ℕ × Call) → State L
  run env st [] = st
  run env st (c ∷ cs) = run env (step env st c) cs

  step-AllWellFormed :
      (env : Env L) (st : State L) (c : ℕ × Call)
      → IsValidConfig env.config
      → AllWellFormed st.jobs
      → AllWellFormed (step env st c).jobs
  unfolding step
  step-AllWellFormed env st (now, enqueues id context type payload) v h =
      enqueue-AllWellFormed env id context now type payload st v h
  step-AllWellFormed env st (now, claims worker token ttl candidate) v h =
      claim_candidate-AllWellFormed env worker token ttl now candidate st h
  step-AllWellFormed env st (now, progresses id progress options) v h =
      of_progress (mark_progress env id progress options st) refl
    where
      of_progress :
          (o : Outcome (State L))
          → mark_progress env id progress options st ≡ o
          → AllWellFormed (after_progress st o).jobs
      of_progress (ok st') e = mark_progress-AllWellFormed env id progress options st st' h e
      of_progress (err x) e = h
  step-AllWellFormed env st (now, completes id result) v h =
      mark_completed-AllWellFormed env id result now st h
  step-AllWellFormed env st (now, fails id message) v h =
      mark_failed-AllWellFormed env id message now st h
  step-AllWellFormed env st (now, cancels id) v h = mark_canceled-AllWellFormed env id now st h
  step-AllWellFormed env st (now, requests_cancel scopes actor id) v h =
      of_request (request_cancel env scopes actor id now st) refl
    where
      of_request :
          (o : Outcome (JobPublic × State L))
          → request_cancel env scopes actor id now st ≡ o
          → AllWellFormed (after_request st o).jobs
      of_request (ok (p, st')) e = request_cancel-AllWellFormed env scopes actor id now st p st' h e
      of_request (err x) e = h

  -- With settings that allow every type of job one attempt, and from a table of well-formed rows,
  -- such as an empty one: after any calls, at any times, every row is well-formed. A waiting job
  -- has no lock, no end and an attempt left; a running one has a lock, the time of it, a start and
  -- no end; a completed one has an end and no error; a failed one has an end and an error and may
  -- not be tried again; a canceled one has an end and the time of the request; and only a
  -- waiting job has a time for its next try.
  pub run-AllWellFormed :
      (env : Env L) (st : State L) (cs : List (ℕ × Call))
      → IsValidConfig env.config
      → All IsWellFormed st.jobs
      → All IsWellFormed (run env st cs).jobs
  unfolding run
  run-AllWellFormed env st [] v h = h
  run-AllWellFormed env st (c ∷ cs) v h =
      run-AllWellFormed env (step env st c) cs v (step-AllWellFormed env st c v h)
