-- ===== src/Jobs/Exclusive.antt =====
-- One worker at a time runs a job, and a job that has ended is not run again.
use Prim.Native.String
use s3gator.Base.{
  ℕ, ◌+◌, ◌-◌, ◌*◌, ◌≤◌, String, true, false, Option, none, some, List, [], ◌∷◌, ◌≡◌, ◌≢◌, str_eq,
  refl, ap, ◌∙◌, arith, All, Bool-cases, inl, inr, ltb, leb, ◌&&◌, ◌<◌, or_default, or_else, lt→ltb,
}
use s3gator.Base.Outcome.{ok}
use s3gator.Base.Text.{Text}
use s3gator.Auth.{SessionUser}
use s3gator.Jobs.Model.{
  queued, running, completed, Job, Env, State, find_job, update_job, release_job_lock,
  release_token, job_event_of, record_metric,
}
use s3gator.Jobs.Json.{Json}
use s3gator.Jobs.Retry.{compute_backoff_seconds}
use s3gator.Jobs.Queue.{is_claimable, claim_row, claim_candidate}
use s3gator.Jobs.Finish.{
  mark_completed, mark_failed, complete_row, retry_row, fail_row, should_retry,
}
use s3gator.Jobs.Access.{AdminScope, JobPublic, request_cancel, cancel_queued_row}
use s3gator.Jobs.Rows.{
  jobs-mark_failed, jobs-mark_completed, request_cancel_lem, failed_row, requested_row,
}
use s3gator.Jobs.Table.{KeepsId, find_job-id}
use s3gator.Jobs.Claims.{
  UniqueIds, claim_row-claimable, claim_row-id, find_job_updated, claim_candidate_granted,
  claim_candidate_refused,
}

failed_row-id :
    {L : Type 0} (env : Env L) (message : Text) (now : ℕ) (job : Job)
    → KeepsId (failed_row env message now job)
unfolding retry_row fail_row
failed_row-id env message now job j = ground arith

failed_row-claimable :
    {L : Type 0} (env : Env L) (message : Text) (now : ℕ) (job : Job) (ttl later : ℕ)
    → is_claimable ttl later (failed_row env message now job job) ≡ (
        should_retry job
        && leb (now + compute_backoff_seconds env.config job.type job.attempt_count * 1000) later)
unfolding retry_row fail_row is_claimable
failed_row-claimable env message now job ttl later = ground arith

requested_row-id : (now : ℕ) (job : Job) → KeepsId (requested_row now job)
unfolding cancel_queued_row
requested_row-id now job j = ground arith

requested_row_unclaimable :
    (now ttl later : ℕ) (job : Job)
    → job.status ≡ queued
    → is_claimable ttl later (requested_row now job job) ≡ false
unfolding cancel_queued_row is_claimable
requested_row_unclaimable now ttl later job h = ground arith

absent_update :
    (id other : String) (f : Job → Job) (jobs : List Job)
    → KeepsId f
    → All (λ k. k.id ≢ other) jobs
    → All (λ k. k.id ≢ other) (update_job id f jobs)
unfolding update_job
absent_update id other f [] keeps h = tt
absent_update id other f (j ∷ jobs) keeps h = elim (Bool-cases (str_eq j.id id)) [
  | inl hit ↦ rw hit (rw (keeps j) h.0, h.1)
  | inr miss ↦ rw miss (h.0, absent_update id other f jobs keeps h.1)
]

unique_update :
    (id : String) (f : Job → Job) (jobs : List Job)
    → KeepsId f
    → UniqueIds jobs
    → UniqueIds (update_job id f jobs)
unfolding update_job
unique_update id f [] keeps u = tt
unique_update id f (j ∷ jobs) keeps u = elim (Bool-cases (str_eq j.id id)) [
  | inl hit ↦ rw hit (rw (keeps j) u.0, u.1)
  | inr miss ↦ rw miss (absent_update id j.id f jobs keeps u.0, unique_update id f jobs keeps u.1)
]

not_stale : (now now' ttl : ℕ) → now' ≤ now + ttl * 1000 → ltb now (now' - ttl * 1000) ≡ false
not_stale now now' ttl h = ground arith

module _ {L : Type 0} (env : Env L) where
  -- Where ids are unique: a worker whose update finds the job's row claimable gets the job. In the
  -- table after that claim, and until another worker would take the lock for stale, the other's
  -- update of any candidate with that id, read at any time before, gets nothing and changes no
  -- row, whatever the lock service granted it.
  pub claim_exclusive :
      (worker worker' token token' : String) (ttl ttl' now now' : ℕ) (candidate other job : Job)
      (st : State L)
      → UniqueIds st.jobs
      → find_job candidate.id st.jobs ≡ some job
      → is_claimable ttl now job ≡ true
      → other.id ≡ candidate.id
      → now' ≤ now + ttl' * 1000
      → let (result, st') = claim_candidate env worker token ttl now candidate st in
        (result ≡ some (claim_row now token candidate.started_at job))
        × ((claim_candidate env worker' token' ttl' now' other st').0 ≡ none)
        × ((claim_candidate env worker' token' ttl' now' other st').1.jobs ≡ st'.jobs)
  claim_exclusive worker worker' token token' ttl ttl' now now' candidate other job st u e may same
        h =
      let change = claim_row now token candidate.started_at in
      let keeps = claim_row-id now token candidate.started_at in
      let (got, rows) = claim_candidate_granted env worker token ttl now candidate job st u e may in
      let refused =
        claim_candidate_refused env worker' token' ttl' now' other (change job)
          (claim_candidate env worker token ttl now candidate st).1
          (rw rows (unique_update candidate.id change st.jobs keeps u))
          (rw (rows, same) (find_job_updated candidate.id change st.jobs job e keeps))
          (rw claim_row-claimable (not_stale now now' ttl' h)) in
      (got, refused.0, refused.1)

  -- What a failed run leaves of a job: it may be claimed again exactly if the job is retried and
  -- the delay has passed, whatever the worker that asks.
  pub mark_failed-claimable :
      (id : String) (message : Text) (now ttl later : ℕ) (st : State L) (job : Job)
      → find_job id st.jobs ≡ some job
      → (row : Job) × (find_job id (mark_failed env id message now st).jobs ≡ some row)
        × (is_claimable ttl later row ≡ (
            should_retry job
            && leb
                (now + compute_backoff_seconds env.config job.type job.attempt_count * 1000)
                later))
        × (row.attempt_count ≡ job.attempt_count)
  unfolding retry_row fail_row
  mark_failed-claimable id message now ttl later st job e = (
    failed_row env message now job job,
    rw (jobs-mark_failed env id message now st job e)
        (find_job_updated id _ st.jobs job e (failed_row-id env message now job)),
    failed_row-claimable env message now job ttl later,
    ground arith,
  )

  -- Where ids are unique: in the table after a request canceled a job that waited, an update of a
  -- candidate with its id, by any worker, for any time, and also of one that was read before the
  -- request, gets nothing and changes no row.
  pub request_cancel-claim_candidate :
      (scopes : List AdminScope) (actor : SessionUser) (now ttl later : ℕ) (st st' : State L)
      (p : JobPublic) (job candidate : Job) (worker token : String)
      → UniqueIds st.jobs
      → find_job candidate.id st.jobs ≡ some job
      → job.status ≡ queued
      → request_cancel env scopes actor candidate.id now st ≡ ok (p, st')
      → ((claim_candidate env worker token ttl later candidate st').0 ≡ none)
        × ((claim_candidate env worker token ttl later candidate st').1.jobs ≡ st'.jobs)
  request_cancel-claim_candidate scopes actor now ttl later st st' p job candidate worker token u e
        waits done =
      let (item, found, _, _, rows) =
        request_cancel_lem env scopes actor candidate.id now st p st' done in
      refuse item found rows
    where
      refuse :
          (item : Job)
          → find_job candidate.id st.jobs ≡ some item
          → st'.jobs ≡ update_job item.id (requested_row now item) st.jobs
          → ((claim_candidate env worker token ttl later candidate st').0 ≡ none)
            × ((claim_candidate env worker token ttl later candidate st').1.jobs ≡ st'.jobs)
      refuse item found rows =
          let change = requested_row now item in
          let keeps = requested_row-id now item in
          let key = find_job-id candidate.id st.jobs item found in
          claim_candidate_refused env worker token ttl later candidate (change item) st'
            (rw rows (unique_update item.id change st.jobs keeps u))
            (rw (rows ∙ ap (λ (k : String). update_job k change st.jobs) key)
              (find_job_updated candidate.id change st.jobs item found keeps))
            (requested_row_unclaimable now ttl later item (ground arith))

  stale-is_claimable :
      (ttl now at : ℕ) (job : Job)
      → job.status ≡ running
      → job.locked_at ≡ some at
      → at < now - ttl * 1000
      → is_claimable ttl now job ≡ true
  unfolding is_claimable
  stale-is_claimable ttl now at job runs locked old = rw runs (rw locked (lt→ltb at _ old))

  freed :
      (token : String) (now : ℕ) (row : Job) (st : State L)
      → row.lock_key ≡ some token
      → str_eq token "" ≡ false
      → (release_job_lock env row now st).lock_state
        ≡ (env.locks.release
            (env.locks.key st.lock_state (String.◌++◌ "job:lock:" row.id))
            token
            now
            st.lock_state).1
  unfolding release_job_lock release_token
  freed token now row st held filled = ground arith

  completed_lem :
      (id token : String) (result : Option Json) (now : ℕ) (st : State L) (job : Job)
      → find_job id st.jobs ≡ some job
      → job.lock_key ≡ some token
      → str_eq token "" ≡ false
      → let st' = mark_completed env id result now st in
        (find_job id st'.jobs ≡ some (complete_row now result job))
        × (st'.lock_state
            ≡ (env.locks.release
                (env.locks.key st.lock_state (String.◌++◌ "job:lock:" job.id))
                token
                now
                st.lock_state).1)
  unfolding mark_completed job_event_of record_metric complete_row
  completed_lem id token result now st job e held filled = (
    rw (jobs-mark_completed env id result now st job e)
        (find_job_updated id (complete_row now result) st.jobs job e (λ j. refl)),
    rw (e, mark_completed) (freed token now (complete_row now result job) _ held filled),
  )

  -- The end of a run is not tied to the worker that claimed it. Where ids are unique, a worker
  -- claims a job under a token after the run of another went stale, in a table whose row for it is
  -- locked longer ago than a lock lives. A report that the job is done, which names no worker and
  -- so may be the other's, then completes it: the row is that of the new claim with the status,
  -- the time of the end and the result of the report, without an error. The lock that is given
  -- back is the new claim's.
  pub mark_completed_by_anyone :
      (worker token : String) (result : Option Json) (ttl now later at : ℕ) (st : State L)
      (candidate job : Job)
      → UniqueIds st.jobs
      → find_job candidate.id st.jobs ≡ some job
      → job.status ≡ running
      → job.locked_at ≡ some at
      → at < now - ttl * 1000
      → str_eq token "" ≡ false
      → let claimed = claim_candidate env worker token ttl now candidate st in
        let st' = mark_completed env candidate.id result later claimed.1 in
        (find_job candidate.id st'.jobs
          ≡ some (record job {
            status = completed;
            attempt_count = job.attempt_count + 1;
            started_at = some (or_default candidate.started_at now);
            locked_at = some now;
            lock_key = some token;
            next_retry_at = none;
            last_error = none;
            result = or_else result job.result;
            completed_at = some later;
          }))
        × (st'.lock_state
            ≡ (env.locks.release
                (env.locks.key claimed.1.lock_state (String.◌++◌ "job:lock:" job.id))
                token
                later
                claimed.1.lock_state).1)
  unfolding complete_row claim_row
  mark_completed_by_anyone worker token result ttl now later at st candidate job u e runs locked old
        filled =
      let change = claim_row now token candidate.started_at in
      let (got, rows) =
        claim_candidate_granted env worker token ttl now candidate job st u e
          (stale-is_claimable ttl now at job runs locked old) in
      let claimed = claim_candidate env worker token ttl now candidate st in
      let found =
        ap (find_job candidate.id) rows
        ∙ find_job_updated candidate.id change st.jobs job e
            (claim_row-id now token candidate.started_at) in
      completed_lem candidate.id token result later claimed.1 (change job) found refl filled
