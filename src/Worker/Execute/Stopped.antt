-- ===== src/Worker/Execute/Stopped.antt =====
-- A job whose cancellation was requested before its run.
use s3gator.Base.{
  ℕ, suc, String, true, Option, none, some, if◌then◌else◌, str_eq, or_default, ◌≡◌, refl, ◌∙◌, ap,
  Option-cases, inl, inr,
}
use s3gator.Base.Text.{Text}
use s3gator.Jobs.Model.{
  canceled, JobEventInput, Job, Env, State, find_job, record_event, create_event,
}
use s3gator.Jobs.Finish.{mark_canceled, cancel_row, is_cancel_requested}
use s3gator.Jobs.Table.{find_job-update_job}
use s3gator.Jobs.Rows.{jobs-mark_canceled}
use s3gator.Worker.Model.{World, Tools, cancel_seen, now}
use s3gator.Worker.Execute.{execute}

-- The row, canceled at a time.
abbrev pub canceled_at : ℕ → Job → Job
canceled_at now row = record row {
  status = canceled;
  completed_at = some now;
  next_retry_at = none;
}

module _ {L : Type 0} (env : Env L) where
  jobs-record_event :
      (id : String) (input : JobEventInput) (st : State L)
      → (record_event env id input st).jobs ≡ st.jobs
  unfolding record_event create_event
  jobs-record_event id input st = elim (Option-cases (find_job id st.jobs)) [
    | inl h ↦ rw (record_event, h) refl
    | inr (job, h) ↦ rw (record_event, h) refl
  ]

  find_job-mark_canceled :
      (id other : String) (now asked : ℕ) (st : State L) (row : Job)
      → find_job id st.jobs ≡ some row
      → row.cancel_requested_at ≡ some asked
      → find_job other (mark_canceled env id now st).jobs
        ≡ (if str_eq id other then some (canceled_at now row) else find_job other st.jobs)
  unfolding cancel_row
  find_job-mark_canceled id other now asked st row found since =
      ap (find_job other) (jobs-mark_canceled env id now st row found)
      ∙ find_job-update_job id other (cancel_row now) st.jobs row found (λ j. refl)
      ∙ ap
          (λ (at : Option ℕ).
            if str_eq id other
            then some (record (canceled_at now row) { cancel_requested_at = at })
            else find_job other st.jobs)
          (kept row.cancel_requested_at since)
    where
      kept : (o : Option ℕ) → o ≡ some asked → some (or_default o now) ≡ o
      kept none e = absurd (cc e)
      kept (some t) e = refl

  requested_lem :
      (id : String) (asked : ℕ) (st : State L) (row : Job)
      → find_job id st.jobs ≡ some row
      → row.cancel_requested_at ≡ some asked
      → is_cancel_requested env id st ≡ true
  unfolding is_cancel_requested
  requested_lem id asked st row found since = rw (is_cancel_requested, found, since) refl

module _ {L S : Type 0} (tools : Tools L S) (fresh : String → String) where
  -- A job that stands in the table with a time at which its cancellation was requested, when its
  -- run begins, ends canceled: its row says so, with the time of the run as the time of its end
  -- and without a time for a retry, and is otherwise as it was. The run changes no other job, and
  -- nothing in the object store, the buckets, the uploads or the audit log.
  pub execute-Requested :
      (job row : Job) (correlation_id : Text) (asked : ℕ) (w : World L S)
      → find_job job.id (tools.others w.checkpoints w.jobs).jobs ≡ some row
      → row.cancel_requested_at ≡ some asked
      → ((id : String)
          → find_job id (execute tools fresh job correlation_id w).0.jobs.jobs ≡ (
              if str_eq job.id id
              then some (canceled_at (tools.clock (suc w.checkpoints)) row)
              else find_job id (tools.others w.checkpoints w.jobs).jobs))
        × ((execute tools fresh job correlation_id w).0.store ≡ w.store)
        × ((execute tools fresh job correlation_id w).0.buckets ≡ w.buckets)
        × ((execute tools fresh job correlation_id w).0.uploads ≡ w.uploads)
        × ((execute tools fresh job correlation_id w).0.audits ≡ w.audits)
  unfolding execute cancel_seen
  execute-Requested job row correlation_id asked w found since =
      rw (execute, cancel_seen, requested)
        (
          (λ id.
              find_job-mark_canceled tools.env job.id id (tools.clock (suc w.checkpoints)) asked _
                row (ap (find_job job.id) (same _) ∙ found) since
              ∙ ap
                  (λ jobs.
                    if str_eq job.id id
                    then some (canceled_at (tools.clock (suc w.checkpoints)) row)
                    else find_job id jobs)
                  (same _)),
          refl,
          refl,
          refl,
          refl,
        )
    where
      requested : is_cancel_requested tools.env job.id (tools.others w.checkpoints w.jobs) ≡ true
      requested =
          requested_lem tools.env job.id asked (tools.others w.checkpoints w.jobs) row found since

      same :
          (input : JobEventInput)
          → (record_event tools.env job.id input (tools.others w.checkpoints w.jobs)).jobs
            ≡ (tools.others w.checkpoints w.jobs).jobs
      same input = jobs-record_event tools.env job.id input (tools.others w.checkpoints w.jobs)
