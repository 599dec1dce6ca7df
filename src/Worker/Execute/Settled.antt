-- ===== src/Worker/Execute/Settled.antt =====
-- No run of a job that comes to its end leaves the job running.
use s3gator.Base.{
  ℕ, String, Bool, true, false, Option, none, some, List, ◌≡◌, ◌≢◌, refl, sym, ◌∙◌, subst, inl, inr,
  Option-cases, Bool-cases,
}
use s3gator.Base.Text.{Text}
use s3gator.Jobs.Json.{Json}
use s3gator.Jobs.Model.{running, Job, Env, State, find_job, update_job}
use s3gator.Jobs.Finish.{
  mark_completed, mark_canceled, mark_failed, complete_row, cancel_row, retry_row, fail_row,
  should_retry,
}
use s3gator.Jobs.Table.{KeepsId}
use s3gator.Jobs.Claims.{find_job_updated}
use s3gator.Jobs.Rows.{
  mark_completed_missing, jobs-mark_completed, mark_canceled_missing, jobs-mark_canceled,
  mark_failed_missing, jobs-mark_failed,
}
use s3gator.Worker.Model.{World, Tools, Result, done, stopped, threw, unfinished}
use s3gator.Worker.Execute.{ended, dispatch, settle, start_or_cancel, execute}

-- The row of the job, if there is one, is not running.
abbrev pub IsSettled : String → List Job → Type 0
IsSettled id jobs = (row : Job) → find_job id jobs ≡ some row → row.status ≢ running

missing-IsSettled : (id : String) (jobs : List Job) → find_job id jobs ≡ none → IsSettled id jobs
missing-IsSettled id jobs h row e = absurd (cc (sym h ∙ e))

-- An update of the row to another status settles it.
updated-IsSettled :
    (id : String) (f : Job → Job) (jobs : List Job) (job : Job)
    → find_job id jobs ≡ some job
    → KeepsId f
    → (f job).status ≢ running
    → IsSettled id (update_job id f jobs)
updated-IsSettled id f jobs job found keeps other row e =
    subst (λ r. r.status ≢ running)
      (some_inj (sym (find_job_updated id f jobs job found keeps) ∙ e)) other
  where
    some_inj : {a b : Job} → some a ≡ some b → a ≡ b
    some_inj p = cc

module _ {L : Type 0} (env : Env L) where
  mark_completed-IsSettled :
      (id : String) (result : Option Json) (now : ℕ) (st : State L)
      → IsSettled id (mark_completed env id result now st).jobs
  unfolding complete_row
  mark_completed-IsSettled id result now st = elim (Option-cases (find_job id st.jobs)) [
    | inl h ↦ rw (mark_completed_missing env id result now st h) (missing-IsSettled id st.jobs h)
    | inr (job, h) ↦
        rw (jobs-mark_completed env id result now st job h)
          (updated-IsSettled id (complete_row now result) st.jobs job h (λ j. refl) (λ e. cc))
  ]

  mark_canceled-IsSettled :
      (id : String) (now : ℕ) (st : State L) → IsSettled id (mark_canceled env id now st).jobs
  unfolding cancel_row
  mark_canceled-IsSettled id now st = elim (Option-cases (find_job id st.jobs)) [
    | inl h ↦ rw (mark_canceled_missing env id now st h) (missing-IsSettled id st.jobs h)
    | inr (job, h) ↦
        rw (jobs-mark_canceled env id now st job h)
          (updated-IsSettled id (cancel_row now) st.jobs job h (λ j. refl) (λ e. cc))
  ]

  mark_failed-IsSettled :
      (id : String) (message : Text) (now : ℕ) (st : State L)
      → IsSettled id (mark_failed env id message now st).jobs
  unfolding retry_row fail_row
  mark_failed-IsSettled id message now st = elim (Option-cases (find_job id st.jobs)) [
    | inl h ↦ rw (mark_failed_missing env id message now st h) (missing-IsSettled id st.jobs h)
    | inr (job, h) ↦
        rw (jobs-mark_failed env id message now st job h) (elim (Bool-cases (should_retry job)) [
          | inl e ↦ rw e (updated-IsSettled id (retry_row _ _) st.jobs job h (λ j. refl) (λ g. cc))
          | inr e ↦ rw e (updated-IsSettled id (fail_row _ _) st.jobs job h (λ j. refl) (λ g. cc))
        ])
  ]

module _ {L S : Type 0} (tools : Tools L S) (fresh : String → String) where
  settle-IsSettled :
      (job : Job) (r : World L S × Result Json)
      → (settle tools fresh job r).1 ≡ ended
      → IsSettled job.id (settle tools fresh job r).0.jobs.jobs
  unfolding settle
  settle-IsSettled job (w, done result) h =
      mark_completed-IsSettled tools.env job.id (some result) _ _
  settle-IsSettled job (w, stopped) h = mark_canceled-IsSettled tools.env job.id _ _
  settle-IsSettled job (w, threw message) h = mark_failed-IsSettled tools.env job.id _ _ _
  settle-IsSettled job (w, unfinished) h = absurd (cc h)

  started-IsSettled :
      (job : Job) (correlation_id : Text) (seen : World L S × Bool)
      → (start_or_cancel tools fresh job correlation_id seen).1 ≡ ended
      → IsSettled job.id (start_or_cancel tools fresh job correlation_id seen).0.jobs.jobs
  started-IsSettled job correlation_id (w, true) h = mark_canceled-IsSettled tools.env job.id _ _
  started-IsSettled job correlation_id (w, false) h =
      settle-IsSettled job (dispatch tools fresh job.type job correlation_id w) h

  -- When the run of a job has ended, by a success, a cancellation or any error, and whatever else
  -- was done to the jobs meanwhile, the job's row does not say that it is running.
  pub execute-IsSettled :
      (job : Job) (correlation_id : Text) (w : World L S)
      → (execute tools fresh job correlation_id w).1 ≡ ended
      → IsSettled job.id (execute tools fresh job correlation_id w).0.jobs.jobs
  unfolding execute
  execute-IsSettled job correlation_id w h = started-IsSettled job correlation_id _ h
