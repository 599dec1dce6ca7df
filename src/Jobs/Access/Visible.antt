-- ===== src/Jobs/Access/Visible.antt =====
-- The row that a request may see, and the ways it is refused.
use s3gator.Base.{String, true, if◌then◌else◌, none, some, List, ◌≡◌, arith}
use s3gator.Base.Outcome.{ok, err, not_found, forbidden}
use s3gator.Auth.{SessionUser}
use s3gator.Jobs.Model.{Job, find_job}
use s3gator.Jobs.Access.{AdminScope, can_view, visible_job}

module _ (scopes : List AdminScope) (actor : SessionUser) (id refusal : String)
    (jobs : List Job) where
  pub visible_job-ok :
      (job : Job)
      → visible_job scopes actor id refusal jobs ≡ ok job
      → (find_job id jobs ≡ some job) × (can_view scopes actor job ≡ true)
  unfolding visible_job
  visible_job-ok job e = ground arith

  pub visible_job_of_none :
      find_job id jobs ≡ none
      → visible_job scopes actor id refusal jobs ≡ err (not_found "Job not found")
  unfolding visible_job
  visible_job_of_none e = rw (e, visible_job)

  pub visible_job_of_some :
      (job : Job)
      → find_job id jobs ≡ some job
      → visible_job scopes actor id refusal jobs
        ≡ (if can_view scopes actor job then ok job else err (forbidden refusal))
  unfolding visible_job
  visible_job_of_some job e = rw (e, visible_job)
