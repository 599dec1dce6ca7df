-- ===== src/Jobs/Access.antt =====
-- apps/api/src/jobs/jobs.service.ts: who sees a job, what the lists hold, and requests to cancel.
-- Times are shown by the parameter `iso`; events are answered as their rows.
pub mod Visible
pub mod Visibility
use s3gator.Base.{
  ℕ, ◌*◌, String, Bool, true, false, Option, none, some, List, [], ◌∷◌, map, reverse, if◌then◌else◌,
  str_eq, ◌&&◌, ◌||◌, or_default, take, keep_if, min, max,
}
use s3gator.Base.Outcome.{Outcome, ok, err, not_found, forbidden, ◌>>=◌}
use s3gator.Base.Text.{Text, codes, text_eq}
use s3gator.Auth.{AppRole, super_admin, admin, user, SessionUser}
use s3gator.Jobs.Json.{Json, obj, str, Fields, end, field, object, string, bool}
use s3gator.Jobs.Model.{
  JobType, JobStatus, queued, running, completed, failed, canceled, warn, Job, JobEvent, job_event,
  Env, State, find_job, update_job, record_metric, job_event_of, release_job_lock,
}

-- A row of `adminBucketScope`, with the name of its bucket.
pub record AdminScope : Type 0 where
  pub admin_user_id : String
  pub bucket_name : Text

pub record JobPublic : Type 0 where
  pub id : String
  pub type : JobType
  pub status : JobStatus
  pub correlation_id : Option String
  pub created_by_user_id : Option String
  pub attempt_count : ℕ
  pub max_attempts : ℕ
  pub retryable : Bool
  pub next_retry_at : Option Text
  pub last_error : Option Text
  pub created_at : Text
  pub started_at : Option Text
  pub completed_at : Option Text
  pub cancel_requested_at : Option Text
  pub failure_summary : Option Text
  pub progress : Option Json
  pub result : Option Json

abbrev map_option : (ℕ → Text) → Option ℕ → Option Text
map_option f none = none
map_option f (some a) = some (f a)

unfoldable pub to_public : (ℕ → Text) → Job → JobPublic
to_public iso item = record {
  id = item.id;
  type = item.type;
  status = item.status;
  correlation_id = item.correlation_id;
  created_by_user_id = item.created_by_user_id;
  attempt_count = item.attempt_count;
  max_attempts = item.max_attempts;
  retryable = item.retryable;
  next_retry_at = map_option iso item.next_retry_at;
  last_error = item.last_error;
  created_at = iso item.created_at;
  started_at = map_option iso item.started_at;
  completed_at = map_option iso item.completed_at;
  cancel_requested_at = map_option iso item.cancel_requested_at;
  failure_summary = item.failure_summary;
  progress = item.progress;
  result = item.result;
}

-- `createdByUserId === userId`
abbrev pub created_by : String → Option String → Bool
created_by user_id none = false
created_by user_id (some id) = str_eq id user_id

abbrev bucket_text : Json → Option Text
bucket_text (str []) = none
bucket_text (str (c ∷ s)) = some (c ∷ s)
bucket_text _ = none

read_bucket_field : Fields → Option Text
read_bucket_field end = none
read_bucket_field (field k v fs) =
    if text_eq k (codes "bucket") then bucket_text v else read_bucket_field fs

unfoldable pub read_payload_bucket : Json → Option Text
unfolding read_bucket_field
read_payload_bucket (obj fs) = read_bucket_field fs
read_payload_bucket _ = none

-- The bucket names of an administrator's scopes hold the name.
unfoldable pub in_scope : List AdminScope → String → Text → Bool
in_scope [] admin_user_id bucket = false
in_scope (s ∷ scopes) admin_user_id bucket =
    (str_eq s.admin_user_id admin_user_id && text_eq s.bucket_name bucket)
    || in_scope scopes admin_user_id bucket

in_scope_option : List AdminScope → String → Option Text → Bool
in_scope_option scopes admin_user_id none = false
in_scope_option scopes admin_user_id (some bucket) = in_scope scopes admin_user_id bucket

unfoldable pub can_admin_access_job : List AdminScope → String → Job → Bool
unfolding in_scope_option
can_admin_access_job scopes admin_user_id job =
    created_by admin_user_id job.created_by_user_id
    || in_scope_option scopes admin_user_id (read_payload_bucket job.payload)

abbrev pub can_as : AppRole → List AdminScope → String → Job → Bool
can_as super_admin scopes id job = true
can_as admin scopes id job = can_admin_access_job scopes id job
can_as user scopes id job = created_by id job.created_by_user_id

-- `canView` and `canCancel`, which have the same body.
unfoldable pub can_view : List AdminScope → SessionUser → Job → Bool
can_view scopes actor job = can_as actor.role scopes actor.id job

pub data Scope : Type 0 where
  mine all : Scope

abbrev pub clamp_limit : Option ℕ → ℕ → ℕ → ℕ
clamp_limit limit default most = min (max (or_default limit default) 1) most

-- The rows for a role whose scope is `all`; `latest` has the newest row first.
abbrev pub list_all : AppRole → List AdminScope → String → ℕ → List Job → List Job
list_all user scopes id limit latest =
    take limit (keep_if (λ j. created_by id j.created_by_user_id) latest)
list_all super_admin scopes id limit latest = take limit latest
list_all admin scopes id limit latest =
    take limit (keep_if (can_admin_access_job scopes id) (take (min (limit * 5) 2000) latest))

abbrev pub list_in : Scope → AppRole → List AdminScope → String → ℕ → List Job → List Job
list_in mine role scopes id limit latest =
    take limit (keep_if (λ j. created_by id j.created_by_user_id) latest)
list_in all role scopes id limit latest = list_all role scopes id limit latest

-- The rows that `list` turns into its result.
unfoldable pub list_rows :
    List AdminScope → SessionUser → Option ℕ → Option Scope → List Job → List Job
list_rows scopes actor limit scope jobs =
    list_in (or_default scope mine) actor.role scopes actor.id (clamp_limit limit 100 500)
      (reverse jobs)

unfoldable pub list :
    (ℕ → Text) → List AdminScope → SessionUser → Option ℕ → Option Scope → List Job → List JobPublic
list iso scopes actor limit scope jobs =
    map (to_public iso) (list_rows scopes actor limit scope jobs)

-- The row that a request may see.
unfoldable pub visible_job :
    List AdminScope → SessionUser → String → String → List Job → Outcome Job
visible_job scopes actor id refusal jobs = elim (find_job id jobs) [
  | none ↦ err (not_found "Job not found")
  | some item ↦ if can_view scopes actor item then ok item else err (forbidden refusal)
]

unfoldable pub get_by_id :
    (ℕ → Text) → List AdminScope → SessionUser → String → List Job → Outcome JobPublic
get_by_id iso scopes actor id jobs = do
  item ← visible_job scopes actor id "Not allowed to view this job" jobs
  ok (to_public iso item)

-- `listEvents`, with the rows for their public form.
unfoldable pub list_events :
    List AdminScope
    → SessionUser
    → String
    → Option ℕ
    → List Job
    → List JobEvent
    → Outcome (List JobEvent)
list_events scopes actor id limit jobs events = do
  item ← visible_job scopes actor id "Not allowed to view this job" jobs
  ok (take (clamp_limit limit 200 1000) (keep_if (λ e. str_eq e.job_id item.id) events))

-- `getDetail`
unfoldable pub get_detail :
    (ℕ → Text)
    → List AdminScope
    → SessionUser
    → String
    → Option ℕ
    → List Job
    → List JobEvent
    → Outcome (JobPublic × List JobEvent)
get_detail iso scopes actor id limit jobs events = do
  item ← visible_job scopes actor id "Not allowed to view this job" jobs
  ok (
    to_public iso item,
    take (clamp_limit limit 200 1000) (keep_if (λ e. str_eq e.job_id item.id) events),
  )

abbrev status_name : JobStatus → String
status_name queued = "QUEUED"
status_name running = "RUNNING"
status_name completed = "COMPLETED"
status_name failed = "FAILED"
status_name canceled = "CANCELED"

abbrev pub is_queued : JobStatus → Bool
is_queued queued = true
is_queued _ = false

unfoldable pub cancel_queued_row : ℕ → Job → Job
cancel_queued_row now job = record job {
  status = canceled;
  cancel_requested_at = some now;
  completed_at = some now;
  next_retry_at = none;
}

module _ {L : Type 0} (env : Env L) where
  -- The branch of `requestCancel` for a job that still waits.
  unfoldable pub cancel_queued : ℕ → Job → State L → Job × State L
  cancel_queued now item st =
      let row = cancel_queued_row now item in
      (
        row,
        release_job_lock env row now (
            record_metric (job_event item.type "cancel" none) (
              job_event_of env row "canceled" warn "Job canceled before execution."
                (object (("reason", string "cancel_requested_queued") ∷ []))
                (job_event_of env row "canceled_requested" warn
                  "Cancellation requested while job was queued."
                  (object (
                    ("statusAtRequest", string (status_name item.status))
                    ∷ ("immediateCancel", bool true)
                    ∷ []))
                  (record st { jobs = update_job item.id (cancel_queued_row now) st.jobs })))),
      )

  -- The branch for any other job.
  unfoldable pub note_cancel : ℕ → Job → State L → Job × State L
  note_cancel now item st =
      let row = record item { cancel_requested_at = some now } in
      (
        row,
        job_event_of env row "canceled_requested" warn
            "Cancellation requested. Cancel is best-effort and observed at worker checkpoints."
            (object (
              ("statusAtRequest", string (status_name item.status))
              ∷ ("bestEffort", bool true)
              ∷ []))
            (record st {
              jobs = update_job item.id (λ j. record j { cancel_requested_at = some now }) st.jobs;
            }),
      )

  -- The two branches, on whether the job still waits.
  unfoldable pub apply_cancel : ℕ → Job → State L → Job × State L
  apply_cancel now item st =
      if is_queued item.status then cancel_queued now item st else note_cancel now item st

  unfoldable pub request_cancel :
      List AdminScope → SessionUser → String → ℕ → State L → Outcome (JobPublic × State L)
  request_cancel scopes actor id now st = do
    item ← visible_job scopes actor id "Not allowed to cancel this job" st.jobs
    let (row, st') = apply_cancel now item st
    ok (to_public env.iso row, st')
