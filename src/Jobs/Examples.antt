-- ===== src/Jobs/Examples.antt =====
-- Concrete jobs and calls.
use s3gator.Base.{
  or_default, or_else, ◌+◌, ℕ, ◌+◌, ◌*◌, ◌^◌, ◌≤◌, ◌&&◌, min, max, length, true, none, some, List,
  [], ◌∷◌, ◌≡◌, ◌↔◌, refl, arith, All, leb,
}
use Prim.Native.String
use s3gator.Base.Outcome.{Outcome, ok, err}
use s3gator.Base.Text.{codes}
use s3gator.Auth.{SessionUser, user}
use s3gator.Jobs.Json.{Json, null, str, object, sanitize}
use s3gator.Jobs.Json.Redacted.{IsClean, sanitize-IsClean}
use s3gator.Jobs.Model.{
  completed, folder_delete, bucket_sync, queued, running, info, Job, JobEvent, LockService, Config,
  Env, State, find_job,
}
use s3gator.Jobs.Retry.{get_retry_policy, compute_backoff_seconds, compute_backoff_seconds_bounds}
use s3gator.Jobs.Queue.{
  JobPayload, is_claimable, claim_row, claim_candidate, claim_next, find_candidate, claim_rows,
  lock_candidate, record_claim,
}
use s3gator.Jobs.Finish.{mark_completed, mark_failed, should_retry}
use s3gator.Jobs.Access.{
  JobPublic, all, can_view, list_rows, get_by_id, get_detail, list_events, visible_job,
  request_cancel, apply_cancel, to_public,
}
use s3gator.Jobs.Access.Visibility.{list_rows-can_view, get_detail-agrees, list_events-All}
use s3gator.Jobs.Invariant.{
  IsWellFormed, IsValidConfig, Call, enqueues, claims, fails, run, run-AllWellFormed,
}
use s3gator.Jobs.Exclusive.{
  claim_exclusive, mark_failed-claimable, request_cancel-claim_candidate, mark_completed_by_anyone,
}
use s3gator.Jobs.Next.{HandedOut, claim_next-HandedOut}

-- A lock service that grants every lock.
abbrev granting : LockService (Unit {0})
granting = record {
  key = λ l k. k;
  acquire = λ k v ttl now l. (true, l);
  release = λ k v now l. (true, l);
}

abbrev config : Config
config = record {
  max_attempts_bucket_sync = 3;
  backoff_seconds_bucket_sync = 60;
  max_attempts_upload_cleanup = 3;
  backoff_seconds_upload_cleanup = 120;
  max_attempts_retention_cleanup = 2;
  backoff_seconds_retention_cleanup = 300;
  max_backoff_seconds = 1800;
}

abbrev env : Env (Unit {0})
env = record { config = config; locks = granting; lower = λ t. t; iso = λ n. codes "t" }

valid : IsValidConfig config
valid = record {
  bucket_sync_tries = omega arith;
  upload_cleanup_tries = omega arith;
  retention_cleanup_tries = omega arith;
}

abbrev waiting : Job
waiting = record {
  id = "j1";
  type = bucket_sync;
  status = queued;
  correlation_id = none;
  attempt_count = 0;
  max_attempts = 3;
  retryable = true;
  next_retry_at = none;
  last_error = none;
  created_by_user_id = some "u1";
  payload = null;
  progress = none;
  result = none;
  failure_summary = none;
  cancel_requested_at = none;
  lock_key = none;
  locked_at = none;
  created_at = 1000;
  started_at = none;
  completed_at = none;
}

abbrev at_work : Job
at_work = record waiting {
  status = running;
  attempt_count = 1;
  lock_key = some "w1:x";
  locked_at = some 2000;
  started_at = some 2000;
}

abbrev table_of : Job → State (Unit {0})
table_of job = record { jobs = job ∷ []; events = []; metrics = []; lock_state = tt }

abbrev alice : SessionUser
alice = record { id = "u1"; username = "alice"; email = none; display_name = none; role = user }

abbrev payload : JobPayload
payload = record { actor_id = "u1"; correlation_id = none; body = null }

abbrev calls : List (ℕ × Call)
calls =
    (1000, enqueues "j2" none folder_delete payload)
    ∷ (2000, claims "w1" "w1:x" 60 waiting)
    ∷ (3000, fails "j1" (codes "no route"))
    ∷ []

run-AllWellFormed_example : All IsWellFormed (run env (table_of waiting) calls).jobs
run-AllWellFormed_example =
    run-AllWellFormed env (table_of waiting) calls valid ((refl, refl, refl, omega arith), tt)

found : find_job "j1" (waiting ∷ []) ≡ some waiting
unfolding find_job
found = refl

found_at_work : find_job "j1" (at_work ∷ []) ≡ some at_work
unfolding find_job
found_at_work = refl

claimable : is_claimable 60 2000 waiting ≡ true
unfolding is_claimable
claimable = refl

claim_exclusive_example :
    let (result, st) = claim_candidate env "w1" "w1:x" 60 2000 waiting (table_of waiting) in
    (result ≡ some (claim_row 2000 "w1:x" none waiting))
    × ((claim_candidate env "w2" "w2:y" 60 9000 waiting st).0 ≡ none)
    × ((claim_candidate env "w2" "w2:y" 60 9000 waiting st).1.jobs ≡ st.jobs)
claim_exclusive_example =
    claim_exclusive env "w1" "w2" "w1:x" "w2:y" 60 60 2000 9000 waiting waiting waiting
      (table_of waiting) (tt, tt) found claimable refl (omega arith)

mark_failed-claimable_example :
    (row : Job) × (find_job "j1"
        (mark_failed env "j1" (codes "no route") 3000 (table_of at_work)).jobs
      ≡ some row)
    × (is_claimable 60 100000 row ≡ (
        should_retry at_work
        && leb (3000 + compute_backoff_seconds config bucket_sync 1 * 1000) 100000))
    × (row.attempt_count ≡ 1)
mark_failed-claimable_example =
    mark_failed-claimable env "j1" (codes "no route") 3000 60 100000 (table_of at_work) at_work
      found_at_work

compute_backoff_seconds_bounds_example :
    let base = (get_retry_policy config bucket_sync).base_backoff_seconds in
    (compute_backoff_seconds config bucket_sync 3 ≡ min (base * 2 ^ 2) 1800)
    × (compute_backoff_seconds config bucket_sync 2 ≤ 1800)
    × (min base 1800 ≤ compute_backoff_seconds config bucket_sync 2)
    × (compute_backoff_seconds config bucket_sync 2 ≤ compute_backoff_seconds config bucket_sync 4)
compute_backoff_seconds_bounds_example =
    compute_backoff_seconds_bounds config bucket_sync 2 4 (omega arith)

abbrev secrets : Json
secrets = object (("password", str (codes "x")) ∷ ("bucket", str (codes "b")) ∷ [])

sanitize-IsClean_example :
    IsClean (λ t. t) (sanitize (λ t. t) secrets)
    × (sanitize (λ t. t) (sanitize (λ t. t) secrets) ≡ sanitize (λ t. t) secrets)
sanitize-IsClean_example = sanitize-IsClean (λ t. t) secrets

list_rows-can_view_example :
    All
      (λ j. can_view [] alice j ≡ true)
      (list_rows [] alice (some 10) (some all) (waiting ∷ at_work ∷ []))
    × (length (list_rows [] alice (some 10) (some all) (waiting ∷ at_work ∷ []))
        ≤ min (max 10 1) 500)
list_rows-can_view_example =
    list_rows-can_view [] alice (some 10) (some all) (waiting ∷ at_work ∷ [])

abbrev event : JobEvent
event = record {
  job_id = "j1";
  correlation_id = none;
  type = "created";
  level = info;
  message = "Job queued.";
  metadata = none;
}

get_detail-agrees_example :
    (get_detail env.iso [] alice "j1" none (waiting ∷ []) (event ∷ [])
      ≡ ok (to_public env.iso waiting, event ∷ []))
    ↔ ((get_by_id env.iso [] alice "j1" (waiting ∷ []) ≡ ok (to_public env.iso waiting))
        × (list_events [] alice "j1" none (waiting ∷ []) (event ∷ []) ≡ ok (event ∷ [])))
get_detail-agrees_example =
    get_detail-agrees env.iso [] alice "j1" none (waiting ∷ []) (event ∷ []) (event ∷ [])
      (to_public env.iso waiting)

listed : list_events [] alice "j1" none (waiting ∷ []) (event ∷ []) ≡ ok (event ∷ [])
unfolding list_events visible_job can_view find_job
listed = refl

list_events-All_example : All (λ e. e.job_id ≡ "j1") (event ∷ []) × (length (event ∷ []) ≤ 1000)
list_events-All_example =
    list_events-All [] alice "j1" none (waiting ∷ []) (event ∷ []) (event ∷ []) listed

abbrev cancelled : JobPublic × State (Unit {0})
cancelled = after (request_cancel env [] alice "j1" 2000 (table_of waiting))
  where
    after : Outcome (JobPublic × State (Unit {0})) → JobPublic × State (Unit {0})
    after (ok r) = r
    after (err e) = (to_public env.iso waiting, table_of waiting)

cancelled_ok :
    request_cancel env [] alice "j1" 2000 (table_of waiting) ≡ ok (cancelled.0, cancelled.1)
unfolding request_cancel visible_job can_view find_job apply_cancel
cancelled_ok = refl

request_cancel-claim_candidate_example :
    ((claim_candidate env "w1" "w1:x" 60 9000 waiting cancelled.1).0 ≡ none)
    × ((claim_candidate env "w1" "w1:x" 60 9000 waiting cancelled.1).1.jobs ≡ cancelled.1.jobs)
request_cancel-claim_candidate_example =
    request_cancel-claim_candidate env [] alice 2000 60 9000 (table_of waiting) cancelled.1
      cancelled.0 waiting waiting "w1" "w1:x" (tt, tt) found refl cancelled_ok

mark_completed_by_anyone_example :
    let claimed = claim_candidate env "w2" "w2:y" 60 90000 at_work (table_of at_work) in
    let st = mark_completed env "j1" none 95000 claimed.1 in
    (find_job "j1" st.jobs
      ≡ some (record at_work {
        status = completed;
        attempt_count = at_work.attempt_count + 1;
        started_at = some (or_default at_work.started_at 90000);
        locked_at = some 90000;
        lock_key = some "w2:y";
        next_retry_at = none;
        last_error = none;
        result = or_else none at_work.result;
        completed_at = some 95000;
      }))
    × (st.lock_state
        ≡ (granting.release
            (granting.key claimed.1.lock_state (String.◌++◌ "job:lock:" "j1"))
            "w2:y"
            95000
            claimed.1.lock_state).1)
mark_completed_by_anyone_example =
    mark_completed_by_anyone env "w2" "w2:y" none 60 90000 95000 2000 (table_of at_work) at_work
      at_work (tt, tt) found_at_work refl refl (omega arith) refl

abbrev handed : Job
handed = claim_row 2000 "w1:x" none waiting

abbrev after_claim : State (Unit {0})
after_claim = (claim_next env "w1" "x" 60 2000 (table_of waiting)).1

handed_out : claim_next env "w1" "x" 60 2000 (table_of waiting) ≡ (some handed, after_claim)
unfolding claim_next find_candidate is_claimable lock_candidate claim_candidate claim_rows claim_row
    record_claim find_job
handed_out = refl

claim_next-HandedOut_example :
    HandedOut
      (String.◌++◌ "w1" (String.◌++◌ ":" "x"))
      60
      2000
      (waiting ∷ [])
      after_claim.jobs
      handed
claim_next-HandedOut_example =
    claim_next-HandedOut env "w1" "x" 60 2000 (table_of waiting) after_claim handed (tt, tt)
      ((refl, refl, refl, omega arith), tt) handed_out
