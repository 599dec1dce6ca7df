-- ===== src/Worker/Examples.antt =====
-- A concrete worker: a lock service that grants every lock, a store that is not called, and jobs of
-- one administrator.
use s3gator.Base.{
  String, str_eq, if◌then◌else◌, ℕ, true, none, some, List, [], ◌∷◌, ◌≡◌, refl, length, take,
  keep_if, or_else,
}
use s3gator.Base.Outcome.{ok, err, thrown}
use s3gator.Base.Text.{codes, text_eq}
use s3gator.Auth.{super_admin}
use s3gator.Files.Model.{initiated, meta_numbers, UploadSession}
use s3gator.Jobs.Json.{Json, object, string, null, num}
use s3gator.Jobs.Model.{
  upload_cleanup, running, Job, LockService, Config, find_job, update_job, record_event,
  create_event,
}
use s3gator.Jobs.Finish.{mark_progress, is_cancel_requested}
use s3gator.Worker.Payload.{
  Actor, manual, MaintenancePayload, member, parse_actor, parse_upload_cleanup,
}
use s3gator.Worker.Model.{
  RemoteBucket, World, Tools, done, now, cancel_seen, throw_if_cancel_requested,
}
use s3gator.Worker.Sync.{sync_loop}
use s3gator.Worker.Sync.Synced.{garage_id, last_id, sync_loop_lem}
use s3gator.Worker.Cleanup.{
  is_expired_upload, clean_item, clean_items, clean_expired, execute_upload_cleanup,
}
use s3gator.Worker.Cleanup.Swallowed.{execute_upload_cleanup_done}
use s3gator.Worker.Execute.{ended, execute}
use s3gator.Worker.Execute.Settled.{IsSettled, execute-IsSettled}
use s3gator.Worker.Execute.Stopped.{canceled_at, execute-Requested}

abbrev granting : LockService (Unit {0})
granting = record {
  key = λ l k. k;
  acquire = λ k v ttl now l. (true, l);
  release = λ k v now l. (true, l);
}

abbrev config : Config
config = record {
  max_attempts_bucket_sync = 3;
  backoff_seconds_bucket_sync = 60;
  max_attempts_upload_cleanup = 3;
  backoff_seconds_upload_cleanup = 120;
  max_attempts_retention_cleanup = 2;
  backoff_seconds_retention_cleanup = 300;
  max_backoff_seconds = 1800;
}

abbrev root_json : Json
root_json = object (
    ("id", string "u0")
    ∷ ("username", string "root")
    ∷ ("email", null)
    ∷ ("displayName", null)
    ∷ ("role", string "SUPER_ADMIN")
    ∷ [])

abbrev cleanup_json : Json
cleanup_json = object (("actor", root_json) ∷ ("reason", string "manual") ∷ [])

abbrev root : Actor
root = record {
  id = codes "u0";
  username = codes "root";
  email = none;
  display_name = none;
  role = super_admin;
}

abbrev cleanup_payload : MaintenancePayload
cleanup_payload = record { actor = root; reason = manual; ip_address = none; correlation_id = none }

cleanup_parses : parse_upload_cleanup cleanup_json ≡ some cleanup_payload
unfolding parse_upload_cleanup parse_actor member text_eq
cleanup_parses = refl

abbrev tools : Tools (Unit {0}) (Unit {0})
tools = record {
  env = record { config = config; locks = granting; lower = λ t. t; iso = λ n. codes "t" };
  client = err (thrown "no connection");
  encode = λ t. t;
  pages = 1;
  schedule = [];
  connection = err (thrown "no connection");
  list_buckets = λ c. ok [];
  run_cleanup = λ w. (w, err (thrown "no retention"));
  cleanup_batch_size = 50;
  others = λ n st. st;
  clock = λ n. 500;
  text = codes;
  schema_error = "invalid";
  missing_record = "missing";
}

abbrev upload : UploadSession
upload = record {
  id = "s1";
  user_id = "u1";
  bucket_id = "b1";
  object_key = codes "a.txt";
  upload_id = "up";
  status = initiated;
  parts_meta = meta_numbers [];
  completed_parts = [];
  part_size = some 5;
  total_parts = some 3;
  file_size = some 12;
  content_type = none;
  relative_path = none;
  error = none;
  last_activity_at = 10;
  created_at = 10;
  updated_at = 10;
  expires_at = 100;
}

-- A job of which the cancellation was requested.
abbrev requested : Job
requested = record {
  id = "j1";
  type = upload_cleanup;
  status = running;
  correlation_id = none;
  attempt_count = 1;
  max_attempts = 3;
  retryable = true;
  next_retry_at = none;
  last_error = none;
  created_by_user_id = some "u0";
  payload = cleanup_json;
  progress = none;
  result = none;
  failure_summary = none;
  cancel_requested_at = some 300;
  lock_key = none;
  locked_at = none;
  created_at = 100;
  started_at = some 200;
  completed_at = none;
}

abbrev world : World (Unit {0}) (Unit {0})
world = record {
  jobs = record { jobs = requested ∷ []; events = []; metrics = []; lock_state = tt };
  store = tt;
  buckets = [];
  uploads = upload ∷ [];
  audits = [];
  measures = [];
  checkpoints = 0;
}

request_found : find_job "j1" world.jobs.jobs ≡ some requested
unfolding find_job
request_found = refl

request_seen : is_cancel_requested tools.env "j1" world.jobs ≡ true
unfolding is_cancel_requested find_job
request_seen = refl

run_ended : (execute tools (λ n. n) requested (codes "c") world).1 ≡ ended
unfolding execute cancel_seen is_cancel_requested find_job
run_ended = refl

execute-IsSettled_example :
    IsSettled "j1" (execute tools (λ n. n) requested (codes "c") world).0.jobs.jobs
execute-IsSettled_example = execute-IsSettled tools (λ n. n) requested (codes "c") world run_ended

execute-Requested_example :
    ((id : String)
      → find_job id (execute tools (λ n. n) requested (codes "c") world).0.jobs.jobs ≡ (
          if str_eq "j1" id then some (canceled_at 500 requested) else find_job id world.jobs.jobs))
    × ((execute tools (λ n. n) requested (codes "c") world).0.store ≡ tt)
    × ((execute tools (λ n. n) requested (codes "c") world).0.buckets ≡ [])
    × ((execute tools (λ n. n) requested (codes "c") world).0.uploads ≡ upload ∷ [])
    × ((execute tools (λ n. n) requested (codes "c") world).0.audits ≡ [])
execute-Requested_example =
    execute-Requested tools (λ n. n) requested requested (codes "c") 300 world request_found refl

execute_upload_cleanup_done_example :
    (n : ℕ) × (n
      ≡ length (
          take tools.cleanup_batch_size
            (keep_if (is_expired_upload (now tools world)) world.uploads)))
    × ((execute_upload_cleanup tools requested world).1
        ≡ done (object (("cleaned", num n) ∷ ("totalExpired", num n) ∷ [])))
execute_upload_cleanup_done_example =
    execute_upload_cleanup_done tools requested cleanup_payload world cleanup_parses

-- The uploads stay as they are, though the answer counts one as cleaned.
nothing_cleaned : (execute_upload_cleanup tools requested world).0.uploads ≡ upload ∷ []
unfolding execute_upload_cleanup parse_upload_cleanup parse_actor member clean_expired clean_items
    clean_item text_eq record_event throw_if_cancel_requested cancel_seen is_cancel_requested
    find_job is_expired_upload
nothing_cleaned = refl

-- A job that nobody wants to cancel.
abbrev wanted : World (Unit {0}) (Unit {0})
wanted = record world {
  jobs = record {
    jobs = record requested { cancel_requested_at = none } ∷ [];
    events = [];
    metrics = [];
    lock_state = tt;
  };
}

abbrev remotes : List RemoteBucket
remotes =
    record { id = "g1"; global_aliases = "photos" ∷ [] }
    ∷ record { id = "g2"; global_aliases = [] }
    ∷ []

synced : (sync_loop tools (λ n. n) "j1" "c1" 2 remotes 0 0 wanted).1 ≡ done tt
unfolding sync_loop throw_if_cancel_requested cancel_seen is_cancel_requested find_job mark_progress
    create_event update_job
synced = refl

sync_loop_lem_example :
    garage_id "photos" (sync_loop tools (λ n. n) "j1" "c1" 2 remotes 0 0 wanted).0.buckets
    ≡ or_else (last_id "photos" remotes) (garage_id "photos" wanted.buckets)
sync_loop_lem_example = sync_loop_lem tools (λ n. n) "j1" "c1" 2 remotes 0 0 wanted "photos" synced
