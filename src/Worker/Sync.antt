-- ===== src/Worker/Sync.antt =====
-- apps/api/src/jobs/jobs.worker.service.ts: the job that copies the store's list of buckets into the
-- database. The identifier of a new row is made by the parameter `fresh` from its name.
pub mod Synced
use s3gator.Base.{
  ℕ, suc, ◌+◌, ◌-◌, ◌/◌, ◌%◌, String, Bool, true, Option, none, some, List, [], ◌∷◌, ◌++◌,
  if◌then◌else◌, length, leb, ◌==◌, ◌||◌, str_eq, max,
}
use s3gator.Base.Text.{Text}
use s3gator.Auth.Authorization.{Bucket}
use s3gator.Jobs.Json.{Json, object, string, str, num}
use s3gator.Jobs.Model.{Job}
use s3gator.Worker.Payload.{Reason, manual, scheduled, MaintenancePayload, parse_bucket_sync}
use s3gator.Worker.Model.{
  Connection, RemoteBucket, World, Tools, Action, ◌>>=◌, ◌>>◌, pure, throw, modify, record_audit,
  lift, lift_parsed, now, event, progress, throw_if_cancel_requested,
}

-- `bucket.globalAliases[0] ?? bucket.id`
abbrev pub preferred_name : RemoteBucket → String
preferred_name b = elim b.global_aliases [ [] ↦ b.id | alias ∷ _ ↦ alias ]

abbrev pub reason_name : Reason → String
reason_name manual = "manual"
reason_name scheduled = "scheduled"

-- `bucket.upsert` by name.
unfoldable pub upsert_bucket :
    (String → String) → ℕ → String → RemoteBucket → List Bucket → List Bucket
upsert_bucket fresh at connection_id remote [] =
    record {
      id = fresh (preferred_name remote);
      name = preferred_name remote;
      garage_bucket_id = some remote.id;
      connection_id = some connection_id;
      created_at = at;
      updated_at = at;
    }
    ∷ []
upsert_bucket fresh at connection_id remote (b ∷ buckets) =
    let rest = upsert_bucket fresh at connection_id remote buckets in
    if str_eq b.name (preferred_name remote)
    then record b {
      garage_bucket_id = some remote.id;
      connection_id = some connection_id;
      updated_at = at;
    }
      ∷ buckets
    else b ∷ rest

-- `!value`
abbrev pub is_blank : Option String → Bool
is_blank none = true
is_blank (some s) = str_eq s ""

-- `Math.max(1, Math.ceil(Math.max(total, 1) / 10))`
abbrev pub event_step : ℕ → ℕ
event_step total = max 1 ((max total 1 + 9) / 10)

-- `a % b` by the step, which is at least 1.
abbrev pub is_event_due : ℕ → ℕ → ℕ → ℕ → Bool
is_event_due total processed at last =
    processed == total || processed % event_step total == 0 || leb 5000 (at - last)

module _ {L S : Type 0} (tools : Tools L S) (fresh : String → String) where
  -- The loop over the buckets, of which `processed` are done, and the time of the last event.
  unfoldable pub sync_loop :
      String → String → ℕ → List RemoteBucket → ℕ → ℕ → Action (World L S) (Unit {0})
  unfolding upsert_bucket throw_if_cancel_requested
  sync_loop id connection_id total [] processed last = pure tt
  sync_loop id connection_id total (remote ∷ remotes) processed last = do
    throw_if_cancel_requested tools id "bucket_sync_loop"
    modify
        λ w. record w { buckets = upsert_bucket fresh (now tools w) connection_id remote w.buckets }
    at ← λ w. pure (now tools w) w
    let due = is_event_due total (suc processed) at last
    progress tools id
        (object (
          ("totalItems", num total)
          ∷ ("processedItems", num (suc processed))
          ∷ ("metadata", object (("lastBucket", str (tools.text (preferred_name remote))) ∷ []))
          ∷ []))
        due "Bucket sync progress updated."
    sync_loop id connection_id total remotes (suc processed) (if due then at else last)

  -- What `executeBucketSync` answers, and its audit tells.
  abbrev sync_counts : ℕ → Connection → MaintenancePayload → List (String × Json)
  sync_counts total connection payload =
      ("synced", num total)
      ∷ ("connectionId", string connection.id)
      ∷ ("reason", string (reason_name payload.reason))
      ∷ []

  unfoldable pub execute_bucket_sync : Job → Text → Action (World L S) Json
  unfolding parse_bucket_sync sync_loop
  execute_bucket_sync job correlation_id = do
    payload ← lift_parsed tools (parse_bucket_sync job.payload)
    event tools job.id "bucket_sync.started" none "Bucket sync started." (
        object (
          ("actorUserId", str payload.actor.id)
          ∷ ("reason", string (reason_name payload.reason))
          ∷ []))
    connection ← lift tools tools.connection
    (if is_blank connection.admin_api_url || is_blank connection.admin_token
        then throw "Default connection does not include Admin API credentials"
        else pure tt)
    remotes ← lift tools (tools.list_buckets connection)
    sync_loop job.id connection.id (length remotes) remotes 0 0
    event tools job.id "bucket_sync.completed_step" none "Bucket sync step completed."
        (object (sync_counts (length remotes) connection payload))
    record_audit (record {
      actor = payload.actor;
      action = "bucket.sync";
      entity_type = "bucket";
      entity_id = none;
      metadata = object (
          ("mode", string "job")
          ∷ ("jobId", string job.id)
          ∷ ("correlationId", str correlation_id)
          ∷ sync_counts (length remotes) connection payload);
      ip_address = payload.ip_address;
    })
    pure (object (sync_counts (length remotes) connection payload ++ ("mode", string "job") ∷ []))
