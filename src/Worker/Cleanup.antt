-- ===== src/Worker/Cleanup.antt =====
-- apps/api/src/jobs/jobs.worker.service.ts: the jobs that clean up expired uploads and old rows.
pub mod Swallowed
use s3gator.Base.{
  ℕ, zero, suc, ◌+◌, ◌-◌, ◌%◌, String, Bool, true, false, Option, none, some, List, [], ◌∷◌, ◌++◌,
  if◌then◌else◌, length, ltb, ◌==◌, ◌||◌, ◌&&◌, take, keep_if,
}
use s3gator.Base.Text.{Text}
use s3gator.Auth.Authorization.{Bucket}
use s3gator.Files.Model.{UploadSession, initiated, in_progress, update_upload, find_bucket_by_id}
use s3gator.Files.Rows.{expired_row}
use s3gator.Files.Public.{status_in}
use s3gator.Jobs.Json.{Json, object, string, str, num, null}
use s3gator.Jobs.Model.{Job, warn}
use s3gator.Worker.Payload.{
  Actor, Reason, MaintenancePayload, parse_upload_cleanup, parse_retention_cleanup,
}
use s3gator.Worker.Sync.{reason_name}
use s3gator.Worker.Model.{
  s3_duration, s3_failure, World, Tools, Action, Result, done, stopped, threw, unfinished, ◌>>=◌,
  ◌>>◌, pure, modify, record_audit, measure, lift, lift_parsed, now, event, progress,
  throw_if_cancel_requested, RetentionSummary,
}

-- `catch (error) { handler }` after an action, for the message of the error; that of a
-- `JobCanceledError` is "Job canceled".
abbrev pub recover :
    {W : Type 0} → W × Result (Unit {0}) → (String → Action W (Unit {0})) → W × Result (Unit {0})
recover (w, done a) handler = (w, done tt)
recover (w, stopped) handler = handler "Job canceled" w
recover (w, threw m) handler = handler m w
recover (w, unfinished) handler = (w, unfinished)

abbrev pub catch :
    {W : Type 0} → Action W (Unit {0}) → (String → Action W (Unit {0})) → Action W (Unit {0})
catch action handler w = recover (action w) handler

unfoldable pub is_expired_upload : ℕ → UploadSession → Bool
is_expired_upload now s = status_in (initiated ∷ in_progress ∷ []) s.status && ltb s.expires_at now

module _ {L S : Type 0} (tools : Tools L S) where
  abbrev bucket_json : Option Bucket → Json
  bucket_json none = null
  bucket_json (some bucket) = str (tools.text bucket.name)

  abbrev audit_item : Actor → Reason → UploadSession → Option Bucket → Action (World L S) (Unit {0})
  audit_item actor reason session none = pure tt
  audit_item actor reason session (some bucket) = do
    measure (s3_duration "upload_cleanup")
    record_audit (record {
      actor = actor;
      action = "object.upload.cleanup";
      entity_type = "upload_session";
      entity_id = some (tools.text session.id);
      metadata = object (
          ("bucket", str (tools.text bucket.name))
          ∷ ("objectKey", str session.object_key)
          ∷ ("reason", string (reason_name reason))
          ∷ []);
      ip_address = none;
    })

  -- The body of the loop within its `try`.
  unfoldable pub clean_item :
      String → MaintenancePayload → ℕ → ℕ → UploadSession → Action (World L S) (Unit {0})
  unfolding throw_if_cancel_requested expired_row
  clean_item id payload total processed session = do
    throw_if_cancel_requested tools id "upload_cleanup_loop"
    progress tools id
        (object (
          ("totalItems", num total)
          ∷ ("processedItems", num processed)
          ∷ ("metadata", object (("currentUploadSessionId", str (tools.text session.id)) ∷ []))
          ∷ []))
        (processed == 0 || processed == total - 1 || processed % 10 == 0)
        "Upload cleanup progress updated."
    modify
        λ w. record w { uploads = update_upload session.id (expired_row (now tools w)) w.uploads }
    bucket ← λ w. pure (find_bucket_by_id session.bucket_id w.buckets) w
    event tools id "upload_cleanup.item_processed" none "Expired upload session marked as failed." (
        object (
          ("uploadSessionId", str (tools.text session.id))
          ∷ ("bucket", bucket_json bucket)
          ∷ ("objectKey", str session.object_key)
          ∷ []))
    audit_item payload.actor payload.reason session bucket

  -- The `catch` of the loop.
  abbrev item_failed : String → UploadSession → String → Action (World L S) (Unit {0})
  item_failed id session message = do
    measure (s3_failure "upload_cleanup")
    event tools id "upload_cleanup.item_failed" (some warn) "Upload cleanup failed for session." (
        object (
          ("uploadSessionId", str (tools.text session.id))
          ∷ ("error", str (tools.text message))
          ∷ []))

  -- The loop, whose answer is `processed`.
  unfoldable pub clean_items :
      String → MaintenancePayload → ℕ → List UploadSession → ℕ → Action (World L S) ℕ
  unfolding clean_item
  clean_items id payload total [] processed = pure processed
  clean_items id payload total (session ∷ sessions) processed = do
    catch (clean_item id payload total processed session) (item_failed id session)
    clean_items id payload total sessions (suc processed)

  abbrev cleanup_counts : ℕ → ℕ → Json
  cleanup_counts cleaned total =
      object (("cleaned", num cleaned) ∷ ("totalExpired", num total) ∷ [])

  -- What follows the search for expired sessions.
  unfoldable pub clean_expired :
      Job → MaintenancePayload → List UploadSession → Action (World L S) Json
  unfolding clean_items
  clean_expired job payload expired = do
    cleaned ← clean_items job.id payload (length expired) expired 0
    event tools job.id "upload_cleanup.completed_step" none "Upload cleanup completed."
        (cleanup_counts cleaned (length expired))
    pure (cleanup_counts cleaned (length expired))

  unfoldable pub execute_upload_cleanup : Job → Action (World L S) Json
  unfolding parse_upload_cleanup clean_expired is_expired_upload
  execute_upload_cleanup job = do
    payload ← lift_parsed tools (parse_upload_cleanup job.payload)
    event tools job.id "upload_cleanup.started" none "Upload cleanup started." (
        object (
          ("reason", string (reason_name payload.reason))
          ∷ ("batchSize", num tools.cleanup_batch_size)
          ∷ []))
    expired ← λ w.
        pure (take tools.cleanup_batch_size (keep_if (is_expired_upload (now tools w)) w.uploads)) w
    clean_expired job payload expired

  -- The call of the retention service.
  abbrev run_retention : Action (World L S) RetentionSummary
  run_retention w = let (w', summary) = tools.run_cleanup w in lift tools summary w'

  unfoldable pub execute_retention_cleanup : Job → Text → Action (World L S) Json
  unfolding parse_retention_cleanup throw_if_cancel_requested
  execute_retention_cleanup job correlation_id = do
    payload ← lift_parsed tools (parse_retention_cleanup job.payload)
    event tools job.id "retention_cleanup.started" none "Retention cleanup started."
        (object (("reason", string (reason_name payload.reason)) ∷ []))
    throw_if_cancel_requested tools job.id "before_retention_cleanup"
    summary ← run_retention
    throw_if_cancel_requested tools job.id "after_retention_cleanup"
    let rows =
        (("mode", summary.mode)
          ∷ ("archived", summary.archived)
          ∷ ("deleted", summary.deleted)
          ∷ [])
    progress tools job.id
        (object (("metadata", object (rows ++ ("thresholds", summary.thresholds) ∷ [])) ∷ [])) true
        "Retention cleanup summary recorded."
    event tools job.id "retention_cleanup.completed_step" none "Retention cleanup completed."
        (object (("reason", string (reason_name payload.reason)) ∷ rows))
    record_audit (record {
      actor = payload.actor;
      action = "maintenance.retention.cleanup";
      entity_type = "maintenance";
      entity_id = some (tools.text job.id);
      metadata = object (
          ("mode", string "job")
          ∷ ("jobId", string job.id)
          ∷ ("correlationId", str correlation_id)
          ∷ ("reason", string (reason_name payload.reason))
          ∷ ("retentionMode", summary.mode)
          ∷ ("archived", summary.archived)
          ∷ ("deleted", summary.deleted)
          ∷ []);
      ip_address = none;
    })
    pure (object (rows ++ ("thresholds", summary.thresholds) ∷ []))
