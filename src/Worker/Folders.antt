-- ===== src/Worker/Folders.antt =====
-- apps/api/src/jobs/jobs.worker.service.ts: the jobs that rename and delete folders. The progress
-- that a rename reports from its callback is left out.
use s3gator.Base.{
  ℕ, ◌+◌, String, true, Option, none, some, List, [], ◌∷◌, ◌++◌, if◌then◌else◌, length, ltb,
}
use s3gator.Base.Text.{Text, codes}
use s3gator.S3.Delete.{DeleteResult, delete_file_or_folder}
use s3gator.S3.Rename.{RenameResult, Stage, copy, delete, rename_file_or_folder}
use s3gator.Jobs.Json.{Json, object, string, str, num, arr, Items, nil, cons}
use s3gator.Jobs.Model.{Level, info, warn, Job}
use s3gator.Worker.Payload.{Actor, parse_folder_rename, parse_folder_delete}
use s3gator.Worker.Model.{
  AuditInput, s3_duration, s3_failure, World, Tools, Action, ◌>>=◌, ◌>>◌, pure, record_audit,
  measure, call_store, lift, lift_parsed, event, progress, throw_if_cancel_requested,
}

abbrev items_of {ℓ} : {A : Type ℓ} → (A → Json) → List A → Items
items_of f [] = nil
items_of f (x ∷ xs) = cons (f x) (items_of f xs)

abbrev stage_name : Stage → String
stage_name copy = "copy"
stage_name delete = "delete"

-- The results with the fields of a job's result and of its audit.
unfoldable pub rename_json : (String → Text) → RenameResult → List (String × Json)
rename_json text r =
    ("bucket", str r.bucket)
    ∷ ("oldPrefixOrKey", str r.old_prefix_or_key)
    ∷ ("newPrefixOrKey", str r.new_prefix_or_key)
    ∷ ("copied", num r.copied)
    ∷ ("deleted", num r.deleted)
    ∷ (
      "failed",
      arr (
          items_of
            (λ e. object (
              ("sourceKey", str e.source_key)
              ∷ ("destinationKey", str e.destination_key)
              ∷ ("stage", string (stage_name e.stage))
              ∷ ("message", str (text e.message))
              ∷ []))
            r.errors),
    )
    ∷ []

unfoldable pub delete_json : (String → Text) → DeleteResult → List (String × Json)
delete_json text r =
    ("bucket", str r.bucket)
    ∷ ("deleted", num r.deleted)
    ∷ (
      "failed",
      arr (
          items_of
            (λ e. object (("key", str e.failed_key) ∷ ("message", str (text e.message)) ∷ []))
            r.failures),
    )
    ∷ []

abbrev level_of : ℕ → Level
level_of failures = if ltb 0 failures then warn else info

-- `${bucket}/${key}`
abbrev pub entity : Text → Text → Text
entity bucket key = bucket ++ codes "/" ++ key

abbrev object_audit :
    Actor → String → Text → String → Text → List (String × Json) → Option Text → AuditInput
object_audit actor action entity_id job_id correlation_id result ip_address = record {
  actor = actor;
  action = action;
  entity_type = "object";
  entity_id = some entity_id;
  metadata = object (
      ("mode", string "job")
      ∷ ("jobId", string job_id)
      ∷ ("correlationId", str correlation_id)
      ∷ ("result", object result)
      ∷ []);
  ip_address = ip_address;
}

module _ {L S : Type 0} (tools : Tools L S) where
  -- `if (failures > 0) recordS3Failure(operation)`
  abbrev measure_failures : String → ℕ → Action (World L S) (Unit {0})
  measure_failures operation failures =
      if ltb 0 failures then measure (s3_failure operation) else pure tt

  unfoldable pub execute_folder_rename : Job → Text → Action (World L S) Json
  unfolding parse_folder_rename throw_if_cancel_requested rename_file_or_folder rename_json
  execute_folder_rename job correlation_id = do
    payload ← lift_parsed tools (parse_folder_rename job.payload)
    event tools job.id "folder_rename.started" none "Folder rename started." (
        object (
          ("bucket", str payload.bucket)
          ∷ ("oldKey", str payload.old_key)
          ∷ ("newKey", str payload.new_key)
          ∷ []))
    client ← lift tools tools.client
    throw_if_cancel_requested tools job.id "before_rename_start"
    result ← call_store (
        rename_file_or_folder client tools.encode payload.bucket tools.pages tools.schedule
          payload.old_key payload.new_key)
    throw_if_cancel_requested tools job.id "after_rename_end"
    measure (s3_duration "folder_rename")
    measure_failures "folder_rename" (length result.errors)
    event tools job.id "folder_rename.completed_step" (some (level_of (length result.errors)))
        "Folder rename step completed."
        (object (
          ("copied", num result.copied)
          ∷ ("deleted", num result.deleted)
          ∷ ("failed", num (length result.errors))
          ∷ []))
    record_audit (
        object_audit payload.actor "object.rename" (entity payload.bucket payload.old_key) job.id
          correlation_id (rename_json tools.text result) payload.ip_address)
    pure (object (rename_json tools.text result ++ ("mode", string "job") ∷ []))

  unfoldable pub execute_folder_delete : Job → Text → Action (World L S) Json
  unfolding parse_folder_delete throw_if_cancel_requested delete_file_or_folder delete_json
  execute_folder_delete job correlation_id = do
    payload ← lift_parsed tools (parse_folder_delete job.payload)
    event tools job.id "folder_delete.started" none "Folder delete started."
        (object (("bucket", str payload.bucket) ∷ ("key", str payload.object_key) ∷ []))
    progress tools job.id (object (("metadata", object (("stage", string "deleting") ∷ [])) ∷ []))
        true "Folder delete started."
    client ← lift tools tools.client
    throw_if_cancel_requested tools job.id "before_delete_start"
    result ← call_store (delete_file_or_folder client payload.bucket tools.pages payload.object_key)
    throw_if_cancel_requested tools job.id "after_delete_end"
    measure (s3_duration "folder_delete")
    measure_failures "folder_delete" (length result.failures)
    let counts = (("deleted", num result.deleted) ∷ ("failed", num (length result.failures)) ∷ [])
    let items = num (result.deleted + length result.failures)
    progress tools job.id
        (object
          (("totalItems", items) ∷ ("processedItems", items) ∷ ("metadata", object counts) ∷ []))
        true "Folder delete step completed."
    event tools job.id "folder_delete.completed_step" (some (level_of (length result.failures)))
        "Folder delete step completed." (object counts)
    record_audit (
        object_audit payload.actor "object.delete" (entity payload.bucket payload.object_key) job.id
          correlation_id (delete_json tools.text result) payload.ip_address)
    pure (object (delete_json tools.text result ++ ("mode", string "job") ∷ []))
