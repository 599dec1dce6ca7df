-- ===== src/Files/Create.antt =====
-- apps/api/src/files/files.service.ts: the creation of an upload session. The new row's identifier
-- and the time are arguments.
pub mod Sizes
use s3gator.Base.{
  ℕ, ◌+◌, ◌-◌, ◌*◌, ◌/◌, String, Option, none, some, List, [], ◌∷◌, ◌++◌, max, or_default, or_else,
}
use s3gator.Base.Outcome.{Outcome, ok, err, ◌>>=◌, ◌>>◌, not_found, thrown}
use s3gator.Base.Text.{Text}
use s3gator.Auth.{SessionUser, object_upload}
use s3gator.Auth.Authorization.{Bucket, find_bucket, require_bucket_permission}
use s3gator.S3.{Sent, answered, failed}
use s3gator.S3.Multipart.{
  MultipartInitRequest, MultipartInitResult, MultipartClient, init_multipart_upload,
}
use s3gator.Files.Model.{initiated, meta_numbers, UploadSession, Env, State, record_upload_event}

pub record InitInput : Type 0 where
  pub bucket : String
  pub object_key : Text
  pub content_type : Option String
  pub file_size : Option ℕ
  pub part_size : Option ℕ
  pub total_parts : Option ℕ
  pub relative_path : Option String

-- `Math.max(1, Math.ceil(fileSize / Math.max(partSize, 1)))`, exact below 2^53
unfoldable pub parts_for : ℕ → ℕ → ℕ
parts_for file_size part_size = max 1 ((file_size + (max part_size 1 - 1)) / max part_size 1)

abbrev pub total_parts_of : InitInput → ℕ → Option ℕ
total_parts_of input part_size = or_else input.total_parts (map_size input.file_size)
  where
    map_size : Option ℕ → Option ℕ
    map_size none = none
    map_size (some file_size) = some (parts_for file_size part_size)

abbrev pub init_request : InitInput → MultipartInitRequest
init_request input = record {
  bucket = input.bucket;
  object_key = input.object_key;
  content_type = input.content_type;
  metadata = none;
}

module _ {S : Type 0} (env : Env S) where
  -- The bucket and the client with which the upload begins.
  unfoldable pub init_entry : SessionUser → InitInput → Outcome (Bucket × MultipartClient S)
  init_entry actor input = do
    require_bucket_permission env.tables (some actor) (some input.bucket) object_upload
    bucket ← (elim (find_bucket input.bucket env.tables.buckets) [
      | none ↦ err (not_found "Bucket not found in app database. Sync buckets first.")
      | some bucket ↦ ok bucket
    ])
    client ← env.client
    ok (bucket, client)

  abbrev session_row :
      SessionUser → InitInput → Bucket → MultipartInitResult → String → ℕ → UploadSession
  session_row actor input bucket result id now =
      let part_size = or_default input.part_size env.config.part_size_bytes in
      record {
        id = id;
        user_id = actor.id;
        bucket_id = bucket.id;
        object_key = result.object_key;
        upload_id = result.upload_id;
        status = initiated;
        parts_meta = meta_numbers [];
        completed_parts = [];
        part_size = some part_size;
        total_parts = total_parts_of input part_size;
        file_size = input.file_size;
        content_type = input.content_type;
        relative_path = input.relative_path;
        error = none;
        last_activity_at = now;
        created_at = now;
        updated_at = now;
        expires_at = now + env.config.session_ttl_hours * 60 * 60 * 1000;
      }

  -- What follows the store's answer.
  unfoldable pub init_sent :
      SessionUser
      → InitInput
      → String
      → ℕ
      → Bucket
      → State S
      → Sent MultipartInitResult
      → State S × Outcome (String × MultipartInitResult)
  init_sent actor input id now bucket st (failed m) = (st, err (thrown m))
  init_sent actor input id now bucket st (answered result) =
      let row = session_row actor input bucket result id now in
      (
        record_upload_event "start" (record st { sessions = st.sessions ++ row ∷ [] }),
        ok (id, result),
      )

  unfoldable pub init_multipart_session :
      SessionUser
      → InitInput
      → String
      → ℕ
      → State S
      → State S × Outcome (String × MultipartInitResult)
  unfolding init_entry init_sent init_multipart_upload
  init_multipart_session actor input id now st = elim (init_entry actor input) [
    | err e ↦ (st, err e)
    | ok entry ↦
        let sent = init_multipart_upload entry.1 (init_request input) st.store in
        init_sent actor input id now entry.0 (record st { store = sent.0 }) sent.1
  ]
