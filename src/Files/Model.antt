-- ===== src/Files/Model.antt =====
-- apps/api/src/files/files.service.ts: the rows of upload sessions, and what the service uses of
-- others. The table is a list in the order of creation; times are milliseconds, and every read of
-- the clock within one call gives the same instant.
use s3gator.Base.{
  ℕ, String, Bool, false, Option, none, some, List, [], ◌∷◌, ◌++◌, if◌then◌else◌, str_eq, ◌&&◌,
  ◌||◌,
}
use s3gator.Base.Outcome.{Outcome}
use s3gator.Base.Text.{Text}
use s3gator.Auth.Authorization.{Bucket}
use s3gator.S3.Multipart.{MultipartCompletePart, MultipartCompleteResult, MultipartClient}

pub data UploadSessionStatus : Type 0 where
  initiated in_progress completed aborted failed : UploadSessionStatus

-- What is written to `partsMeta`: the numbers that were signed, or the parts of the completion.
pub data PartsMeta : Type 0 where
  meta_numbers : List ℕ → PartsMeta
  meta_parts : List MultipartCompletePart → PartsMeta

pub record UploadSession : Type 0 where
  pub id : String
  pub user_id : String
  pub bucket_id : String
  pub object_key : Text
  pub upload_id : String
  pub status : UploadSessionStatus
  pub parts_meta : PartsMeta
  pub completed_parts : List MultipartCompletePart
  pub part_size : Option ℕ
  pub total_parts : Option ℕ
  pub file_size : Option ℕ
  pub content_type : Option String
  pub relative_path : Option String
  pub error : Option String
  pub last_activity_at : ℕ
  pub created_at : ℕ
  pub updated_at : ℕ
  pub expires_at : ℕ

-- A row of `adminBucketScope`.
pub record BucketScope : Type 0 where
  pub admin_user_id : String
  pub bucket_id : String

pub data AuditMetadata : Type 0 where
  upload_completed : MultipartCompleteResult → AuditMetadata
  upload_aborted : Option String → AuditMetadata
  upload_failed : Option String → Option String → AuditMetadata

-- The argument of `auditService.record`, whose `entityType` is "object" here. The entity is the
-- name of a bucket and a key in it.
pub record AuditInput : Type 0 where
  pub actor_id : String
  pub action : String
  pub entity_bucket : String
  pub entity_key : Text
  pub metadata : AuditMetadata
  pub ip_address : Option String

-- `UPLOAD_PART_SIZE_BYTES` and `UPLOAD_SESSION_TTL_HOURS`, or their defaults.
pub record Config : Type 0 where
  pub part_size_bytes : ℕ
  pub session_ttl_hours : ℕ

-- What the service reads only: the other tables, the settings, and the client of the default
-- connection, or what the connections service throws in its place.
pub record Env (S : Type 0) : Type 0 where
  pub tables : s3gator.Auth.Authorization.Tables
  pub scopes : List BucketScope
  pub config : Config
  pub client : Outcome (MultipartClient S)

pub record State (S : Type 0) : Type 0 where
  pub sessions : List UploadSession
  pub audits : List AuditInput
  pub upload_events : List String
  pub store : S

-- `uploadSession.findUnique` by id
unfoldable pub find_upload : String → List UploadSession → Option UploadSession
find_upload id [] = none
find_upload id (s ∷ sessions) = if str_eq s.id id then some s else find_upload id sessions

-- `uploadSession.update` by id, of a row that is there; the id is the table's primary key
unfoldable pub update_upload :
    String → (UploadSession → UploadSession) → List UploadSession → List UploadSession
update_upload id f [] = []
update_upload id f (s ∷ sessions) =
    let rest = update_upload id f sessions in if str_eq s.id id then f s ∷ sessions else s ∷ rest

-- `bucket.findUnique` by id
unfoldable pub find_bucket_by_id : String → List Bucket → Option Bucket
find_bucket_by_id id [] = none
find_bucket_by_id id (b ∷ buckets) = if str_eq b.id id then some b else find_bucket_by_id id buckets

-- `adminBucketScope.findFirst`
unfoldable pub has_scope : List BucketScope → String → String → Bool
has_scope [] admin_user_id bucket_id = false
has_scope (s ∷ scopes) admin_user_id bucket_id =
    (str_eq s.admin_user_id admin_user_id && str_eq s.bucket_id bucket_id)
    || has_scope scopes admin_user_id bucket_id

module _ {S : Type 0} where
  abbrev pub record_audit : AuditInput → State S → State S
  record_audit input st = record st { audits = st.audits ++ input ∷ [] }

  abbrev pub record_upload_event : String → State S → State S
  record_upload_event name st = record st { upload_events = st.upload_events ++ name ∷ [] }

  abbrev pub write_session : String → (UploadSession → UploadSession) → State S → State S
  write_session id f st = record st { sessions = update_upload id f st.sessions }
