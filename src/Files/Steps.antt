-- ===== src/Files/Steps.antt =====
-- apps/api/src/files/files.service.ts: the table of upload sessions over a run of the service, whose
-- operations follow one another in any order.
pub mod Kept
pub mod Reached
use s3gator.Base.{ℕ, String, Option, none, some, map, List, ◌≡◌}
use s3gator.Base.Text.{Text}
use s3gator.Base.Outcome.{Outcome, ok, err, Error}
use s3gator.Auth.{SessionUser, super_admin, admin, role_eq}
use s3gator.S3.{Sent, answered, failed}
use s3gator.S3.Multipart.{MultipartInitResult}
use s3gator.Files.Model.{UploadSession, Env, State, find_upload, update_upload, write_session}
use s3gator.Files.Rows.{
  signed_row, recorded_row, completed_row, aborted_row, failed_row, expired_row,
}
use s3gator.Files.Create.{InitInput, init_sent, init_entry, init_multipart_session}
use s3gator.Files.Uploads.{
  presign_all, sign_entered, record_entered, complete_sent, abort_in_store, sign_multipart_parts,
  record_multipart_part, complete_multipart, abort_multipart, fail_multipart,
}
use s3gator.Files.Uploads.Unchanged.{Operation, sign, keep, complete, abort, fail, run}
use s3gator.Files.Public.{clean_all, cleanup_expired_multipart_sessions}

-- What no operation changes of a session.
pub record Identity : Type 0 where
  pub id : String
  pub user_id : String
  pub bucket_id : String
  pub object_key : Text
  pub upload_id : String
  pub part_size : Option ℕ
  pub total_parts : Option ℕ
  pub file_size : Option ℕ
  pub content_type : Option String
  pub created_at : ℕ
  pub expires_at : ℕ

abbrev pub identity_of : UploadSession → Identity
identity_of s = record {
  id = s.id;
  user_id = s.user_id;
  bucket_id = s.bucket_id;
  object_key = s.object_key;
  upload_id = s.upload_id;
  part_size = s.part_size;
  total_parts = s.total_parts;
  file_size = s.file_size;
  content_type = s.content_type;
  created_at = s.created_at;
  expires_at = s.expires_at;
}

module _ {S : Type 0} (env : Env S) where
  -- One call of the service. The identifier of a new row is fresh.
  pub data Step : State S → State S → Type 0 where
    started :
        (actor : SessionUser) (input : InitInput) (id : String) (now : ℕ) {st : State S}
        → find_upload id st.sessions ≡ none
        → Step st (init_multipart_session env actor input id now st).0
    worked :
        (op : Operation) (actor : SessionUser) (id : String) (now : ℕ) {st : State S}
        → Step st (run env op actor id now st)
    cleaned :
        (actor : SessionUser) (limit : Option ℕ) (now : ℕ) {st : State S}
        → Step st (cleanup_expired_multipart_sessions env actor limit now st).0

  pub data Reach : State S → State S → Type 0 where
    here : {st : State S} → Reach st st
    next : {st st' st'' : State S} → Reach st st' → Step st' st'' → Reach st st''
